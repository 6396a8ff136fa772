-- ===== src/Statements/Api.antt =====
-- The statements of src/notify_queue/api/routes.py.
use notify_queue.Base.{
  ℕ, suc, Bool, true, false, Option, none, some, List, [], ◌∷◌, Text, ◌==◌, leb, if◌then◌else◌,
  text_eq, take, select,
}
use notify_queue.Base.Sort.{sort}
use notify_queue.Schema.{Job, Channel, Priority, JobStatus, status_eq, Database, IdempotencyKey}
use notify_queue.Schema.Table.{find_job}
use notify_queue.Statements.Worker.{update_job, released_job}

-- The arguments of INSERT_JOB.
pub record NewJob : Type 0 where
  pub recipient : Text
  pub channel : Channel
  pub payload : Text
  pub send_at : ℕ
  pub priority : Priority
  pub max_attempts : ℕ
  pub callback_url : Option Text

-- The row that INSERT_JOB makes: the defaults of the table fill the other columns.
abbrev pub new_job : NewJob → ℕ → ℕ → Job
new_job n id now = record {
  id = id;
  recipient = n.recipient;
  channel = n.channel;
  payload = n.payload;
  send_at = n.send_at;
  priority = n.priority;
  status = JobStatus.pending;
  attempt_count = 0;
  max_attempts = n.max_attempts;
  next_retry_at = none;
  worker_id = none;
  claimed_at = none;
  heartbeat_at = none;
  sent_at = none;
  failed_at = none;
  error_message = none;
  callback_url = n.callback_url;
  created_at = now;
  updated_at = now;
}

unfoldable pub find_key : Text → List IdempotencyKey → Option ℕ
find_key k [] = none
find_key k (r ∷ rows) = if text_eq r.idempotency_key k then some r.job_id else find_key k rows

-- `none` is a violation of the primary key.
unfoldable pub insert_job : NewJob → ℕ → ℕ → Database → Option Database
unfolding find_job
insert_job n id now db = elim (find_job id db.jobs) [
  | none ↦ some (record db { jobs = new_job n id now ∷ db.jobs })
  | some _ ↦ none
]

unfoldable pub insert_idempotency_key : Text → ℕ → ℕ → Database → Option Database
unfolding find_key
insert_idempotency_key k id now db = elim (find_key k db.job_idempotency) [
  | none ↦ some (record db {
    job_idempotency =
        record { idempotency_key = k; job_id = id; created_at = now } ∷ db.job_idempotency;
  })
  | some _ ↦ none
]

-- `if body.idempotency_key:` skips a key that is None or empty.
unfoldable pub insert_key_if_given : Option Text → ℕ → ℕ → Option Database → Option Database
unfolding insert_idempotency_key
insert_key_if_given key id now none = none
insert_key_if_given none id now (some db) = some db
insert_key_if_given (some []) id now (some db) = some db
insert_key_if_given (some (c ∷ k)) id now (some db) = insert_idempotency_key (c ∷ k) id now db

-- The transaction of `create_job`; `none` is the violation that rolls it back.
unfoldable pub create_job_transaction : NewJob → Option Text → ℕ → ℕ → Database → Option Database
unfolding insert_job insert_key_if_given
create_job_transaction n key id now db = insert_key_if_given key id now (insert_job n id now db)

unfoldable pub select_existing_job_id : Option Text → Database → Option ℕ
unfolding find_key
select_existing_job_id none db = none
select_existing_job_id (some k) db = find_key k db.job_idempotency

-- COUNT(*) of the group of one status.
unfoldable pub count_status : JobStatus → List Job → ℕ
count_status s [] = 0
count_status s (j ∷ js) =
    let rest = count_status s js in if status_eq j.status s then suc rest else rest

-- SELECT_METRICS: a row for each status that occurs.
abbrev pub metrics_rows : List JobStatus → List Job → List (JobStatus × ℕ)
metrics_rows [] js = []
metrics_rows (s ∷ ss) js =
    let n = count_status s js in
    let rest = metrics_rows ss js in if n == 0 then rest else (s, n) ∷ rest

unfoldable pub select_metrics : Database → List (JobStatus × ℕ)
unfolding count_status
select_metrics db =
    metrics_rows
      (JobStatus.pending ∷ JobStatus.queued ∷ JobStatus.claimed ∷ JobStatus.sent ∷ JobStatus.failed
        ∷ JobStatus.dead_lettered ∷ [])
      db.jobs

-- `$1 IS NULL OR status = $1`
abbrev pub is_wanted : Option JobStatus → Job → Bool
is_wanted none j = true
is_wanted (some s) j = status_eq j.status s

-- ORDER BY updated_at DESC
abbrev pub is_newer : Job → Job → Bool
is_newer a b = leb b.updated_at a.updated_at

unfoldable pub select_recent_jobs : Option JobStatus → ℕ → Database → List Job
unfolding sort select
select_recent_jobs status limit db = take limit (sort is_newer (select (is_wanted status) db.jobs))

abbrev pub is_dead : Job → Bool
is_dead j = status_eq j.status JobStatus.dead_lettered

abbrev pub replayed_job : ℕ → Job → Job
replayed_job now j = record (released_job now j) {
  attempt_count = 0;
  send_at = now;
  next_retry_at = none;
  error_message = none;
  failed_at = none;
}

unfoldable pub retry_dead_lettered : ℕ → ℕ → Database → Option Job × Database
unfolding update_job
retry_dead_lettered i now = update_job i is_dead (replayed_job now)

-- SELECT 1 FROM jobs WHERE id = $1
unfoldable pub exists_job : ℕ → Database → Bool
unfolding find_job
exists_job i db = elim (find_job i db.jobs) [ none ↦ false | some _ ↦ true ]
