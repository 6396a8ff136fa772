-- ===== src/Api.antt =====
-- The handlers of src/notify_queue/api/routes.py that read or change the tables. A response holds the
-- values that the source puts into its JSON, before they are printed.
pub mod Create
pub mod Recent
pub mod Metrics
pub mod Replay
use notify_queue.Base.{
  ℕ, Bool, Option, none, some, List, [], ◌∷◌, map, if◌then◌else◌, Text, leb, ◌&&◌,
}
use notify_queue.Schema.{Job, Channel, Priority, JobStatus, status_eq}
use notify_queue.Settings.{Settings}
use notify_queue.Models.{JobCreate, validate, resolve_send_at}
use notify_queue.Effects.{
  Error, unique_violation, connection_error, client_error, type_error, Command, Program, pure,
  raise, ◌>>=◌, catch, await,
}
use notify_queue.Statements.Api.{NewJob}

pub data Created : Type 0 where
  created : ℕ → JobStatus → ℕ → Created
  duplicate_job : Option ℕ → Created
  unprocessable : Created

abbrev pub job_row : JobCreate → Settings → ℕ → NewJob
job_row body settings send_at = record {
  recipient = body.recipient;
  channel = body.channel;
  payload = body.payload;
  send_at = send_at;
  priority = body.priority;
  max_attempts = settings.max_attempts;
  callback_url = body.callback_url;
}

-- `except asyncpg.UniqueViolationError`; any other exception goes on.
unfoldable pub on_violation : Option Text → Error → Program Created
on_violation key unique_violation = do
  existing ← await (Command.select_existing_job_id key)
  pure (duplicate_job existing)
on_violation key connection_error = raise connection_error
on_violation key client_error = raise client_error
on_violation key type_error = raise type_error

unfoldable pub create_job : JobCreate → Settings → Program Created
unfolding on_violation
create_job body settings = do
  now ← await Command.read_clock
  let send_at = resolve_send_at body.send_at body.delay_seconds now
  catch
      (await (Command.create_job_transaction (job_row body settings send_at) body.idempotency_key)
        >>= λ job. pure (created job.id job.status job.send_at))
      (on_violation body.idempotency_key)

create_if_valid : Settings → Option JobCreate → Program Created
unfolding create_job
create_if_valid settings none = pure unprocessable
create_if_valid settings (some body) = create_job body settings

-- The request, validated before the handler runs.
unfoldable pub post_jobs : JobCreate → Settings → Program Created
unfolding create_if_valid
post_jobs body settings = create_if_valid settings (validate body)

pub data Answer (A : Type 0) : Type 0 where
  success : A → Answer A
  not_found conflict : Answer A

pub record StatusView : Type 0 where
  pub job_id : ℕ
  pub status : JobStatus
  pub attempt_count : ℕ
  pub sent_at : Option ℕ
  pub error_message : Option Text

abbrev pub status_view : Job → StatusView
status_view row = record {
  job_id = row.id;
  status = row.status;
  attempt_count = row.attempt_count;
  sent_at = row.sent_at;
  error_message = row.error_message;
}

abbrev pub found_status : Option Job → Answer StatusView
found_status none = not_found
found_status (some row) = success (status_view row)

unfoldable pub job_status : ℕ → Program (Answer StatusView)
job_status job_id = do row ← await (Command.select_job job_id); pure (found_status row)

abbrev pub job_statuses : List JobStatus
job_statuses =
    JobStatus.pending ∷ JobStatus.queued ∷ JobStatus.claimed ∷ JobStatus.sent ∷ JobStatus.failed
    ∷ JobStatus.dead_lettered ∷ []

-- A `dict` of counts, whose keys are the statuses.
unfoldable pub put_count : List (JobStatus × ℕ) → JobStatus × ℕ → List (JobStatus × ℕ)
put_count [] row = row ∷ []
put_count ((s, n) ∷ counts) row =
    if status_eq s row.0 then row ∷ counts else (s, n) ∷ put_count counts row

unfoldable pub update_counts : List (JobStatus × ℕ) → List (JobStatus × ℕ) → List (JobStatus × ℕ)
unfolding put_count
update_counts counts [] = counts
update_counts counts (row ∷ rows) = update_counts (put_count counts row) rows

abbrev pub no_counts : List (JobStatus × ℕ)
no_counts = map (λ s. (s, 0)) job_statuses

unfoldable pub metrics : Program (List (JobStatus × ℕ))
unfolding update_counts
metrics = do rows ← await Command.select_metrics; pure (update_counts no_counts rows)

pub record JobView : Type 0 where
  pub id : ℕ
  pub recipient : Text
  pub channel : Channel
  pub priority : Priority
  pub status : JobStatus
  pub attempt_count : ℕ
  pub max_attempts : ℕ
  pub send_at : ℕ
  pub sent_at : Option ℕ
  pub error_message : Option Text
  pub updated_at : ℕ

-- `_serialize_job`
abbrev pub serialize_job : Job → JobView
serialize_job row = record {
  id = row.id;
  recipient = row.recipient;
  channel = row.channel;
  priority = row.priority;
  status = row.status;
  attempt_count = row.attempt_count;
  max_attempts = row.max_attempts;
  send_at = row.send_at;
  sent_at = row.sent_at;
  error_message = row.error_message;
  updated_at = row.updated_at;
}

unfoldable pub list_jobs : Option JobStatus → ℕ → Program (List JobView)
list_jobs status limit = do
  rows ← await (Command.select_recent_jobs status limit)
  pure (map serialize_job rows)

-- `Query(default=50, ge=1, le=200)`
abbrev pub is_limit : ℕ → Bool
is_limit limit = leb 1 limit && leb limit 200

-- The request, its limit checked before the handler runs; `none` is a validation error.
unfoldable pub get_jobs : Option JobStatus → Option ℕ → Program (Option (List JobView))
unfolding list_jobs
get_jobs status none = list_jobs status 50 >>= λ jobs. pure (some jobs)
get_jobs status (some limit) =
    if is_limit limit then (list_jobs status limit >>= λ jobs. pure (some jobs)) else pure none

unfoldable pub unreplayed : Bool → Answer (ℕ × JobStatus)
unreplayed exists = if exists then conflict else not_found

unfoldable pub after_replay : ℕ → Option Job → Program (Answer (ℕ × JobStatus))
unfolding unreplayed
after_replay job_id none = do
  exists ← await (Command.select_exists job_id)
  pure (unreplayed exists)
after_replay job_id (some _) = pure (success (job_id, JobStatus.pending))

unfoldable pub retry_dead_lettered_job : ℕ → Program (Answer (ℕ × JobStatus))
unfolding after_replay
retry_dead_lettered_job job_id = await (Command.retry_dead_lettered job_id) >>= after_replay job_id
