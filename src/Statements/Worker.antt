-- ===== src/Statements/Worker.antt =====
-- src/notify_queue/worker: CLAIM_QUEUED_JOB of claim.py, the statements of delivery.py and
-- UPDATE_HEARTBEAT of heartbeat.py.
pub mod Row
use notify_queue.Base.{ℕ, Bool, false, ◌&&◌, Option, none, some, Text, ◌==◌, first}
use notify_queue.Schema.{Job, JobStatus, status_eq, Database}
use notify_queue.Schema.Table.{keyed, find_job, update_where}

-- `a = b` in a WHERE clause: a NULL on either side does not pass.
abbrev pub sql_eq : Option ℕ → Option ℕ → Bool
sql_eq (some a) (some b) = a == b
sql_eq _ _ = false

-- UPDATE jobs … WHERE id = $i AND …, with `fetchrow` on its RETURNING clause.
unfoldable pub update_job : ℕ → (Job → Bool) → (Job → Job) → Database → Option Job × Database
unfolding update_where
update_job i q f db =
    let (rows, js) = update_where (keyed i q) f db.jobs in (first rows, record db { jobs = js })

-- The fence: `worker_id = $w AND status = 'claimed'`.
abbrev pub is_owned : Option ℕ → Job → Bool
is_owned w j = sql_eq j.worker_id w && status_eq j.status JobStatus.claimed

abbrev pub is_queued : Job → Bool
is_queued j = status_eq j.status JobStatus.queued

abbrev pub claimed_by : ℕ → ℕ → Job → Job
claimed_by w now j = record j {
  status = JobStatus.claimed;
  worker_id = some w;
  claimed_at = some now;
  heartbeat_at = some now;
  updated_at = now;
}

unfoldable pub fetch_job : ℕ → Database → Option Job
unfolding find_job
fetch_job i db = find_job i db.jobs

unfoldable pub claim_queued_job : ℕ → ℕ → ℕ → Database → Option Job × Database
unfolding update_job
claim_queued_job w i now = update_job i is_queued (claimed_by w now)

abbrev pub sent_job : ℕ → Job → Job
sent_job now j = record j { status = JobStatus.sent; sent_at = some now; updated_at = now }

unfoldable pub mark_sent : ℕ → Option ℕ → ℕ → Database → Option Job × Database
unfolding update_job
mark_sent i w now = update_job i (is_owned w) (sent_job now)

abbrev pub released_job : ℕ → Job → Job
released_job now j = record j {
  status = JobStatus.pending;
  worker_id = none;
  claimed_at = none;
  heartbeat_at = none;
  updated_at = now;
}

abbrev pub retried_job : ℕ → ℕ → Text → ℕ → Job → Job
retried_job attempt next error now j = record (released_job now j) {
  attempt_count = attempt;
  next_retry_at = some next;
  send_at = next;
  error_message = some error;
}

unfoldable pub schedule_retry : ℕ → ℕ → Text → ℕ → Option ℕ → ℕ → Database → Option Job × Database
unfolding update_job
schedule_retry attempt next error i w now =
    update_job i (is_owned w) (retried_job attempt next error now)

abbrev pub deferred_job : ℕ → ℕ → Job → Job
deferred_job at now j = record (released_job now j) { send_at = at }

unfoldable pub defer_to_next_window : ℕ → ℕ → Option ℕ → ℕ → Database → Option Job × Database
unfolding update_job
defer_to_next_window at i w now = update_job i (is_owned w) (deferred_job at now)

abbrev pub beaten_job : ℕ → Job → Job
beaten_job now j = record j { heartbeat_at = some now; updated_at = now }

unfoldable pub update_heartbeat : ℕ → ℕ → ℕ → Database → Database
unfolding update_job
update_heartbeat i w now db = (update_job i (is_owned (some w)) (beaten_job now) db).1
