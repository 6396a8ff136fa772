-- ===== src/Statements/Scheduler.antt =====
-- The statements of src/notify_queue/scheduler/scheduler.py.
pub mod Batch
pub mod Least
use notify_queue.Base.{
  ℕ, ◌+◌, Bool, false, not, ◌&&◌, ◌||◌, Option, none, some, List, Text, codes, ◌==◌, ltb, leb, take,
  select, any,
}
use notify_queue.Base.Sort.{sort}
use notify_queue.Schema.{Job, JobStatus, priority_rank, status_eq, Database}
use notify_queue.Schema.Table.{update_where}
use notify_queue.Statements.Worker.{released_job}

unfoldable pub update_jobs : (Job → Bool) → (Job → Job) → Database → List Job × Database
unfolding update_where
update_jobs p f db = let (rows, js) = update_where p f db.jobs in (rows, record db { jobs = js })

-- Pending, due within the lookahead, and not locked by another transaction.
abbrev pub is_due : ℕ → (ℕ → Bool) → ℕ → Job → Bool
is_due lookahead locked now j =
    status_eq j.status JobStatus.pending && (leb j.send_at (now + lookahead) && not (locked j.id))

-- ORDER BY priority ASC, send_at ASC
abbrev pub promoted_before : Job → Job → Bool
promoted_before a b =
    ltb (priority_rank a.priority) (priority_rank b.priority)
    || (priority_rank a.priority == priority_rank b.priority && leb a.send_at b.send_at)

-- The subquery of PROMOTE_DUE_JOBS.
unfoldable pub due_batch : ℕ → ℕ → (ℕ → Bool) → ℕ → Database → List Job
unfolding sort select
due_batch lookahead limit locked now db =
    take limit (sort promoted_before (select (is_due lookahead locked now) db.jobs))

-- id IN (…)
abbrev pub is_among : List Job → Job → Bool
is_among batch j = any (λ b. b.id == j.id) batch

abbrev pub queued_job : ℕ → Job → Job
queued_job now j = record j { status = JobStatus.queued; updated_at = now }

unfoldable pub promote_due : ℕ → ℕ → (ℕ → Bool) → ℕ → Database → List Job × Database
unfolding due_batch update_jobs any
promote_due lookahead limit locked now db =
    update_jobs (is_among (due_batch lookahead limit locked now db)) (queued_job now) db

-- `stamp < NOW() - make_interval(secs => $1)`, with no subtraction; NULL does not pass.
abbrev pub is_older : ℕ → ℕ → Option ℕ → Bool
is_older age now none = false
is_older age now (some stamp) = ltb (stamp + age) now

abbrev pub is_stale_claim : ℕ → ℕ → Job → Bool
is_stale_claim timeout now j =
    status_eq j.status JobStatus.claimed && is_older timeout now j.heartbeat_at

abbrev pub worker_died : Text
worker_died = codes "worker died mid-processing (heartbeat timeout)"

abbrev pub recovered_job : ℕ → Job → Job
recovered_job now j = record (released_job now j) {
  attempt_count = j.attempt_count + 1;
  error_message = some worker_died;
}

unfoldable pub recover_stale_claimed : ℕ → ℕ → Database → List Job × Database
unfolding update_jobs
recover_stale_claimed timeout now = update_jobs (is_stale_claim timeout now) (recovered_job now)

abbrev pub is_stale_queued : ℕ → ℕ → Job → Bool
is_stale_queued age now j =
    status_eq j.status JobStatus.queued && is_older age now (some j.updated_at)

unfoldable pub requeue_stale_queued : ℕ → ℕ → ℕ → Database → List Job
unfolding select
requeue_stale_queued age limit now db = take limit (select (is_stale_queued age now) db.jobs)
