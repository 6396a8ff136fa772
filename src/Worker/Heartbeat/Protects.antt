-- ===== src/Worker/Heartbeat/Protects.antt =====
-- UPDATE_HEARTBEAT of src/notify_queue/worker/heartbeat.py before RECOVER_STALE_CLAIMED.
use notify_queue.Base.{ℕ, ◌+◌, ◌≡◌, refl, ap, ◌∙◌, true, some, if◌then◌else◌, ltb, arith}
use notify_queue.Schema.{Job, Database}
use notify_queue.Schema.Table.{find_job, IsRow, keyed, updated, find_job-update_rows}
use notify_queue.Statements.Worker.{is_owned, beaten_job, update_heartbeat, update_job}
use notify_queue.Statements.Scheduler.{is_stale_claim, recovered_job, recover_stale_claimed}

-- The beat of a worker that owns the job holds the next recovery off for the timeout, and no longer:
-- a recovery takes the job exactly if the timeout has passed since the beat, and else leaves the row
-- that the beat has left.
pub heartbeat_protects :
    (db : Database) (job : Job) (worker t timeout now : ℕ)
    → IsRow db.jobs job
    → is_owned (some worker) job ≡ true
    → find_job job.id
        (recover_stale_claimed timeout now (update_heartbeat job.id worker t db)).1.jobs
      ≡ some
          (if ltb (t + timeout) now then recovered_job now (beaten_job t job) else beaten_job t job)
unfolding recover_stale_claimed update_heartbeat update_job
heartbeat_protects db job worker t timeout now row owned =
    find_job-update_rows (is_stale_claim timeout now) (recovered_job now) (λ j. refl) job.id _
    ∙ ap (updated (is_stale_claim timeout now) (recovered_job now)) (
        find_job-update_rows (keyed job.id (is_owned (some worker))) (beaten_job t) (λ j. refl)
          job.id db.jobs
        ∙ ap (updated (keyed job.id (is_owned (some worker))) (beaten_job t)) row)
    ∙ ground (arith, owned)
