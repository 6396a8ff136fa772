-- ===== src/System/Journey.antt =====
-- The journey of one job through the parts: promoted by a scheduler, claimed by a worker, delivered.
use notify_queue.Base.{
  ℕ, ◌+◌, ◌*◌, ◌^◌, ◌≡◌, refl, sym, subst, ap, ◌∙◌, Bool, true, false, some, List, arith,
  if◌then◌else◌, leb, ltb, above, ◌==◌, ◌&&◌,
}
use notify_queue.Schema.{Job, Priority, microseconds}
use notify_queue.Schema.Table.{find_job, IsRow, keyed, update_rows, find_job-update_rows}
use notify_queue.Settings.{Settings}
use notify_queue.Redis.{Redis, is_held}
use notify_queue.Statements.Worker.{is_queued}
use notify_queue.Statements.Scheduler.{is_among}
use notify_queue.Effects.{ok}
use notify_queue.Effects.Run.{fine, Moment, World, run}
use notify_queue.Effects.Fine.{AllFine, next}
use notify_queue.Ratelimit.{seconds_until_next_window}
use notify_queue.Consistency.{IsConsistent}
use notify_queue.System.Safety.{run-IsConsistent}
use notify_queue.Scheduler.{promote_due_jobs}
use notify_queue.Scheduler.Promote.{promoted, promote_due_jobs-row}
use notify_queue.Worker.Claim.{claim_next_job}
use notify_queue.Worker.Claim.Gates.{Claims, claim_next_job-Claims}
use notify_queue.Worker.Claim.Order.{claim_next_job-high}
use notify_queue.Worker.Delivery.{failure_text, execute_delivery}
use notify_queue.Worker.Delivery.Jobs.{counted, after_attempt, execute_delivery-jobs}
use notify_queue.Worker.Outcome.Jobs.{jobs_of}
use notify_queue.Lifecycle.Outcomes.{
  is_held_by, delivered_at, retry_due, postponed, is_of, given_up, taken, waiting,
}

-- What an UPDATE by primary key makes of the row that it matches.
matched_row :
    (q : Job → Bool) (f : Job → Job) (js : List Job) (j : Job)
    → ((j : Job) → (f j).id ≡ j.id)
    → IsRow js j
    → q j ≡ true
    → find_job j.id (update_rows (keyed j.id q) f js) ≡ some (f j)
matched_row q f js j same row fits =
    find_job-update_rows (keyed j.id q) f same j.id js ∙ rw row (ground arith)

-- What one delivery makes of the claimed row, its commands at the moments `u`, the count at `n`.
abbrev pub delivered : Settings → (ℕ → Moment) → Bool → Job → Job
delivered settings u over job =
    if over
    then postponed ((u 4).now + microseconds (seconds_until_next_window (u 1).now)) (u 5).now job
    else if ltb (u 3).draw settings.delivery_failure_rate
    then if leb job.max_attempts (job.attempt_count + 1)
      then given_up (failure_text job) (job.attempt_count + 1) (u 4).now job
      else retry_due (job.attempt_count + 1)
          ((u 4).now + settings.base_retry_delay * 2 ^ job.attempt_count) (failure_text job)
          (u 5).now job
    else delivered_at (u 4).now job

module _ {Q L C : Type 0} (redis : Redis Q L C) (settings : Settings) where
  delivery-row :
      (job : Job) (worker : ℕ) (u : ℕ → Moment) (w : World Q L C)
      → AllFine u
      → IsRow (jobs_of w) job
      → is_held_by (some worker) job ≡ true
      → job.worker_id ≡ some worker
      → find_job job.id (jobs_of (run redis u (execute_delivery job.id settings) w).1)
        ≡ some (
            delivered settings u
              (above settings.rate_limit_per_hour (counted redis job (next u) w).0)
              job)
  delivery-row job worker u w h row owned mine =
      ap (find_job job.id) (execute_delivery-jobs redis job.id job settings u w h row)
      ∙ branch (above settings.rate_limit_per_hour (counted redis job (next u) w).0)
    where
      fits : is_held_by job.worker_id job ≡ true
      fits = subst (λ o. is_held_by o job ≡ true) (sym mine) owned

      expected : is_of job.worker_id job ≡ true
      expected = rw mine (ground arith)

      died : Job → Job
      died = given_up (failure_text job) (job.attempt_count + 1) (u 4).now

      retried : Job → Job
      retried =
          retry_due (job.attempt_count + 1)
            ((u 4).now + settings.base_retry_delay * 2 ^ job.attempt_count) (failure_text job)
            (u 5).now

      attempt :
          (fails last : Bool)
          → find_job job.id (
              if fails
              then if last
                then update_rows (keyed job.id (is_of job.worker_id)) died (jobs_of w)
                else update_rows (keyed job.id (is_held_by job.worker_id)) retried (jobs_of w)
              else update_rows
                  (keyed job.id (is_held_by job.worker_id))
                  (delivered_at (u 4).now)
                  (jobs_of w))
            ≡ some (
                if fails
                then (if last then died job else retried job)
                else delivered_at (u 4).now job)
      attempt true true =
          matched_row (is_of job.worker_id) died (jobs_of w) job (λ j. refl) row expected
      attempt true false =
          matched_row (is_held_by job.worker_id) retried (jobs_of w) job (λ j. refl) row fits
      attempt false last =
          matched_row (is_held_by job.worker_id) (delivered_at (u 4).now) (jobs_of w) job
            (λ j. refl) row fits

      branch :
          (over : Bool)
          → find_job job.id (
              if over
              then update_rows
                  (keyed job.id (is_held_by job.worker_id))
                  (postponed
                    ((u 4).now + microseconds (seconds_until_next_window (u 1).now))
                    (u 5).now)
                  (jobs_of w)
              else after_attempt job settings (next (next (next u))) (jobs_of w))
            ≡ some (delivered settings u over job)
      branch true = matched_row (is_held_by job.worker_id) _ (jobs_of w) job (λ j. refl) row fits
      branch false =
          attempt (ltb (u 3).draw settings.delivery_failure_rate)
            (leb job.max_attempts (job.attempt_count + 1))

  -- A due job of the batch, followed from the table to its outcome, nothing failing on the way. After a
  -- promotion it is queued; if it is then first in the high queue and unlocked, a worker that claims
  -- gets it; and the delivery of the claimed row ends it: deferred if its recipient's hour is full,
  -- retried or, on its last attempt, dead-lettered if the draw is below the failure rate, and sent if
  -- not. The tables are consistent before, and other tasks do not run in between.
  pub journey :
      (worker : ℕ) (s t u : ℕ → Moment) (w : World Q L C) (j : Job)
      → (s 0).fault ≡ fine
      → (s 1).fault ≡ fine
      → AllFine t
      → AllFine u
      → IsConsistent w.database
      → IsRow w.database.jobs j
      → is_among (promoted settings (s 0) w) j ≡ true
      → let w1 = (run redis s (promote_due_jobs settings) w).1 in
        (redis.zpopmin Priority.high w1.queues).0 ≡ some j.id
        → is_held (t 1).now (redis.lock j.id w1.locks) ≡ false
        → let w2 = (run redis t (claim_next_job worker settings) w1).1 in
          let w3 = (run redis u (execute_delivery j.id settings) w2).1 in
          ((run redis t (claim_next_job worker settings) w1).0 ≡ ok (some j.id))
          × (now : ℕ) × (find_job j.id w2.database.jobs
              ≡ some (taken worker now (waiting (s 0).now j)))
          × (find_job j.id w3.database.jobs
              ≡ some (
                  delivered settings u
                    (above settings.rate_limit_per_hour (counted redis j (next u) w2).0)
                    (taken worker now (waiting (s 0).now j))))
  journey worker s t u w j h h' ht hu c row due top free =
      let w1 = (run redis s (promote_due_jobs settings) w).1 in
      let w2 = (run redis t (claim_next_job worker settings) w1).1 in
      let promotion = promote_due_jobs-row redis settings s w j h h' c.unique row in
      let queued = promotion.0 due in
      let unique = (run-IsConsistent redis s (promote_due_jobs settings) w c).unique in
      let claim =
        claim_next_job-high redis worker settings j.id t w1 (waiting (s 0).now j) ht unique top
          queued.0 refl free in
      let (now, x, found, is, same) =
        subst (λ r. Claims worker w1.database (r, w2)) claim.0
          (claim_next_job-Claims redis worker settings t w1 unique) in
      let claimed =
        ap (λ db. find_job j.id db.jobs) same
        ∙ matched_row is_queued (taken worker now) w1.database.jobs (waiting (s 0).now j)
            (λ j. refl) queued.0 refl in
      (
        claim.0,
        now,
        claimed,
        delivery-row (taken worker now (waiting (s 0).now j)) worker u w2 hu claimed (own worker)
            refl,
      )
    where
      own : (n : ℕ) → (n == n && true) ≡ true
      own n = ground arith
