-- ===== src/Worker/Delivery/Jobs.antt =====
-- What `execute_delivery` of src/notify_queue/worker/delivery.py does to the table of jobs.
use notify_queue.Base.{
  ℕ, suc, ◌+◌, ◌*◌, ◌^◌, ◌≡◌, ap, ◌∙◌, Bool, true, false, some, List, Text, ℤ, if◌then◌else◌, ltb,
  leb, above, inl, inr, Bool-cases,
}
use notify_queue.Schema.{Job, microseconds}
use notify_queue.Schema.Table.{find_job, keyed, update_rows}
use notify_queue.Settings.{Settings}
use notify_queue.Redis.{Redis}
use notify_queue.Statements.Worker.{fetch_job}
use notify_queue.Effects.{Command, pure, await, ◌>>=◌, ◌>>◌}
use notify_queue.Effects.Run.{Moment, World, run, perform}
use notify_queue.Effects.Fine.{AllFine, next, run-call}
use notify_queue.Ratelimit.{window_key, window_ttl, seconds_until_next_window, incr_with_ttl}
use notify_queue.Ratelimit.Check.{check_rate_limit}
use notify_queue.Worker.Outcome.{handle_success, handle_failure}
use notify_queue.Worker.Outcome.Jobs.{
  jobs_of, handle_success-jobs, handle_failure-jobs, defer_job-jobs,
}
use notify_queue.Worker.Delivery.{
  failure_text, attempt_delivery, deliver_if_allowed, deliver_fetched, execute_delivery,
}
use notify_queue.Lifecycle.Outcomes.{
  is_held_by, delivered_at, retry_due, postponed, is_of, given_up,
}

-- The table after a failed delivery, its first command at the moment `s 0`.
abbrev pub after_failure : Job → Text → Settings → (ℕ → Moment) → List Job → List Job
after_failure job error settings s jobs =
    if leb job.max_attempts (job.attempt_count + 1)
    then update_rows (keyed job.id (is_of job.worker_id))
        (given_up error (job.attempt_count + 1) (s 0).now) jobs
    else update_rows (keyed job.id (is_held_by job.worker_id))
        (retry_due (job.attempt_count + 1)
          ((s 0).now + settings.base_retry_delay * 2 ^ job.attempt_count) error (s 1).now)
        jobs

-- The table after a draw at `s 0`.
abbrev pub after_attempt : Job → Settings → (ℕ → Moment) → List Job → List Job
after_attempt job settings s jobs =
    if ltb (s 0).draw settings.delivery_failure_rate
    then after_failure job (failure_text job) settings (next s) jobs
    else update_rows (keyed job.id (is_held_by job.worker_id)) (delivered_at (s 1).now) jobs

module _ {Q L C : Type 0} (redis : Redis Q L C) where
  attempt_delivery-jobs :
      (job : Job) (settings : Settings) (s : ℕ → Moment) (w : World Q L C)
      → AllFine s
      → jobs_of (run redis s (attempt_delivery job settings) w).1
        ≡ after_attempt job settings s (jobs_of w)
  unfolding attempt_delivery perform
  attempt_delivery-jobs job settings s w h =
      ap (λ r. jobs_of r.1) (run-call redis s Command.random _ w (h 0)) ∙ branch
    where
      fails : Bool
      fails = ltb (s 0).draw settings.delivery_failure_rate

      branch :
          jobs_of
            (run redis
              (next s)
              (if fails
                then handle_failure job (failure_text job) settings
                else handle_success job settings)
              w).1
          ≡ after_attempt job settings s (jobs_of w)
      branch = elim (Bool-cases fails) [
        | inl e ↦
            rw e (handle_failure-jobs redis job (failure_text job) settings (next s) w (h 1) (h 2))
        | inr e ↦ rw e (handle_success-jobs redis job settings (next s) w (h 1))
      ]

  -- The count that this delivery takes in its window, and the counters after it.
  abbrev pub counted : Job → (ℕ → Moment) → World Q L C → ℤ × C
  counted job s w =
      incr_with_ttl redis (window_key job.recipient (s 0).now) window_ttl (s 1).now w.counters

  deliver-jobs :
      (job : Job) (settings : Settings) (s : ℕ → Moment) (w : World Q L C)
      → AllFine s
      → jobs_of (run redis s (deliver_fetched settings (some job)) w).1 ≡ (
          if above settings.rate_limit_per_hour (counted job s w).0
          then update_rows
              (keyed job.id (is_held_by job.worker_id))
              (postponed ((s 3).now + microseconds (seconds_until_next_window (s 0).now)) (s 4).now)
              (jobs_of w)
          else after_attempt job settings (next (next s)) (jobs_of w))
  unfolding deliver_fetched perform check_rate_limit
  deliver-jobs job settings s w h =
      ap (λ r. jobs_of r.1) (run-call redis s Command.read_clock _ w (h 0))
      ∙ ap (λ r. jobs_of r.1)
          (run-call redis (next s)
            (Command.incr_with_ttl (window_key job.recipient (s 0).now) window_ttl) _ w (h 1))
      ∙ branch
    where
      key : Text
      key = window_key job.recipient (s 0).now

      w' : World Q L C
      w' = record w { counters = (counted job s w).1 }

      over : Bool
      over = above settings.rate_limit_per_hour (counted job s w).0

      branch :
          jobs_of
            (run redis
              (next (next s))
              ((if over
                  then await (Command.decr key) >> pure (false, seconds_until_next_window (s 0).now)
                  else pure (true, 0))
                >>= deliver_if_allowed job settings)
              w').1
          ≡ (if over
              then update_rows
                  (keyed job.id (is_held_by job.worker_id))
                  (postponed
                    ((s 3).now + microseconds (seconds_until_next_window (s 0).now))
                    (s 4).now)
                  (jobs_of w)
              else after_attempt job settings (next (next s)) (jobs_of w))
      branch = elim (Bool-cases over) [
        | inl e ↦ rw e (
            ap (λ r. jobs_of r.1) (run-call redis (next (next s)) (Command.decr key) _ w' (h 2))
            ∙ defer_job-jobs redis job (seconds_until_next_window (s 0).now) (next (next (next s)))
                _ (h 3) (h 4))
        | inr e ↦
            rw e (attempt_delivery-jobs job settings (next (next s)) w' (λ n. h (suc (suc n))))
      ]

  -- One whole delivery of a job that is in the table, with nothing else running and nothing failing. If
  -- the recipient's count for this hour is above the limit, the job is pending again and due in the next
  -- window, its attempts untouched. If not, a draw below the failure rate makes it pending with one
  -- attempt more, due base * 2 ^ (attempts so far) later, or dead-letters it on its last attempt, and any
  -- other draw marks it sent. Only the row with this id changes: on its last attempt if it still names
  -- the worker of the row as it was fetched, and else if it is also claimed.
  pub execute_delivery-jobs :
      (i : ℕ) (job : Job) (settings : Settings) (s : ℕ → Moment) (w : World Q L C)
      → AllFine s
      → find_job i (jobs_of w) ≡ some job
      → jobs_of (run redis s (execute_delivery i settings) w).1 ≡ (
          if above settings.rate_limit_per_hour (counted job (next s) w).0
          then update_rows
              (keyed job.id (is_held_by job.worker_id))
              (postponed ((s 4).now + microseconds (seconds_until_next_window (s 1).now)) (s 5).now)
              (jobs_of w)
          else after_attempt job settings (next (next (next s))) (jobs_of w))
  unfolding execute_delivery perform fetch_job
  execute_delivery-jobs i job settings s w h e =
      ap (λ r. jobs_of r.1) (run-call redis s (Command.fetch_job i) _ w (h 0))
      ∙ ap (λ o. jobs_of (run redis (next s) (deliver_fetched settings o) w).1) e
      ∙ deliver-jobs job settings (next s) w (λ n. h (suc n))
