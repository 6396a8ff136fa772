-- ===== src/Tests/Schedulers.antt =====
-- Sweeps of the scheduler, and a window of the rate limit.
use notify_queue.Base.{
  leb, ℕ, ◌+◌, ◌≤◌, ◌≡◌, refl, none, some, List, [], ◌∷◌, false, true, Text, codes, arith, pos, any,
  select, text_eq,
}
use notify_queue.Schema.{Priority, Job}
use notify_queue.Schema.Table.{find_job, Unique}
use notify_queue.Settings.{Settings, defaults}
use notify_queue.Redis.Memory.{Entries, Locks, Counters, memory}
use notify_queue.Effects.Run.{Moment, World, run, execute, perform}
use notify_queue.Statements.Scheduler.{is_among}
use notify_queue.Scheduler.{priority_score, promote_due_jobs, requeue_stale_queued_jobs}
use notify_queue.Scheduler.Promote.{promoted, promote_due_jobs-row}
use notify_queue.Scheduler.Sweeps.{requeue_rescues, requeue_starves}
use notify_queue.Ratelimit.{value_of, window_key, incr_with_ttl}
use notify_queue.Ratelimit.Check.{check_rate_limit}
use notify_queue.Effects.Left.{drive}
use notify_queue.Ratelimit.Admission.{
  Check, tally, is_admitted, is_open, hour_key, opened, comes, goes_on, admitted-le,
}
use notify_queue.Tests.Rows.{noon, moments, pending_job, queued, servers}
use notify_queue.Lifecycle.Outcomes.{waiting}

abbrev two_pending : List Job
two_pending = pending_job 1 Priority.low noon ∷ pending_job 2 Priority.high noon ∷ []

two_pending-Unique : Unique two_pending
unfolding find_job
two_pending-Unique = (refl, (refl, tt))

abbrev one_a_time : Settings
one_a_time = record defaults { scheduler_batch_size = 1 }

promote_due_jobs-row_example :
    let w' = (run memory moments (promote_due_jobs one_a_time) (servers two_pending [])).1 in
    (is_among
          (promoted one_a_time (moments 0) (servers two_pending []))
          (pending_job 2 Priority.high noon)
        ≡ true
      → (find_job 2 w'.database.jobs ≡ some (waiting noon (pending_job 2 Priority.high noon)))
        × (memory.zscore Priority.high 2 w'.queues ≡ some (priority_score Priority.high noon)))
    × (is_among
            (promoted one_a_time (moments 0) (servers two_pending []))
            (pending_job 2 Priority.high noon)
          ≡ false
        → find_job 2 w'.database.jobs ≡ some (pending_job 2 Priority.high noon))
unfolding find_job
promote_due_jobs-row_example =
    promote_due_jobs-row memory one_a_time moments (servers two_pending [])
      (pending_job 2 Priority.high noon) refl refl two_pending-Unique refl

-- Two jobs that are queued in the table, of which Redis knows nothing.
abbrev lost : World Entries Locks Counters
lost = servers (queued 1 Priority.low ∷ queued 2 Priority.high ∷ []) []

lost-Unique : Unique lost.database.jobs
unfolding find_job
lost-Unique = (refl, (refl, tt))

requeue_rescues_example :
    (memory.zscore Priority.high 2
        (run memory moments (requeue_stale_queued_jobs defaults) lost).1.queues
      ≡ some (priority_score Priority.high noon))
    × ((run memory moments (requeue_stale_queued_jobs defaults) lost).1.database ≡ lost.database)
unfolding find_job select
requeue_rescues_example =
    requeue_rescues memory defaults moments lost (queued 2 Priority.high) refl refl lost-Unique refl
      refl (omega arith)

requeue_starves_example :
    (memory.zscore Priority.high 2
        (run memory moments (requeue_stale_queued_jobs one_a_time) lost).1.queues
      ≡ none)
    × ((run memory moments (requeue_stale_queued_jobs one_a_time) lost).1.database ≡ lost.database)
unfolding select any
requeue_starves_example =
    requeue_starves memory one_a_time moments lost (queued 1 Priority.low ∷ [])
      (queued 2 Priority.high ∷ []) (queued 2 Priority.high) refl refl refl (omega arith) refl

-- The scores of two low jobs that are due a microsecond apart are one float; of two high ones, two.
scores_meet :
    (priority_score Priority.low noon ≡ priority_score Priority.low (noon + 1))
    × (leb (priority_score Priority.high (noon + 1)) (priority_score Priority.high noon) ≡ false)
unfolding priority_score
scores_meet = (refl, refl)

abbrev ann : Text
ann = codes "ann@example.org"

-- With a limit of one, the second check of the hour is refused, and undoes its count.
abbrev first_check : Check × World Entries Locks Counters
first_check = drive memory 2 moments (check_rate_limit ann 1) (servers [] [])

abbrev later : ℕ → Moment
later n = moments (n + 10)

abbrev second_check : Check × World Entries Locks Counters
second_check = drive memory 2 later (check_rate_limit ann 1) first_check.1

abbrev undone : Check × World Entries Locks Counters
undone = drive memory 1 (λ n. moments (n + 20)) second_check.0 second_check.1

undone_books :
    (tally is_admitted (undone.0 ∷ first_check.0 ∷ []) ≡ 1)
    × (tally is_open (second_check.0 ∷ first_check.0 ∷ []) ≡ 1)
    × (tally is_open (undone.0 ∷ first_check.0 ∷ []) ≡ 0)
unfolding drive execute perform check_rate_limit incr_with_ttl text_eq window_key
undone_books = (refl, refl, refl)

admitted-le_example :
    (tally is_admitted (undone.0 ∷ first_check.0 ∷ []) ≤ 1)
    × (value_of (memory.counter (hour_key ann 17_750_000) undone.1.counters)
        ≡ pos (
            tally is_admitted (undone.0 ∷ first_check.0 ∷ [])
            + tally is_open (undone.0 ∷ first_check.0 ∷ [])))
admitted-le_example = admitted-le memory ann 1 17_750_000 (
    goes_on second_check.0 [] (first_check.0 ∷ []) (λ n. moments (n + 20)) refl refl
      (comes later refl refl refl (comes moments refl refl refl (opened refl))))
