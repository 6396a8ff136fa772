-- ===== src/Tests/Workers.antt =====
-- Workers at concrete tables.
use notify_queue.Base.{
  ℕ, ◌+◌, ◌≤◌, ◌≡◌, refl, some, [], ◌∷◌, true, Text, codes, ◌+◌, ◌*◌, ◌/◌, above, if◌then◌else◌,
  false, ◌↔◌,
}
use notify_queue.Schema.{Priority, Database, microseconds}
use notify_queue.Schema.Table.{find_job, Unique, keyed, update_rows}
use notify_queue.Settings.{defaults}
use notify_queue.Redis.Memory.{Entries, Locks, Counters, memory, zpopmin}
use notify_queue.Effects.{ok}
use notify_queue.Effects.Run.{World, run}
use notify_queue.Effects.Fine.{next}
use notify_queue.Statements.Worker.{
  mark_sent, schedule_retry, defer_to_next_window, update_heartbeat,
}
use notify_queue.Statements.Worker.Row.{Fenced, fence}
use notify_queue.Statements.Audit.{dead_letter_transaction}
use notify_queue.Lifecycle.Outcomes.{Owns, is_of, is_held_by, given_up, letter_of, postponed}
use notify_queue.Consistency.{is_some}
use notify_queue.Statements.Audit.Transaction.{dead_letter_transaction_lem}
use notify_queue.Worker.Claim.{claim_next_job}
use notify_queue.Worker.Claim.Gates.{Claims, claim_next_job-Claims}
use notify_queue.Worker.Claim.Order.{claim_next_job-high}
use notify_queue.Worker.Outcome.{handle_failure}
use notify_queue.Worker.Outcome.Jobs.{jobs_of, handle_failure-jobs}
use notify_queue.Worker.Delivery.{execute_delivery}
use notify_queue.Worker.Delivery.Jobs.{after_attempt, counted, execute_delivery-jobs}
use notify_queue.Webhooks.{fire_webhook}
use notify_queue.Webhooks.Isolation.{without_log, fire_webhook-without_log}
use notify_queue.Ratelimit.{seconds_until_next_window, hour_length}
use notify_queue.Ratelimit.Window.{seconds_until_next_window_lem}
use notify_queue.Tests.Rows.{noon, moments, queued, claimed, tables, servers}

-- Two queued jobs, in their queues.
abbrev two_queued : World Entries Locks Counters
two_queued =
    servers (queued 1 Priority.high ∷ queued 2 Priority.low ∷ [])
      ((Priority.low, 2, 5) ∷ (Priority.high, 1, 9) ∷ [])

two_queued-Unique : Unique two_queued.database.jobs
unfolding find_job
two_queued-Unique = (refl, (refl, tt))

claim_next_job-Claims_example :
    Claims 7 two_queued.database (run memory moments (claim_next_job 7 defaults) two_queued)
claim_next_job-Claims_example =
    claim_next_job-Claims memory 7 defaults moments two_queued two_queued-Unique

claim_next_job-high_example :
    let (r, w') = run memory moments (claim_next_job 7 defaults) two_queued in
    (r ≡ ok (some 1))
    × (w'.queues ≡ (zpopmin Priority.high two_queued.queues).1)
    × ((k t : ℕ)
        → memory.zscore Priority.high k two_queued.queues ≡ some t
        → (v : ℕ) × (memory.zscore Priority.high 1 two_queued.queues ≡ some v) × (v ≤ t))
unfolding find_job zpopmin
claim_next_job-high_example =
    claim_next_job-high memory 7 defaults 1 moments two_queued (queued 1 Priority.high) (λ n. refl)
      two_queued-Unique refl refl refl refl

-- Worker 8 has the job that worker 7 had.
abbrev lost : Database
lost = tables (claimed 1 8 ∷ [])

fence_example :
    ((is_some (mark_sent 1 (some 7) noon lost).0 ≡ true ↔ Owns (some 7) (claimed 1 8))
      × (is_some (mark_sent 1 (some 7) noon lost).0 ≡ false
          → (mark_sent 1 (some 7) noon lost).1 ≡ lost))
    × ((attempt next : ℕ) (error : Text)
        → Fenced
            (some 7)
            (claimed 1 8)
            lost
            (schedule_retry attempt next error 1 (some 7) noon lost))
    × ((at : ℕ) → Fenced (some 7) (claimed 1 8) lost (defer_to_next_window at 1 (some 7) noon lost))
    × ((v : ℕ) → ¬ Owns (some v) (claimed 1 8) → update_heartbeat 1 v noon lost ≡ lost)
unfolding find_job
fence_example = fence lost 1 noon (some 7) {j = claimed 1 8} (refl, tt) refl

dead_letter_transaction_lem_example :
    let (marked, db) = dead_letter_transaction (codes "down") (claimed 1 8) 5 (some 8) noon lost in
    ((claimed 1 8).worker_id ≡ some 8
      → (marked ≡ true)
        × (find_job 1 db.jobs ≡ some (given_up (codes "down") 5 noon (claimed 1 8)))
        × (db.dead_letter_queue ≡ letter_of (claimed 1 8) 5 (codes "down") noon ∷ []))
    × (¬ ((claimed 1 8).worker_id ≡ some 8)
        → dead_letter_transaction (codes "down") (claimed 1 8) 5 (some 8) noon lost ≡ (false, lost))
unfolding find_job
dead_letter_transaction_lem_example =
    dead_letter_transaction_lem (codes "down") (claimed 1 8) 5 (some 8) noon lost {j = claimed 1 8}
      (refl, tt) refl

abbrev working : World Entries Locks Counters
working = servers (claimed 1 8 ∷ queued 2 Priority.low ∷ []) []

-- The fifth attempt of five.
handle_failure-jobs_example :
    jobs_of (run memory moments (handle_failure (claimed 1 8) (codes "down") defaults) working).1
    ≡ update_rows (keyed 1 (is_of (some 8))) (given_up (codes "down") 5 noon) (jobs_of working)
handle_failure-jobs_example =
    handle_failure-jobs memory (claimed 1 8) (codes "down") defaults moments working refl refl

execute_delivery-jobs_example :
    jobs_of (run memory moments (execute_delivery 1 defaults) working).1 ≡ (
      if above 10 (counted memory (claimed 1 8) (next moments) working).0
      then update_rows
          (keyed 1 (is_held_by (some 8)))
          (postponed (noon + 4 + microseconds (seconds_until_next_window (noon + 1))) (noon + 5))
          (jobs_of working)
      else after_attempt (claimed 1 8) defaults (next (next (next moments))) (jobs_of working))
unfolding find_job
execute_delivery-jobs_example =
    execute_delivery-jobs memory 1 (claimed 1 8) defaults moments working (λ n. refl) refl

fire_webhook-without_log_example :
    without_log
      (run memory moments
        (fire_webhook 1 (some (codes "https://example.org/hook")) (codes "sent") 3)
        working).1
    ≡ without_log working
fire_webhook-without_log_example =
    fire_webhook-without_log memory 1 (some (codes "https://example.org/hook")) (codes "sent") 3
      moments working

seconds_until_next_window_lem_example :
    ((noon + 5 + microseconds (seconds_until_next_window (noon + 5))) / hour_length
      ≡ (noon + 5) / hour_length + 1)
    × (noon + 5 + microseconds (seconds_until_next_window (noon + 5))
        ≤ ((noon + 5) / hour_length + 1) * hour_length + microseconds 1)
seconds_until_next_window_lem_example = seconds_until_next_window_lem (noon + 5)
