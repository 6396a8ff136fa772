-- ===== src/Simulation/Watch/Balanced.antt =====
-- The verdict of `run` of scripts/simulate.py.
use notify_queue.Base.{ℕ, ◌+◌, ◌≤◌, ◌≡◌, ap, List, map, arith, length, ltb, if◌then◌else◌}
use notify_queue.Schema.{Job, JobStatus}
use notify_queue.Effects.{ok, pure}
use notify_queue.Statements.Api.{count_status}
use notify_queue.Api.{job_statuses}
use notify_queue.Api.Metrics.{sum_counts}
use notify_queue.Simulation.{Simulation, total}
use notify_queue.Simulation.Watch.{Counts, count_of, drained, balanced, failed, verify}
use notify_queue.Simulation.Watch.Books.{IsReport}

abbrev pub counts_in : List Job → Counts
counts_in jobs = map (λ t. (t, count_status t jobs)) job_statuses

-- No false alarm: if the watch reports rightly that the queue is drained, no job has the status
-- `failed`, and the table has grown by at least the jobs that the simulation has submitted since the
-- metrics of its baseline, then the books balance.
pub verify-balanced :
    (sim : Simulation) (before after : List Job) (deferred : ℕ)
    → IsReport after (ok (drained (counts_in after) deferred))
    → count_status JobStatus.failed after ≡ 0
    → length before + total sim ≤ length after
    → verify sim (counts_in before) (drained (counts_in after) deferred) ≡ pure balanced
unfolding verify count_of
verify-balanced sim before after deferred (_, _, _, books) none_failed grown =
    let counted = sum_counts before in ap pure (in_balance _ _ (omega arith))
  where
    in_balance :
        (accounted submitted : ℕ)
        → submitted ≤ accounted
        → (if ltb accounted submitted then failed else balanced) ≡ balanced
    in_balance accounted submitted h = ground arith
