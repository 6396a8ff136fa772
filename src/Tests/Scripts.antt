-- ===== src/Tests/Scripts.antt =====
-- The scripts, the logging and the keys of the rate limit at concrete inputs.
use notify_queue.Base.{
  ℕ, ◌+◌, ◌/◌, ◌≤◌, ◌≡◌, ◌↔◌, refl, [], ◌∷◌, ◌++◌, false, codes, arith, take, length, All, select,
}
use notify_queue.Schema.{Priority}
use notify_queue.Redis.Memory.{Entries, Locks, Counters, memory}
use notify_queue.Effects.{ok}
use notify_queue.Effects.Run.{World, run}
use notify_queue.Ratelimit.{hour_length, window_key}
use notify_queue.Ratelimit.Key.{window_key_inj}
use notify_queue.Logs.{Target, Root}
use notify_queue.Logs.Setup.{shown_by, setup_all, last_level, IsTagged, setup_logging_once}
use notify_queue.Simulation.{split_pending}
use notify_queue.Simulation.Pending.{pending_rows, split_pending_limit}
use notify_queue.Simulation.Watch.{watch}
use notify_queue.Simulation.Watch.Ends.{Ended, watch_ends}
use notify_queue.Simulation.Watch.Books.{IsReport, watch-IsReport}
use notify_queue.Tests.Rows.{noon, moments, pending_job, queued, servers}
use notify_queue.Schema.{JobStatus}
use notify_queue.Simulation.Watch.{Counts, drained}
use notify_queue.Logs.{Target}
use notify_queue.Api.{metrics}
use notify_queue.Effects.Run.{execute, perform}
use notify_queue.Statements.Api.{select_metrics, select_recent_jobs}

window_key_inj_example :
    (window_key (codes "ann") noon ≡ window_key (codes "ann") (noon + 5))
    ↔ ((codes "ann" ≡ codes "ann") × (noon / hour_length ≡ (noon + 5) / hour_length))
window_key_inj_example =
    window_key_inj (codes "ann") (codes "ann") noon (noon + 5) (omega arith) (omega arith)
      (omega arith) (omega arith)

-- A framework has put a handler of its own on the root logger.
abbrev framework : Root
framework = record {
  level = 30;
  handlers = record { target = Target.foreign 1; filters = []; format = codes "%(message)s" } ∷ [];
  installed = false;
  has_log_dir = false;
}

setup_logging_once_example :
    let root =
      setup_all
        ((codes "worker", 20, codes "app.log") ∷ (codes "api", 10, codes "b.log") ∷ [])
        framework in
    (root.handlers
      ≡ shown_by (codes "worker") framework.handlers
        ++ record {
          target = Target.rotating_file (codes "app.log") 5_242_880 3;
          filters = codes "worker" ∷ [];
          format = codes "%(asctime)s [%(component)s] %(name)s %(levelname)s %(message)s";
        }
          ∷ [])
    × All (IsTagged (codes "worker")) root.handlers
    × (root.level ≡ last_level ((codes "api", 10, codes "b.log") ∷ []) 20)
setup_logging_once_example =
    setup_logging_once (codes "worker") 20 (codes "app.log") ((codes "api", 10, codes "b.log") ∷ [])
      framework refl

-- One job is due, one deferred, and one queued.
abbrev watched : World Entries Locks Counters
watched =
    servers
      (pending_job 1 Priority.high noon
        ∷ pending_job 2 Priority.low (noon + 3_600_000_000)
        ∷ queued 3 Priority.low
        ∷ [])
      []

split_pending_limit_example :
    (p : ℕ × ℕ) × (run memory moments split_pending watched ≡ (ok p, watched))
    × (p.0 + p.1 ≡ length (take 200 (pending_rows watched.database.jobs)))
    × (p.0 + p.1 ≤ 200)
split_pending_limit_example = split_pending_limit memory moments watched (λ n. refl)

watched_few : length (pending_rows watched.database.jobs) ≤ 200
unfolding select
watched_few = omega arith

watch_ends_example : Ended (run memory moments (watch 4 (noon + 7) 2_000_000) watched).0
watch_ends_example =
    watch_ends memory 1 4 (noon + 7) 2_000_000 moments watched (omega arith) (omega arith)

-- One job is sent, and one deferred.
abbrev quiet : World Entries Locks Counters
quiet =
    servers
      (record (queued 1 Priority.high) { status = JobStatus.sent }
        ∷ pending_job 2 Priority.low (noon + 3_600_000_000)
        ∷ [])
      []

quiet_few : length (pending_rows quiet.database.jobs) ≤ 200
unfolding select
quiet_few = omega arith

-- The watch of these finds them drained, with the one deferred.
quiet_drained :
    (c : Counts) × ((run memory moments (watch 4 (noon + 7) 2_000_000) quiet).0 ≡ ok (drained c 1))
unfolding run watch metrics execute perform select_metrics select_recent_jobs
quiet_drained = (_, refl)

watch-IsReport_example :
    IsReport quiet.database.jobs (run memory moments (watch 4 (noon + 7) 2_000_000) quiet).0
watch-IsReport_example =
    watch-IsReport memory quiet quiet_few 4 (noon + 7) 2_000_000 moments (λ n. refl)
