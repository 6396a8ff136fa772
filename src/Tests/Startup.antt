-- ===== src/Tests/Startup.antt =====
-- Processes that start, are interrupted, and end.
use notify_queue.Base.{
  ℕ, Bool, List, ◌≡◌, refl, true, false, none, some, [], ◌∷◌, Text, codes, arith, if◌then◌else◌,
  leb,
}
use notify_queue.Settings.{defaults}
use notify_queue.Redis.Memory.{Entries, Locks, Counters, memory}
use notify_queue.Scheduler.{scheduler_loop}
use notify_queue.Worker.Pool.{worker_name, base_of, names_from, worker_names}
use notify_queue.Worker.Pool.Names.{HasNoDash, worker_names_apart}
use notify_queue.Startup.{Connection, Host, Outside, scheduler_main, worker_main, tasks_from}
use notify_queue.Startup.Closes.{scheduler_main_ends}
use notify_queue.Effects.Left.{commands}
use notify_queue.Startup.Gather.{behind, is_unfinished, worker_main_ends}
use notify_queue.Tests.Rows.{noon, moments, pending_job, servers}
use notify_queue.Schema.{Priority}

abbrev fresh : Host Entries Locks Counters
fresh = record {
  root = record { level = 30; handlers = []; installed = false; has_log_dir = false };
  pool = Connection.unopened;
  redis_client = Connection.unopened;
  handled = [];
  world = servers (pending_job 1 Priority.high noon ∷ []) [];
}

abbrev healthy : Outside
healthy = record {
  settings = some defaults;
  pool_connects = true;
  url_parses = true;
  client_closes = true;
  pool_closes = true;
}

-- Interrupted at its third command.
scheduler_main_ends_example :
    ((scheduler_main memory healthy 1 2 moments fresh).0 ≡ (
      if leb (commands memory moments (scheduler_loop 1 defaults) fresh.world) 2
      then some tt
      else none))
    × ((scheduler_main memory healthy 1 2 moments fresh).1.redis_client ≡ Connection.closed)
    × ((scheduler_main memory healthy 1 2 moments fresh).1.pool ≡ Connection.closed)
scheduler_main_ends_example =
    scheduler_main_ends memory healthy defaults 1 2 moments fresh refl refl refl refl refl

-- The UUIDs of the workers.
abbrev hex_digits : ℕ → Text
hex_digits i = codes "0123456789abcdef0123456789abcdef"

abbrev one_round : ℕ → List (List Bool)
one_round i = [] ∷ []

worker_main_ends_example :
    let tasks =
      tasks_from memory
        (λ t. 7)
        one_round
        defaults
        0
        (worker_names (codes "web-1") 42 hex_digits defaults) in
    let unfinished =
      is_unfinished memory (behind memory (0 ∷ 1 ∷ 0 ∷ []) moments tasks fresh.world).0 in
    let (r, h') =
      worker_main memory healthy
        (codes "web-1")
        42
        hex_digits
        (λ t. 7)
        one_round
        (0 ∷ 1 ∷ 0 ∷ [])
        moments
        fresh in
    (r ≡ (if unfinished then none else some tt))
    × (h'.redis_client ≡ (if unfinished then Connection.opened else Connection.closed))
    × (h'.pool ≡ (if unfinished then Connection.opened else Connection.closed))
worker_main_ends_example =
    worker_main_ends memory healthy defaults (codes "web-1") 42 hex_digits (λ t. 7) one_round
      (0 ∷ 1 ∷ 0 ∷ []) moments fresh refl refl refl refl refl

no_dash : HasNoDash (hex_digits 0)
no_dash = ground arith

worker_names_apart_example :
    (codes "web-1" ≡ codes "web-1") × (◌≡◌ {A = ℕ} 42 42) × (◌≡◌ {A = ℕ} 3 3)
unfolding worker_names names_from
worker_names_apart_example =
    worker_names_apart (codes "web-1") (codes "web-1") 42 42 hex_digits hex_digits defaults defaults
      3 3 {name = worker_name (base_of (codes "web-1") 42) 3 (hex_digits 3)} (λ i. no_dash)
      (λ i. no_dash) refl refl
