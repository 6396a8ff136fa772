-- ===== src/Startup.antt =====
-- The start and the end of a process: `main` of src/notify_queue/scheduler/__main__.py and of
-- src/notify_queue/worker/__main__.py, `lifespan` in src/notify_queue/api/app.py, `create_pool` in
-- db.py and `create_redis` in redis_client.py. Settings, asyncpg, Redis and the event loop are
-- not the program's: `Outside` says what they answer.
pub mod Closes
pub mod Gather
use notify_queue.Base.{
  ℕ, zero, suc, Bool, true, false, Option, none, some, List, [], ◌∷◌, ◌+◌, any, not, Text, codes,
  if◌then◌else◌,
}
use notify_queue.Settings.{Settings}
use notify_queue.Logs.{Root, setup_logging}
use notify_queue.Redis.{Redis}
use notify_queue.Effects.{Program, pure, raise, call}
use notify_queue.Effects.Run.{Moment, World, execute}
use notify_queue.Scheduler.{scheduler_loop}
use notify_queue.Seeding.Rows.{Kind, Draw}
use notify_queue.Seeding.{Seeded, seed_main}
use notify_queue.Worker.Loop.{worker_loop}
use notify_queue.Worker.Pool.{worker_names}

pub data Connection : Type 0 where
  unopened opened closed : Connection

pub data Signal : Type 0 where
  sigint sigterm : Signal

-- A process with the servers that it works on; `handled` are the signals that set `stop`.
pub record Host (Q L C : Type 0) : Type 0 where
  pub root : Root
  pub pool : Connection
  pub redis_client : Connection
  pub handled : List Signal
  pub world : World Q L C

-- `settings` is `none` if the environment does not validate.
pub record Outside : Type 0 where
  pub settings : Option Settings
  pub pool_connects : Bool
  pub url_parses : Bool
  pub client_closes : Bool
  pub pool_closes : Bool

-- `none` is an exception.
abbrev pub Boot : (Q L C A : Type 0) → Type 0
Boot Q L C A = Host Q L C → Option A × Host Q L C

-- What follows a step, unless that has raised.
abbrev pub continue :
    {Q L C A B : Type 0} → (A → Boot Q L C B) → Option A × Host Q L C → Option B × Host Q L C
continue f (none, h) = (none, h)
continue f (some a, h) = f a h

infixl 5 ◌>>=◌ ◌>>◌
abbrev pub ◌>>=◌ : {Q L C A B : Type 0} → Boot Q L C A → (A → Boot Q L C B) → Boot Q L C B
(m >>= f) h = continue f (m h)

abbrev pub ◌>>◌ : {Q L C A B : Type 0} → Boot Q L C A → Boot Q L C B → Boot Q L C B
m >> n = m >>= λ _. n

-- `try` … `finally`: an exception of the second part takes the place of the first's.
abbrev pub try_finally : {Q L C : Type 0} → Boot Q L C Unit → Boot Q L C Unit → Boot Q L C Unit
try_finally body ended h =
    let (o, h') = body h in let (e, h'') = ended h' in (elim e [ none ↦ none | some _ ↦ o ], h'')

module _ {Q L C : Type 0} where
  -- `setup_logging(component)`, with the level INFO and the file of its defaults.
  abbrev pub set_up : Text → Boot Q L C Unit
  set_up component h =
      (some tt, record h { root = setup_logging component 20 (codes "notify_queue.log") h.root })

  abbrev pub read_settings : Outside → Boot Q L C Settings
  read_settings o h = (o.settings, h)

  unfoldable pub create_pool : Outside → Boot Q L C Unit
  create_pool o h =
      if o.pool_connects then (some tt, record h { pool = Connection.opened }) else (none, h)

  -- `redis.from_url` connects with the first command.
  unfoldable pub create_redis : Outside → Boot Q L C Unit
  create_redis o h =
      if o.url_parses then (some tt, record h { redis_client = Connection.opened }) else (none, h)

  abbrev pub handle_signals : Boot Q L C Unit
  handle_signals h = (some tt, record h { handled = Signal.sigint ∷ Signal.sigterm ∷ [] })

  -- An exception of `aclose` or of `close` leaves the connections as they are.
  abbrev pub close_client : Outside → Boot Q L C Unit
  close_client o h =
      if o.client_closes
      then (some tt, record h { redis_client = Connection.closed })
      else (none, h)

  abbrev pub close_pool : Outside → Boot Q L C Unit
  close_pool o h =
      if o.pool_closes then (some tt, record h { pool = Connection.closed }) else (none, h)

  module _ (redis : Redis Q L C) where
    -- A coroutine that an exception which no `except` takes, such as a cancellation, ends at its
    -- command number `n`, if it comes so far. Did it return?
    unfoldable pub run_until :
        ℕ → (ℕ → Moment) → Program Unit → World Q L C → Option (Unit {0}) × World Q L C
    run_until n s (pure a) w = (some tt, w)
    run_until n s (raise e) w = (none, w)
    run_until zero s (call c k) w = (none, w)
    run_until (suc n) s (call c k) w =
        let (r, w') = execute redis (s 0) c w in run_until n (λ i. s (suc i)) (k r) w'

    abbrev pub serve : ℕ → (ℕ → Moment) → Program Unit → Boot Q L C Unit
    serve n s p h = let (o, w) = run_until n s p h.world in (o, record h { world = w })

    -- `main` of the scheduler; its loop finds `stop` not set in `rounds` rounds.
    unfoldable pub scheduler_main : Outside → ℕ → ℕ → (ℕ → Moment) → Boot Q L C Unit
    unfolding create_pool create_redis run_until
    scheduler_main o rounds n s = do
      set_up (codes "scheduler")
      settings ← read_settings o
      create_pool o
      create_redis o
      handle_signals
      try_finally (serve n s (scheduler_loop rounds settings)) (close_client o >> close_pool o)

    -- One command of the task in place `t`, if it has one left.
    abbrev pub turn :
        ℕ → Moment → List (Program Unit) → World Q L C → List (Program Unit) × World Q L C
    turn t m [] w = ([], w)
    turn zero m (call c k ∷ tasks) w = let (r, w') = execute redis m c w in (k r ∷ tasks, w')
    turn zero m (p ∷ tasks) w = (p ∷ tasks, w)
    turn (suc t) m (p ∷ tasks) w = let (tasks', w') = turn t m tasks w in (p ∷ tasks', w')

    abbrev pub has_returned : Program Unit → Bool
    has_returned (pure a) = true
    has_returned _ = false

    abbrev pub has_raised : Program Unit → Bool
    has_raised (raise e) = true
    has_raised _ = false

    -- `asyncio.gather`, with the tasks in the order in which they get their turns. It raises with the
    -- first task that does, and if the turns end before the tasks, by an interruption.
    unfoldable pub gather :
        List ℕ → (ℕ → Moment) → List (Program Unit) → World Q L C → Option (Unit {0}) × World Q L C
    gather [] s tasks w = (if any (λ p. not (has_returned p)) tasks then none else some tt, w)
    gather (t ∷ turns) s tasks w =
        let (tasks', w') = turn t (s 0) tasks w in
        let rest = gather turns (λ i. s (suc i)) tasks' w' in
        if any has_raised tasks' then (none, w') else rest

    -- The tasks of `main` of the workers: one `worker_loop` for each id. `number` is how a text is
    -- counted as a worker's id, and `rounds` has the rounds of the worker in each place.
    abbrev pub tasks_from :
        (Text → ℕ) → (ℕ → List (List Bool)) → Settings → ℕ → List Text → List (Program Unit)
    tasks_from number rounds settings i [] = []
    tasks_from number rounds settings i (name ∷ names) =
        worker_loop (rounds i) (number name) settings
        ∷ tasks_from number rounds settings (i + 1) names

    abbrev pub gather_workers : List ℕ → (ℕ → Moment) → List (Program Unit) → Boot Q L C Unit
    gather_workers turns s tasks h =
        let (o, w) = gather turns s tasks h.world in (o, record h { world = w })

    -- `main` of the workers.
    unfoldable pub worker_main :
        Outside
        → Text
        → ℕ
        → (ℕ → Text)
        → (Text → ℕ)
        → (ℕ → List (List Bool))
        → List ℕ
        → (ℕ → Moment)
        → Boot Q L C Unit
    unfolding create_pool create_redis gather
    worker_main o hostname pid hexes number rounds turns s = do
      set_up (codes "worker")
      settings ← read_settings o
      create_pool o
      create_redis o
      handle_signals
      gather_workers turns s
          (tasks_from number rounds settings 0 (worker_names hostname pid hexes settings))
      close_client o
      close_pool o

abbrev pub seeded : {Q L C : Type 0} → Seeded → Boot Q L C Unit
seeded (done, db) h =
    (if done then some tt else none, record h { world = record h.world { database = db } })

-- `lifespan`: what `create_app` was given, or the settings of the environment. The API serves between
-- the two parts.
abbrev pub settings_or : Option Settings → Outside → Option Settings
settings_or none o = o.settings
settings_or (some settings) o = some settings

unfoldable pub lifespan :
    {Q L C : Type 0} → Option Settings → Outside → (Settings → Boot Q L C Unit) → Boot Q L C Unit
unfolding create_pool create_redis
lifespan given o serve_api = do
  set_up (codes "api")
  settings ← (λ h. (settings_or given o, h))
  create_pool o
  create_redis o
  serve_api settings
  close_client o
  close_pool o

-- `main` of scripts/seed.py; the counts that it logs at its end are not modelled.
unfoldable pub seeding_process :
    {Q L C : Type 0} → Outside → Bool → ℕ → ℕ → (ℕ → Draw) → Boot Q L C Unit
unfolding create_pool
seeding_process o wipe total now draws = do
  set_up (codes "seed")
  settings ← read_settings o
  create_pool o
  try_finally (λ h. seeded (seed_main wipe total now draws h.world.database) h) (close_pool o)
