-- ===== src/Startup/Gather.antt =====
-- How `main` of src/notify_queue/worker/__main__.py ends.
use notify_queue.Base.{
  ℕ, zero, suc, ◌+◌, not, any, Bool, true, false, Option, none, some, List, [], ◌∷◌, Text, ◌≡◌,
  refl, if◌then◌else◌, All,
}
use notify_queue.Settings.{Settings}
use notify_queue.Redis.{Redis}
use notify_queue.Effects.{Error, Command, Program, pure, raise, call, ◌>>=◌, catch, await}
use notify_queue.Effects.Run.{Moment, World, execute, perform}
use notify_queue.Effects.Fine.{next}
use notify_queue.Worker.Loop.{worker_round, worker_loop}
use notify_queue.Worker.Pool.{worker_names}
use notify_queue.Startup.{
  continue, close_client, close_pool, Connection, Host, Outside, create_pool, create_redis, turn,
  has_returned, has_raised, gather, tasks_from, worker_main,
}

module _ {Q L C : Type 0} (redis : Redis Q L C) where
  -- It raises nothing, whatever other tasks do to the servers between its commands.
  abbrev pub IsSafe : {A : Type 0} → Program A → Type 0
  IsSafe (pure a) = Unit
  IsSafe (raise e) = ⊥
  IsSafe (call c k) = (m : Moment) (w : World Q L C) → IsSafe (k (execute redis m c w).0)

  catch-IsSafe :
      {A : Type 0} (p : Program A) (h : Error → Program A)
      → ((e : Error) → IsSafe (h e))
      → IsSafe (catch p h)
  catch-IsSafe (pure a) h safe = tt
  catch-IsSafe (raise e) h safe = safe e
  catch-IsSafe (call c k) h safe = λ m w. catch-IsSafe (k (execute redis m c w).0) h safe

  bind-IsSafe :
      {A B : Type 0} (p : Program A) (f : A → Program B)
      → IsSafe p
      → ((a : A) → IsSafe (f a))
      → IsSafe (p >>= f)
  bind-IsSafe (pure a) f safe rest = rest a
  bind-IsSafe (raise e) f safe rest = elim safe [ ]
  bind-IsSafe (call c k) f safe rest =
      λ m w. bind-IsSafe (k (execute redis m c w).0) f (safe m w) rest

  sleep-IsSafe : (d : ℕ) → IsSafe (await (Command.sleep d))
  unfolding execute perform
  sleep-IsSafe d m w = tt

  worker_loop-IsSafe :
      (rounds : List (List Bool)) (worker_id : ℕ) (settings : Settings)
      → IsSafe (worker_loop rounds worker_id settings)
  unfolding worker_loop worker_round
  worker_loop-IsSafe [] worker_id settings = tt
  worker_loop-IsSafe (turns ∷ rounds) worker_id settings =
      bind-IsSafe (worker_round turns worker_id settings) _
        (catch-IsSafe _ (λ _. await (Command.sleep settings.error_backoff))
          (λ _. sleep-IsSafe settings.error_backoff))
        (λ _. worker_loop-IsSafe rounds worker_id settings)

  tasks_from-IsSafe :
      (number : Text → ℕ) (rounds : ℕ → List (List Bool)) (settings : Settings) (i : ℕ)
      (names : List Text)
      → All IsSafe (tasks_from redis number rounds settings i names)
  tasks_from-IsSafe number rounds settings i [] = tt
  tasks_from-IsSafe number rounds settings i (name ∷ names) = (
    worker_loop-IsSafe (rounds i) (number name) settings,
    tasks_from-IsSafe number rounds settings (i + 1) names,
  )

  turn-IsSafe :
      (t : ℕ) (m : Moment) (tasks : List (Program Unit)) (w : World Q L C)
      → All IsSafe tasks
      → All IsSafe (turn redis t m tasks w).0
  turn-IsSafe t m [] w h = tt
  turn-IsSafe zero m (pure a ∷ tasks) w h = h
  turn-IsSafe zero m (raise e ∷ tasks) w h = h
  turn-IsSafe zero m (call c k ∷ tasks) w h = (h.0 m w, h.1)
  turn-IsSafe (suc t) m (p ∷ tasks) w h = (h.0, turn-IsSafe t m tasks w h.1)

  none_raised :
      (tasks : List (Program Unit)) → All IsSafe tasks → any (has_raised redis) tasks ≡ false
  unfolding any
  none_raised [] h = refl
  none_raised (pure a ∷ tasks) h = none_raised tasks h.1
  none_raised (raise e ∷ tasks) h = elim h.0 [ ]
  none_raised (call c k ∷ tasks) h = none_raised tasks h.1

  -- The tasks and the servers behind some turns.
  abbrev pub behind :
      List ℕ → (ℕ → Moment) → List (Program Unit) → World Q L C → List (Program Unit) × World Q L C
  behind [] s tasks w = (tasks, w)
  behind (t ∷ turns) s tasks w =
      let (tasks', w') = turn redis t (s 0) tasks w in behind turns (next s) tasks' w'

  -- Has some task not come to its end?
  abbrev pub is_unfinished : List (Program Unit) → Bool
  is_unfinished = any (λ p. not (has_returned redis p))

  gather-IsSafe :
      (turns : List ℕ) (s : ℕ → Moment) (tasks : List (Program Unit)) (w : World Q L C)
      → All IsSafe tasks
      → (gather redis turns s tasks w).0
        ≡ (if is_unfinished (behind turns s tasks w).0 then none else some tt)
  unfolding gather
  gather-IsSafe [] s tasks w h = refl
  gather-IsSafe (t ∷ turns) s tasks w h =
      let safe = turn-IsSafe t (s 0) tasks w h in
      rw (none_raised (turn redis t (s 0) tasks w).0 safe) (gather-IsSafe turns (next s) _ _ safe)

  -- The end of `main`, behind its tasks.
  ends_by :
      (o : Outside) (r : Option (Unit {0})) (h : Host Q L C) (x : Bool)
      → h.redis_client ≡ Connection.opened
      → h.pool ≡ Connection.opened
      → o.client_closes ≡ true
      → o.pool_closes ≡ true
      → r ≡ (if x then none else some tt)
      → let (r', h') = continue (λ _ g. continue (λ _. close_pool o) (close_client o g)) (r, h) in
        (r' ≡ (if x then none else some tt))
        × (h'.redis_client ≡ (if x then Connection.opened else Connection.closed))
        × (h'.pool ≡ (if x then Connection.opened else Connection.closed))
  ends_by o none h true client pool client_closes pool_closes e = (refl, client, pool)
  ends_by o none h false client pool client_closes pool_closes e = absurd (cc)
  ends_by o (some u) h true client pool client_closes pool_closes e = absurd (cc)
  ends_by o (some u) h false client pool client_closes pool_closes e =
      rw client_closes (rw pool_closes (refl, refl, refl))

  -- The process of the workers, with its settings read and all connections working. However its servers
  -- fail, it ends by an exception exactly if it is interrupted before all its workers have come to
  -- their ends. Then the Redis client and the pool are left open, and else they are closed.
  pub worker_main_ends :
      (o : Outside) (settings : Settings) (hostname : Text) (pid : ℕ) (hexes : ℕ → Text)
      (number : Text → ℕ) (rounds : ℕ → List (List Bool)) (turns : List ℕ) (s : ℕ → Moment)
      (h : Host Q L C)
      → o.settings ≡ some settings
      → o.pool_connects ≡ true
      → o.url_parses ≡ true
      → o.client_closes ≡ true
      → o.pool_closes ≡ true
      → let tasks =
          tasks_from redis number rounds settings 0 (worker_names hostname pid hexes settings) in
        let unfinished = is_unfinished (behind turns s tasks h.world).0 in
        let (r, h') = worker_main redis o hostname pid hexes number rounds turns s h in
        (r ≡ (if unfinished then none else some tt))
        × (h'.redis_client ≡ (if unfinished then Connection.opened else Connection.closed))
        × (h'.pool ≡ (if unfinished then Connection.opened else Connection.closed))
  unfolding worker_main create_pool create_redis
  worker_main_ends o settings hostname pid hexes number rounds turns s h read connects parses
        client_closes pool_closes =
      let names = worker_names hostname pid hexes settings in
      let tasks = tasks_from redis number rounds settings 0 names in
      let ends =
        gather-IsSafe turns s tasks h.world (tasks_from-IsSafe number rounds settings 0 names) in
      rw read (
        rw connects (
          rw parses (
            ends_by o (gather redis turns s tasks h.world).0 _
              (is_unfinished (behind turns s tasks h.world).0) refl refl client_closes pool_closes
              ends)))
