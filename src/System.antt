-- ===== src/System.antt =====
-- The system: schedulers, workers and requests as coroutines over the same servers, run command by
-- command in any order. A coroutine may stop for good between any two commands (its process dies),
-- and a new one may start at any time.
pub mod Safety
pub mod Evolution
pub mod Journey
pub mod Once
use notify_queue.Base.{ℕ, ◌≡◌, ◌==◌, if◌then◌else◌}
use notify_queue.Redis.{Redis}
use notify_queue.Effects.{Result, Command, Reply, Program, pure, call}
use notify_queue.Effects.Run.{Moment, World, execute}

pub record System (Q L C : Type 0) : Type 0 where
  pub world : World Q L C
  pub tasks : ℕ → Program Unit

abbrev pub with_task : (ℕ → Program Unit) → ℕ → Program Unit → ℕ → Program Unit
with_task tasks t p u = if u == t then p else tasks u

module _ {Q L C : Type 0} (redis : Redis Q L C) where
  -- One command of one coroutine, the death of a coroutine, or the start of another in its place.
  pub data Step : System Q L C → System Q L C → Type 0 where
    act :
        {s : System Q L C} (t : ℕ) (m : Moment) (c : Command) (k : Result (Reply c) → Program Unit)
        → s.tasks t ≡ call c k
        → Step s (record {
          world = (execute redis m c s.world).1;
          tasks = with_task s.tasks t (k (execute redis m c s.world).0);
        })
    die : {s : System Q L C} (t : ℕ) → Step s (record s { tasks = with_task s.tasks t (pure tt) })
    start :
        {s : System Q L C} (t : ℕ) (p : Program Unit)
        → Step s (record s { tasks = with_task s.tasks t p })

  pub data Reach (s : System Q L C) : System Q L C → Type 0 where
    here : Reach s s
    later : {u v : System Q L C} → Reach s u → Step u v → Reach s v
