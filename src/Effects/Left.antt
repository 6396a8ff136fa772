-- ===== src/Effects/Left.antt =====
-- How much of the servers' time a coroutine takes: its commands, and what is left for the one after.
use notify_queue.Base.{ℕ, zero, suc, ◌≡◌, refl}
use notify_queue.Redis.{Redis}
use notify_queue.Effects.{Program, pure, raise, call, ◌>>=◌}
use notify_queue.Effects.Run.{Moment, World, execute, run}
use notify_queue.Effects.Fine.{next}
use notify_queue.Effects.Survives.{IsOk}

module _ {Q L C : Type 0} (redis : Redis Q L C) where
  -- How many commands the coroutine comes to.
  unfoldable pub commands : {A : Type 0} → (ℕ → Moment) → Program A → World Q L C → ℕ
  commands s (pure a) w = 0
  commands s (raise e) w = 0
  commands s (call c k) w =
      let (r, w') = execute redis (s 0) c w in suc (commands (next s) (k r) w')

  -- The moments behind them.
  unfoldable pub left : {A : Type 0} → (ℕ → Moment) → Program A → World Q L C → ℕ → Moment
  left s (pure a) w = s
  left s (raise e) w = s
  left s (call c k) w = let (r, w') = execute redis (s 0) c w in left (next s) (k r) w'

  -- What follows a coroutine that ends well runs on what that left.
  pub run-then :
      {B : Type 0} (p : Program Unit) (f : Unit → Program B) (s : ℕ → Moment) (w : World Q L C)
      → IsOk (run redis s p w).0
      → run redis s (p >>= f) w ≡ run redis (left s p w) (f tt) (run redis s p w).1
  unfolding run left
  run-then (pure tt) f s w h = refl
  run-then (raise e) f s w h = elim h [ ]
  run-then (call c k) f s w h =
      run-then (k (execute redis (s 0) c w).0) f (next s) (execute redis (s 0) c w).1 h

  -- Its first commands, done: the coroutine that is left, and the servers after them.
  unfoldable pub drive :
      {A : Type 0} → ℕ → (ℕ → Moment) → Program A → World Q L C → Program A × World Q L C
  drive zero s p w = (p, w)
  drive (suc n) s (pure a) w = (pure a, w)
  drive (suc n) s (raise e) w = (raise e, w)
  drive (suc n) s (call c k) w = let (r, w') = execute redis (s 0) c w in drive n (next s) (k r) w'
