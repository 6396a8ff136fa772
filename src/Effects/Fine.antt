-- ===== src/Effects/Fine.antt =====
-- Commands that no fault disturbs.
use notify_queue.Base.{ℕ, suc, ◌≡◌, refl}
use notify_queue.Redis.{Redis}
use notify_queue.Effects.{Result, Command, Reply, Program, call, pure, ok}
use notify_queue.Effects.Run.{fine, Moment, World, fault_of, perform, execute, run}

abbrev pub AllFine : (ℕ → Moment) → Type 0
AllFine s = (n : ℕ) → (s n).fault ≡ fine

-- The moments that are left after the first.
abbrev pub next : (ℕ → Moment) → ℕ → Moment
next s n = s (suc n)

fault_of-fine : (c : Command) → fault_of c fine ≡ fine
fault_of-fine Command.read_clock = refl
fault_of-fine Command.random = refl
fault_of-fine (Command.sleep d) = refl
fault_of-fine (Command.post u p) = refl
fault_of-fine _ = refl

module _ {Q L C : Type 0} (redis : Redis Q L C) where
  pub execute-fine :
      (m : Moment) (c : Command) (w : World Q L C)
      → m.fault ≡ fine
      → execute redis m c w ≡ perform redis m c w
  unfolding execute
  execute-fine m c w h = rw h (rw (fault_of-fine c))

  -- One command of a coroutine, done.
  pub run-call :
      {A : Type 0} (s : ℕ → Moment) (c : Command) (k : Result (Reply c) → Program A)
      (w : World Q L C)
      → (s 0).fault ≡ fine
      → run redis s (call c k) w
        ≡ run redis (next s) (k (perform redis (s 0) c w).0) (perform redis (s 0) c w).1
  unfolding run
  run-call s c k w h = rw (execute-fine (s 0) c w h)

  pub run-pure :
      {A : Type 0} (s : ℕ → Moment) (a : A) (w : World Q L C) → run redis s (pure a) w ≡ (ok a, w)
  unfolding run
  run-pure s a w = refl
