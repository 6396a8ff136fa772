-- ===== src/Effects/Rules.antt =====
-- A rule for what a coroutine ensures on every run, faults included.
use notify_queue.Base.{ℕ, ◌≡◌, sym, subst}
use notify_queue.Redis.{Redis}
use notify_queue.Effects.{
  Error, connection_error, Result, ok, err, Command, Reply, Program, call, ◌>>=◌, await,
  reply_or_raise,
}
use notify_queue.Effects.Run.{
  Moment, Fault, fine, lost_before, lost_after, World, fault_of, perform, faulty, execute, run,
}
use notify_queue.Effects.Fine.{next}

module _ {Q L C : Type 0} (redis : Redis Q L C) {A : Type 0}
    (P : Result A × World Q L C → Type 0) where
  -- A command and what follows it, whether it is done or fails by the connection.
  pub call_rule :
      (c : Command) (k : Result (Reply c) → Program A) (s : ℕ → Moment) (w : World Q L C)
      → ((e : Error) (w : World Q L C) → P (run redis (next s) (k (err e)) w))
      → P (run redis (next s) (k (perform redis (s 0) c w).0) (perform redis (s 0) c w).1)
      → P (run redis s (call c k) w)
  unfolding run execute
  call_rule c k s w errs rest = by_fault (fault_of c (s 0).fault)
    where
      done : Result (Reply c) × World Q L C
      done = perform redis (s 0) c w

      by_fault :
          (x : Fault)
          → P (run redis (next s) (k (faulty redis x w done).0) (faulty redis x w done).1)
      by_fault fine = rest
      by_fault lost_before = errs connection_error w
      by_fault lost_after = errs connection_error done.1

  -- A command that the server grants with the reply `a`, then the rest; or an exception.
  pub await_rule :
      (c : Command) (f : Reply c → Program A) (s : ℕ → Moment) (w : World Q L C) (a : Reply c)
      → (perform redis (s 0) c w).0 ≡ ok a
      → ((e : Error) (w : World Q L C) → P (err e, w))
      → P (run redis (next s) (f a) (perform redis (s 0) c w).1)
      → P (run redis s (await c >>= f) w)
  unfolding run
  await_rule c f s w a e errs rest =
      call_rule c (λ r. reply_or_raise r >>= f) s w errs
        (subst (λ r. P (run redis (next s) (reply_or_raise r >>= f) (perform redis (s 0) c w).1))
          (sym e) rest)
