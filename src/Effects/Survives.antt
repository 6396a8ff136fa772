-- ===== src/Effects/Survives.antt =====
-- Coroutines that end without an exception whatever fails.
use notify_queue.Base.{ℕ}
use notify_queue.Redis.{Redis}
use notify_queue.Effects.{
  Error, Result, ok, err, Command, Program, pure, raise, call, ◌>>=◌, catch, await,
}
use notify_queue.Effects.Run.{Moment, World, run, execute, perform}
use notify_queue.Effects.Fine.{next}

abbrev pub IsOk : {A : Type 0} → Result A → Type 0
IsOk (ok a) = Unit
IsOk (err e) = ⊥

module _ {Q L C : Type 0} (redis : Redis Q L C) where
  -- It ends without an exception, from any servers, by any moments and faults.
  abbrev pub Survives : {A : Type 0} → Program A → Type 0
  Survives p = (s : ℕ → Moment) (w : World Q L C) → IsOk (run redis s p w).0

  pub pure-Survives : {A : Type 0} (a : A) → Survives (pure a)
  unfolding run
  pure-Survives a s w = tt

  -- A sleep needs no server.
  pub sleep-Survives : (d : ℕ) → Survives (await (Command.sleep d))
  unfolding run execute perform
  sleep-Survives d s w = tt

  -- A handler that survives leaves nothing to raise.
  pub catch-Survives :
      {A : Type 0} (p : Program A) (h : Error → Program A)
      → ((e : Error) → Survives (h e))
      → Survives (catch p h)
  unfolding run
  catch-Survives (pure a) h safe s w = tt
  catch-Survives (raise e) h safe s w = safe e s w
  catch-Survives (call c k) h safe s w =
      catch-Survives (k (execute redis (s 0) c w).0) h safe (next s) (execute redis (s 0) c w).1

  after-Survives :
      {A B : Type 0} (p : Program A) (f : A → Program B) (s : ℕ → Moment) (w : World Q L C)
      → ((a : A) → Survives (f a))
      → IsOk (run redis s p w).0
      → IsOk (run redis s (p >>= f) w).0
  unfolding run
  after-Survives (pure a) f s w rest h = rest a s w
  after-Survives (raise e) f s w rest h = elim h [ ]
  after-Survives (call c k) f s w rest h =
      after-Survives (k (execute redis (s 0) c w).0) f (next s) (execute redis (s 0) c w).1 rest h

  pub bind-Survives :
      {A B : Type 0} (p : Program A) (f : A → Program B)
      → Survives p
      → ((a : A) → Survives (f a))
      → Survives (p >>= f)
  bind-Survives p f safe rest s w = after-Survives p f s w rest (safe s w)
