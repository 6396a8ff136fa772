-- ===== src/Effects/Keeps.antt =====
-- What a coroutine leaves alone: a view of the servers that none of its commands changes, whatever
-- fails. One rule for each way to build a coroutine.
use notify_queue.Base.{ℕ, suc, ◌≡◌, refl, ap, ◌∙◌}
use notify_queue.Redis.{Redis}
use notify_queue.Effects.{
  Result, ok, err, Command, Reply, Program, pure, raise, call, ◌>>=◌, await, reply_or_raise,
}
use notify_queue.Effects.Run.{
  Moment, Fault, fine, lost_before, lost_after, World, fault_of, perform, faulty, execute, run,
}

module _ {Q L C V : Type 0} (redis : Redis Q L C) (view : World Q L C → V) where
  abbrev pub Quiet : Command → Type 0
  Quiet c = (m : Moment) (w : World Q L C) → view (perform redis m c w).1 ≡ view w

  abbrev pub Keeps : {A : Type 0} → Program A → Type 0
  Keeps (pure a) = Unit
  Keeps (raise e) = Unit
  Keeps (call c k) = Quiet c × ((r : Result (Reply c)) → Keeps (k r))

  execute-Quiet :
      (m : Moment) (c : Command) (w : World Q L C) → Quiet c → view (execute redis m c w).1 ≡ view w
  unfolding execute
  execute-Quiet m c w quiet = by_fault (fault_of c m.fault)
    where
      by_fault : (f : Fault) → view (faulty redis f w (perform redis m c w)).1 ≡ view w
      by_fault fine = quiet m w
      by_fault lost_before = refl
      by_fault lost_after = quiet m w

  pub run-Keeps :
      {A : Type 0} (p : Program A)
      → Keeps p
      → (s : ℕ → Moment) (w : World Q L C) → view (run redis s p w).1 ≡ view w
  unfolding run
  run-Keeps (pure a) h s w = refl
  run-Keeps (raise e) h s w = refl
  run-Keeps (call c k) h s w =
      let (r, w') = execute redis (s 0) c w in
      run-Keeps (k r) (h.1 r) (λ n. s (suc n)) w' ∙ execute-Quiet (s 0) c w h.0

  pub Keeps-bind :
      {A B : Type 0} (p : Program A) (f : A → Program B)
      → Keeps p
      → ((a : A) → Keeps (f a))
      → Keeps (p >>= f)
  Keeps-bind (pure a) f hp hf = hf a
  Keeps-bind (raise e) f hp hf = tt
  Keeps-bind (call c k) f hp hf = (hp.0, λ r. Keeps-bind (k r) f (hp.1 r) hf)

  Keeps-reply : {A : Type 0} (r : Result A) → Keeps (reply_or_raise r)
  Keeps-reply (ok a) = tt
  Keeps-reply (err e) = tt

  pub Keeps-await : (c : Command) → Quiet c → Keeps (await c)
  Keeps-await c quiet = (quiet, Keeps-reply)

  -- A command that keeps the view, and what follows it.
  pub Keeps-then :
      {B : Type 0} (c : Command) (f : Reply c → Program B)
      → Quiet c
      → ((a : Reply c) → Keeps (f a))
      → Keeps (await c >>= f)
  Keeps-then c f quiet hf = Keeps-bind (await c) f (quiet, Keeps-reply) hf

-- What keeps a view keeps whatever is seen through it.
pub Keeps-view :
    {Q L C V U : Type 0} (redis : Redis Q L C) (view : World Q L C → V) (g : V → U) {A : Type 0}
    (p : Program A)
    → Keeps redis view p
    → Keeps redis (λ w. g (view w)) p
Keeps-view redis view g (pure a) h = tt
Keeps-view redis view g (raise e) h = tt
Keeps-view redis view g (call c k) h =
    (λ m w. ap g (h.0 m w), λ r. Keeps-view redis view g (k r) (h.1 r))
