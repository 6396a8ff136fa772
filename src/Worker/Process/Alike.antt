-- ===== src/Worker/Process/Alike.antt =====
-- Coroutines that do the same to servers that differ by beats alone, and the interleaving of one of
-- them with beats.
pub mod Rules
pub mod Unaware
use notify_queue.Base.{
  ℕ, zero, suc, ◌≡◌, refl, Option, Text, subst, ap, sym, ◌∙◌, Bool, true, false, List, [], ◌∷◌,
}
use notify_queue.Schema.{Job, Database}
use notify_queue.Redis.{Redis}
use notify_queue.Statements.Audit.{dead_letter_transaction}
use notify_queue.Effects.{Error, Result, ok, err, Command, Reply, Program, pure, raise, call, ◌>>=◌}
use notify_queue.Effects.Run.{
  Moment, Fault, fine, lost_before, lost_after, World, fault_of, perform, faulty, execute, run,
}
use notify_queue.Effects.Fine.{next, run-call}
use notify_queue.Worker.Process.{beside_heartbeat}
use notify_queue.Worker.Process.Blur.{
  blur_result, blur_world, IsBlind, dead_letter_transaction-IsBlind, update_heartbeat-blur,
}

-- The moments of the coroutine itself, without those of the beats.
abbrev pub own : List Bool → (ℕ → Moment) → ℕ → Moment
own [] s n = s n
own (true ∷ turns) s n = own turns (next s) n
own (false ∷ turns) s zero = s 0
own (false ∷ turns) s (suc n) = own turns (next s) n

-- No beat fails.
abbrev pub BeatsFine : List Bool → (ℕ → Moment) → Type 0
BeatsFine [] s = Unit
BeatsFine (true ∷ turns) s = ((s 0).fault ≡ fine) × BeatsFine turns (next s)
BeatsFine (false ∷ turns) s = BeatsFine turns (next s)

module _ {Q L C : Type 0} (redis : Redis Q L C) where
  -- The two coroutines issue the same blind commands, but that a letter may be for rows that differ by
  -- a beat, and go on alike after replies that do.
  pub data Alike {A : Type 0} : Program A → Program A → Type 0 where
    done : (a : A) → Alike (pure a) (pure a)
    raised : (e : Error) → Alike (raise e) (raise e)
    same :
        (c : Command) (k k' : Result (Reply c) → Program A)
        → IsBlind redis c
        → ((r r' : Result (Reply c)) → blur_result c r ≡ blur_result c r' → Alike (k r) (k' r'))
        → Alike (call c k) (call c k')
    letter :
        (error : Text) (job : Job) (heartbeat_at : Option ℕ) (updated_at attempt : ℕ) (w : Option ℕ)
        (k k' : Result Bool → Program A)
        → ((r : Result Bool) → Alike (k r) (k' r))
        → Alike (call (Command.dead_letter_transaction error job attempt w) k) (
            call
              (Command.dead_letter_transaction error
                (record job { heartbeat_at = heartbeat_at; updated_at = updated_at })
                attempt
                w)
              k')

  -- One result, but for a blur of the servers.
  abbrev pub Same : {A : Type 0} → Result A × World Q L C → Result A × World Q L C → Type 0
  Same (r, w) (r', w') = (r ≡ r') × (blur_world w ≡ blur_world w')

  execute-IsBlind :
      (c : Command) (m : Moment) (w w' : World Q L C)
      → IsBlind redis c
      → blur_world w ≡ blur_world w'
      → (blur_result c (execute redis m c w).0 ≡ blur_result c (execute redis m c w').0)
        × (blur_world (execute redis m c w).1 ≡ blur_world (execute redis m c w').1)
  unfolding execute
  execute-IsBlind c m w w' blind e = by_fault (fault_of c m.fault)
    where
      replies : blur_result c (perform redis m c w).0 ≡ blur_result c (perform redis m c w').0
      replies =
          sym (blind m w).0 ∙ ap (λ v. blur_result c (perform redis m c v).0) e ∙ (blind m w').0

      servers : blur_world (perform redis m c w).1 ≡ blur_world (perform redis m c w').1
      servers = sym (blind m w).1 ∙ ap (λ v. blur_world (perform redis m c v).1) e ∙ (blind m w').1

      by_fault :
          (f : Fault)
          → (blur_result c (faulty redis f w (perform redis m c w)).0
              ≡ blur_result c (faulty redis f w' (perform redis m c w')).0)
            × (blur_world (faulty redis f w (perform redis m c w)).1
                ≡ blur_world (faulty redis f w' (perform redis m c w')).1)
      by_fault fine = (replies, servers)
      by_fault lost_before = (refl, e)
      by_fault lost_after = (refl, servers)

  -- A letter copies none of the columns that a beat changes.
  execute-letter :
      (error : Text) (job : Job) (at : Option ℕ) (up attempt : ℕ) (o : Option ℕ) (m : Moment)
      (w w' : World Q L C)
      → blur_world w ≡ blur_world w'
      → let c = Command.dead_letter_transaction error job attempt o in
        let c' =
          Command.dead_letter_transaction error
            (record job { heartbeat_at = at; updated_at = up })
            attempt
            o in
        ((execute redis m c w).0 ≡ (execute redis m c' w').0)
        × (blur_world (execute redis m c w).1 ≡ blur_world (execute redis m c' w').1)
  unfolding execute perform dead_letter_transaction
  execute-letter error job at up attempt o m w w' e =
      let c = Command.dead_letter_transaction error job attempt o in
      let (replies, servers) =
        execute-IsBlind c m w w' (dead_letter_transaction-IsBlind redis error job attempt o) e in
      (sym (whole (execute redis m c w).0) ∙ replies ∙ whole (execute redis m c w').0, servers)
    where
      whole :
          (r : Result Bool)
          → blur_result (Command.dead_letter_transaction error job attempt o) r ≡ r
      whole (ok b) = refl
      whole (err x) = refl

  run-Alike :
      {A : Type 0} {p p' : Program A}
      → Alike p p'
      → (s : ℕ → Moment) (w w' : World Q L C) → blur_world w ≡ blur_world w'
      → Same (run redis s p w) (run redis s p' w')
  unfolding run
  run-Alike (done a) s w w' e = (refl, e)
  run-Alike (raised x) s w w' e = (refl, e)
  run-Alike (same c k k' blind h) s w w' e =
      let (replies, servers) = execute-IsBlind c (s 0) w w' blind e in
      run-Alike (h _ _ replies) (next s) _ _ servers
  run-Alike (letter error job at up attempt o k k' h) s w w' e =
      let (replies, servers) = execute-letter error job at up attempt o (s 0) w w' e in
      let c = Command.dead_letter_transaction error job attempt o in
      let c' =
        Command.dead_letter_transaction error (record job { heartbeat_at = at; updated_at = up })
          attempt o in
      let (r, v) = execute redis (s 0) c w in
      subst
        (λ r'.
          Same (run redis (next s) (k r) v)
            (run redis (next s) (k' r') (execute redis (s 0) c' w').1))
        replies (run-Alike (h r) (next s) v (execute redis (s 0) c' w').1 servers)

  module _ (job_id worker_id : ℕ) where
    beaten : Moment → World Q L C → World Q L C
    beaten m w = (perform redis m (Command.update_heartbeat job_id worker_id) w).1

    beaten-blur : (m : Moment) (w : World Q L C) → blur_world (beaten m w) ≡ blur_world w
    unfolding beaten perform
    beaten-blur m w =
        ap (λ (db : Database). record w { database = db })
          (update_heartbeat-blur job_id worker_id m.now w.database)

    -- A beat that does not fail, and what follows it.
    run-beat :
        (s : ℕ → Moment) (p : Program Unit) (failed : Error → Program Unit) (w : World Q L C)
        (x : Result Unit × World Q L C)
        → (s 0).fault ≡ fine
        → Same (run redis (next s) p (beaten (s 0) w)) x
        → Same
            (run redis s
              (call
                (Command.update_heartbeat job_id worker_id)
                λ r. elim r [ ok _ ↦ p | err e ↦ failed e ])
              w)
            x
    unfolding beaten perform
    run-beat s p failed w x h after =
        subst (λ r. Same r x)
          (sym (
            run-call redis s (Command.update_heartbeat job_id worker_id)
              (λ r. elim r [ ok _ ↦ p | err e ↦ failed e ]) w h))
          after

    pub run-beside_heartbeat :
        (turns : List Bool) {p p' : Program Unit}
        → Alike p p'
        → (s : ℕ → Moment) (w w' : World Q L C) → BeatsFine turns s
        → blur_world w ≡ blur_world w'
        → Same
            (run redis s (beside_heartbeat job_id worker_id turns p) w)
            (run redis (own turns s) p' w')
    unfolding run beside_heartbeat
    run-beside_heartbeat [] a s w w' h e = run-Alike a s w w' e
    run-beside_heartbeat (true ∷ turns) (done u) s w w' h e =
        run-beat s (pure u) raise w _ h.0 (refl, beaten-blur (s 0) w ∙ e)
    run-beside_heartbeat (true ∷ turns) (raised x) s w w' h e =
        run-beat s (raise x) raise w _ h.0 (refl, beaten-blur (s 0) w ∙ e)
    run-beside_heartbeat (true ∷ turns) (same c k k' blind q) s w w' h e =
        run-beat s (beside_heartbeat job_id worker_id turns (call _ k)) _ w _ h.0 (
          run-beside_heartbeat turns (same c k k' blind q) (next s) (beaten (s 0) w) w' h.1
            (beaten-blur (s 0) w ∙ e))
    run-beside_heartbeat (true ∷ turns) (letter error job at up attempt o k k' q) s w w' h e =
        run-beat s (beside_heartbeat job_id worker_id turns (call _ k)) _ w _ h.0 (
          run-beside_heartbeat turns (letter error job at up attempt o k k' q) (next s)
            (beaten (s 0) w) w' h.1 (beaten-blur (s 0) w ∙ e))
    run-beside_heartbeat (false ∷ turns) (done u) s w w' h e = (refl, e)
    run-beside_heartbeat (false ∷ turns) (raised x) s w w' h e = (refl, e)
    run-beside_heartbeat (false ∷ turns) (same c k k' blind q) s w w' h e =
        let (replies, servers) = execute-IsBlind c (s 0) w w' blind e in
        run-beside_heartbeat turns (q _ _ replies) (next s) _ _ h servers
    run-beside_heartbeat (false ∷ turns) (letter error job at up attempt o k k' q) s w w' h e =
        let c = Command.dead_letter_transaction error job attempt o in
        let c' =
          Command.dead_letter_transaction error (record job { heartbeat_at = at; updated_at = up })
            attempt o in
        let (replies, servers) = execute-letter error job at up attempt o (s 0) w w' e in
        let (r, v) = execute redis (s 0) c w in
        subst
          (λ r'.
            Same (run redis (next s) (beside_heartbeat job_id worker_id turns (k r)) v)
              (run redis (own turns (next s)) (k' r') (execute redis (s 0) c' w').1))
          replies
          (run-beside_heartbeat turns (q r) (next s) v (execute redis (s 0) c' w').1 h servers)
