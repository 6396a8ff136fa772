-- ===== src/Worker/Process/Lost.antt =====
-- `process_job` of src/notify_queue/worker/delivery.py when its heartbeat fails.
use notify_queue.Base.{ℕ, zero, suc, ◌≤◌, arith, Bool, true, false, List, ◌∷◌, ◌≡◌, refl, ap, ◌∙◌}
use notify_queue.Settings.{Settings}
use notify_queue.Redis.{Redis}
use notify_queue.Effects.{
  Error, connection_error, ok, err, Command, Reply, Result, Program, pure, raise, call,
}
use notify_queue.Effects.Run.{lost_before, fault_of, faulty, perform, Moment, World, run, execute}
use notify_queue.Effects.Fine.{next}
use notify_queue.Worker.Delivery.{execute_delivery}
use notify_queue.Worker.Process.{without_heartbeat, beside_heartbeat, process_job}
use notify_queue.Effects.Left.{commands}

-- The heartbeat's first turn comes after `n` of the delivery.
abbrev pub turns_before : ℕ → List Bool → List Bool
turns_before zero turns = true ∷ turns
turns_before (suc n) turns = false ∷ turns_before n turns

-- The moments that are left to the delivery if the one numbered `n` goes to the heartbeat.
abbrev pub without_moment : ℕ → (ℕ → Moment) → ℕ → Moment
without_moment zero s i = s (suc i)
without_moment (suc n) s zero = s 0
without_moment (suc n) s (suc i) = without_moment n (next s) i

module _ {Q L C : Type 0} (redis : Redis Q L C) where
  run-without_heartbeat :
      (e : Error) (main : Program Unit) (s : ℕ → Moment) (w : World Q L C)
      → run redis s (without_heartbeat e main) w ≡ (err e, (run redis s main w).1)
  unfolding run
  run-without_heartbeat e (pure a) s w = refl
  run-without_heartbeat e (raise x) s w = refl
  run-without_heartbeat e (call c k) s w =
      run-without_heartbeat e (k (execute redis (s 0) c w).0) (next s) (execute redis (s 0) c w).1

  -- A command that does not reach its server.
  run-lost :
      (c : Command) (k : Result (Reply c) → Program Unit) (s : ℕ → Moment) (w : World Q L C)
      → fault_of c (s 0).fault ≡ lost_before
      → run redis s (call c k) w ≡ run redis (next s) (k (err connection_error)) w
  unfolding run execute
  run-lost c k s w lost =
      ap
        (λ f.
          let (r, w') = faulty redis f w (perform redis (s 0) c w) in run redis (next s) (k r) w')
        lost

  beside-lost :
      (n : ℕ) (turns : List Bool) (job_id worker_id : ℕ) (main : Program Unit) (s : ℕ → Moment)
      (w : World Q L C)
      → n ≤ commands redis s main w
      → (s n).fault ≡ lost_before
      → run redis s (beside_heartbeat job_id worker_id (turns_before n turns) main) w
        ≡ (err connection_error, (run redis (without_moment n s) main w).1)
  unfolding beside_heartbeat run commands
  beside-lost zero turns job_id worker_id (pure a) s w within lost =
      run-lost (Command.update_heartbeat job_id worker_id)
        (λ r. elim r [ ok _ ↦ pure a | err x ↦ raise x ]) s w lost
  beside-lost zero turns job_id worker_id (raise e) s w within lost =
      run-lost (Command.update_heartbeat job_id worker_id)
        (λ r. elim r [ ok _ ↦ raise e | err x ↦ raise x ]) s w lost
  beside-lost zero turns job_id worker_id (call c k) s w within lost =
      run-lost (Command.update_heartbeat job_id worker_id)
        (λ r. elim r [
          | ok _ ↦ beside_heartbeat job_id worker_id turns (call c k)
          | err x ↦ without_heartbeat x (call c k)
        ])
        s w lost
      ∙ run-without_heartbeat connection_error (call c k) (next s) w
  beside-lost (suc n) turns job_id worker_id (pure a) s w within lost =
      absurd (omega (arith, within))
  beside-lost (suc n) turns job_id worker_id (raise e) s w within lost =
      absurd (omega (arith, within))
  beside-lost (suc n) turns job_id worker_id (call c k) s w within lost =
      beside-lost n turns job_id worker_id (k (execute redis (s 0) c w).0) (next s)
        (execute redis (s 0) c w).1 (omega (arith, within)) lost

  -- The first beat does not reach the server, and comes at any time of the delivery: before it, after
  -- `n` of its commands, or behind its last. The delivery still runs to its end, as if it were alone,
  -- and `process_job` raises the error of the beat, whatever the delivery has done.
  pub process_job-lost_heartbeat :
      (n : ℕ) (turns : List Bool) (job_id worker_id : ℕ) (settings : Settings) (s : ℕ → Moment)
      (w : World Q L C)
      → n ≤ commands redis s (execute_delivery job_id settings) w
      → (s n).fault ≡ lost_before
      → run redis s (process_job (turns_before n turns) job_id worker_id settings) w ≡ (
        err connection_error,
        (run redis (without_moment n s) (execute_delivery job_id settings) w).1,
      )
  unfolding process_job
  process_job-lost_heartbeat n turns job_id worker_id settings s w =
      beside-lost n turns job_id worker_id (execute_delivery job_id settings) s w
