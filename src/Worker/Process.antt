-- ===== src/Worker/Process.antt =====
-- `process_job` of src/notify_queue/worker/delivery.py: a delivery with the heartbeat beside it. The
-- two tasks alternate at their commands, and `turns` says who is next: `true` is a heartbeat. With
-- no turns left the heartbeat waits until `stop` is set. A beat whose UPDATE is on its way when the
-- delivery ends still comes; then the loop finds `stop` set.
pub mod Lost
pub mod Blur
pub mod Alike
pub mod Delivers
use notify_queue.Base.{ℕ, Bool, true, false, List, [], ◌∷◌}
use notify_queue.Settings.{Settings}
use notify_queue.Effects.{Error, Result, ok, err, Command, Program, pure, raise, call, ◌>>◌, catch}
use notify_queue.Worker.Delivery.{execute_delivery}

-- The heartbeat has failed: the delivery goes on alone, and `await heartbeat` raises in `finally`.
abbrev pub without_heartbeat : Error → Program Unit → Program Unit
without_heartbeat e main = catch (main >> raise e) (λ _. raise e)

module _ (job_id worker_id : ℕ) where
  -- A beat, and what follows it if it does not fail.
  abbrev beat : (Result Unit → Program Unit) → Program Unit
  beat = call (Command.update_heartbeat job_id worker_id)

  -- `stop` is set: at most the beat that is on its way is left.
  abbrev stopped : Bool → Program Unit → Program Unit
  stopped false ended = ended
  stopped true ended = beat λ r. elim r [ ok _ ↦ ended | err e ↦ raise e ]

  unfoldable pub beside_heartbeat : List Bool → Program Unit → Program Unit
  beside_heartbeat [] main = main
  beside_heartbeat (turn ∷ turns) (pure a) = stopped turn (pure a)
  beside_heartbeat (turn ∷ turns) (raise e) = stopped turn (raise e)
  beside_heartbeat (false ∷ turns) (call c k) = call c (λ r. beside_heartbeat turns (k r))
  beside_heartbeat (true ∷ turns) (call c k) = beat λ r. elim r [
    | ok _ ↦ beside_heartbeat turns (call c k)
    | err e ↦ without_heartbeat e (call c k)
  ]

unfoldable pub process_job : List Bool → ℕ → ℕ → Settings → Program Unit
unfolding beside_heartbeat
process_job turns job_id worker_id settings =
    beside_heartbeat job_id worker_id turns (execute_delivery job_id settings)
