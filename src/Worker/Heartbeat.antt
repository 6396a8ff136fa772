-- ===== src/Worker/Heartbeat.antt =====
-- src/notify_queue/worker/heartbeat.py. `rounds` is how often the loop finds `stop` not set; the wait
-- for `stop` is a sleep that `stop` may cut short.
pub mod Protects
pub mod Beats
use notify_queue.Base.{ℕ, zero, suc}
use notify_queue.Effects.{Command, Program, pure, ◌>>◌, await}

unfoldable pub heartbeat_loop : ℕ → ℕ → ℕ → ℕ → Program Unit
heartbeat_loop zero job_id worker_id interval = pure tt
heartbeat_loop (suc rounds) job_id worker_id interval =
    await (Command.update_heartbeat job_id worker_id)
    >> (await (Command.sleep interval) >> heartbeat_loop rounds job_id worker_id interval)
