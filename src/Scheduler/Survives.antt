-- ===== src/Scheduler/Survives.antt =====
-- The loop of src/notify_queue/scheduler/__main__.py under failures.
use notify_queue.Base.{ℕ, zero, suc}
use notify_queue.Settings.{Settings}
use notify_queue.Redis.{Redis}
use notify_queue.Effects.Run.{Moment, World, run}
use notify_queue.Effects.Survives.{
  IsOk, Survives, pure-Survives, sleep-Survives, catch-Survives, bind-Survives,
}
use notify_queue.Scheduler.{sweeps, tick, scheduler_loop}

module _ {Q L C : Type 0} (redis : Redis Q L C) where
  tick-Survives : (settings : Settings) → Survives redis (tick settings)
  unfolding tick
  tick-Survives settings = catch-Survives redis (sweeps settings) _ (λ _. pure-Survives redis tt)

  loop-Survives :
      (rounds : ℕ) (settings : Settings) → Survives redis (scheduler_loop rounds settings)
  unfolding scheduler_loop
  loop-Survives zero settings = pure-Survives redis tt
  loop-Survives (suc rounds) settings =
      bind-Survives redis (tick settings) _ (tick-Survives settings) (λ _.
        bind-Survives redis _ _ (sleep-Survives redis settings.scheduler_poll_interval)
          (λ _. loop-Survives rounds settings))

  -- No failure kills a scheduler: whatever its servers do, the loop goes through all its rounds and
  -- ends without an exception.
  pub scheduler_loop-Survives :
      (rounds : ℕ) (settings : Settings) (s : ℕ → Moment) (w : World Q L C)
      → IsOk (run redis s (scheduler_loop rounds settings) w).0
  scheduler_loop-Survives = loop-Survives
