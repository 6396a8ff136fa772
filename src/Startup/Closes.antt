-- ===== src/Startup/Closes.antt =====
-- How `main` of src/notify_queue/scheduler/__main__.py ends.
use notify_queue.Base.{ℕ, zero, suc, true, none, some, ◌≡◌, refl, ◌∙◌, arith, if◌then◌else◌, leb}
use notify_queue.Settings.{Settings}
use notify_queue.Redis.{Redis}
use notify_queue.Effects.{Program, pure, raise, call}
use notify_queue.Effects.Run.{Moment, World, execute, run}
use notify_queue.Effects.Fine.{next}
use notify_queue.Effects.Survives.{IsOk}
use notify_queue.Scheduler.{scheduler_loop}
use notify_queue.Scheduler.Survives.{scheduler_loop-Survives}
use notify_queue.Startup.{
  Connection, Host, Outside, create_pool, create_redis, run_until, scheduler_main,
}
use notify_queue.Effects.Left.{commands}

module _ {Q L C : Type 0} (redis : Redis Q L C) where
  run_until-returns :
      (n : ℕ) (s : ℕ → Moment) (p : Program Unit) (w : World Q L C)
      → IsOk (run redis s p w).0
      → (run_until redis n s p w).0 ≡ (if leb (commands redis s p w) n then some tt else none)
  unfolding run_until commands run
  run_until-returns n s (pure a) w h = ground arith
  run_until-returns n s (raise e) w h = elim h [ ]
  run_until-returns zero s (call c k) w h = ground arith
  run_until-returns (suc n) s (call c k) w h =
      let rest =
        run_until-returns n (next s) (k (execute redis (s 0) c w).0) (execute redis (s 0) c w).1
          h in
      rest ∙ ground arith

  -- The scheduler's process, with its settings read and all connections working. However its servers
  -- fail in between, it ends by an exception exactly if it is interrupted before the commands of its
  -- rounds are done; and even then it closes the Redis client and the pool.
  pub scheduler_main_ends :
      (o : Outside) (settings : Settings) (rounds n : ℕ) (s : ℕ → Moment) (h : Host Q L C)
      → o.settings ≡ some settings
      → o.pool_connects ≡ true
      → o.url_parses ≡ true
      → o.client_closes ≡ true
      → o.pool_closes ≡ true
      → ((scheduler_main redis o rounds n s h).0 ≡ (
          if leb (commands redis s (scheduler_loop rounds settings) h.world) n
          then some tt
          else none))
        × ((scheduler_main redis o rounds n s h).1.redis_client ≡ Connection.closed)
        × ((scheduler_main redis o rounds n s h).1.pool ≡ Connection.closed)
  unfolding scheduler_main create_pool create_redis
  scheduler_main_ends o settings rounds n s h read connects parses client_closes pool_closes =
      rw read (
        rw connects (
          rw parses (
            rw client_closes (
              rw pool_closes (
                run_until-returns n s (scheduler_loop rounds settings) h.world
                    (scheduler_loop-Survives redis rounds settings s h.world),
                refl,
                refl,
              )))))
