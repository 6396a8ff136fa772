-- ===== src/Effects/Run.antt =====
-- What a command does to the tables and to Redis, and a coroutine run with nothing between.
use notify_queue.Base.{ℕ, suc, Bool, Option, none, some, List, [], ◌∷◌}
use notify_queue.Schema.{Job, Priority, Database}
use notify_queue.Redis.{Redis}
use notify_queue.Statements.Worker
use notify_queue.Statements.Audit
use notify_queue.Statements.Scheduler
use notify_queue.Statements.Api
use notify_queue.Ratelimit
use notify_queue.Effects.{
  unique_violation, connection_error, Result, ok, err, Posted, Command, Reply, Program, pure, raise,
  call,
}

-- A command may fail before or after the server has done it.
pub data Fault : Type 0 where
  fine lost_before lost_after : Fault

-- What the world decides when one command is done: the clock, a fault, the answer to a POST, the
-- number drawn, a fresh UUID, and which rows another transaction has locked.
pub record Moment : Type 0 where
  pub now : ℕ
  pub fault : Fault
  pub answer : Result Posted
  pub draw : ℕ
  pub fresh_id : ℕ
  pub locked : ℕ → Bool

-- The clock, a draw and a sleep need no server, and a POST reports its own failure.
abbrev pub fault_of : Command → Fault → Fault
fault_of Command.read_clock f = fine
fault_of Command.random f = fine
fault_of (Command.sleep _) f = fine
fault_of (Command.post _ _) f = fine
fault_of _ f = f

pub record World (Q L C : Type 0) : Type 0 where
  pub database : Database
  pub queues : Q
  pub locks : L
  pub counters : C

module _ {Q L C : Type 0} (redis : Redis Q L C) where
  abbrev pub zadd_rows : List (Priority × ℕ × ℕ) → Q → Q
  zadd_rows [] q = q
  zadd_rows ((p, i, s) ∷ rows) q = zadd_rows rows (redis.zadd p i s q)

  abbrev pub with_database : {A : Type 0} → A × Database → World Q L C → Result A × World Q L C
  with_database (a, db) w = (ok a, record w { database = db })

  -- An integrity error rolls the transaction back.
  abbrev pub committed : Job → Option Database → World Q L C → Result Job × World Q L C
  committed job none w = (err unique_violation, w)
  committed job (some db) w = (ok job, record w { database = db })

  abbrev pub with_queues : {A : Type 0} → A × Q → World Q L C → Result A × World Q L C
  with_queues (a, q) w = (ok a, record w { queues = q })

  abbrev pub with_locks : {A : Type 0} → A × L → World Q L C → Result A × World Q L C
  with_locks (a, l) w = (ok a, record w { locks = l })

  abbrev pub with_counters : {A : Type 0} → A × C → World Q L C → Result A × World Q L C
  with_counters (a, c) w = (ok a, record w { counters = c })

  -- The command done by its server. A sleep, the clock, a draw and a POST change no state.
  unfoldable pub perform : Moment → (c : Command) → World Q L C → Result (Reply c) × World Q L C
  perform m (Command.fetch_job i) w = (ok (Worker.fetch_job i w.database), w)
  perform m (Command.claim_queued_job worker i) w =
      with_database (Worker.claim_queued_job worker i m.now w.database) w
  perform m (Command.mark_sent i worker) w =
      with_database (Worker.mark_sent i worker m.now w.database) w
  perform m (Command.schedule_retry attempt next error i worker) w =
      with_database (Worker.schedule_retry attempt next error i worker m.now w.database) w
  perform m (Command.defer_to_next_window at i worker) w =
      with_database (Worker.defer_to_next_window at i worker m.now w.database) w
  perform m (Command.update_heartbeat i worker) w =
      with_database (tt, Worker.update_heartbeat i worker m.now w.database) w
  perform m (Command.dead_letter_transaction error job attempt worker) w =
      with_database (Audit.dead_letter_transaction error job attempt worker m.now w.database) w
  perform m (Command.insert_webhook_log i url status payload http_status attempt) w =
      with_database
        (
          tt,
          Audit.insert_webhook_log
              (record {
                job_id = i;
                callback_url = url;
                status_change = status;
                payload = payload;
                http_status = http_status;
                attempt = attempt;
                fired_at = m.now;
              })
              w.database,
        )
        w
  perform m (Command.promote_due lookahead limit) w =
      with_database (Scheduler.promote_due lookahead limit m.locked m.now w.database) w
  perform m (Command.recover_stale_claimed timeout) w =
      with_database (Scheduler.recover_stale_claimed timeout m.now w.database) w
  perform m (Command.requeue_stale_queued age limit) w =
      (ok (Scheduler.requeue_stale_queued age limit m.now w.database), w)
  perform m (Command.create_job_transaction n key) w =
      committed (Api.new_job n m.fresh_id m.now)
        (Api.create_job_transaction n key m.fresh_id m.now w.database) w
  perform m (Command.select_existing_job_id key) w =
      (ok (Api.select_existing_job_id key w.database), w)
  perform m (Command.select_job i) w = (ok (Worker.fetch_job i w.database), w)
  perform m Command.select_metrics w = (ok (Api.select_metrics w.database), w)
  perform m (Command.select_recent_jobs status limit) w =
      (ok (Api.select_recent_jobs status limit w.database), w)
  perform m (Command.retry_dead_lettered i) w =
      with_database (Api.retry_dead_lettered i m.now w.database) w
  perform m (Command.select_exists i) w = (ok (Api.exists_job i w.database), w)
  perform m (Command.zpopmin p) w = with_queues (redis.zpopmin p w.queues) w
  perform m (Command.set_lock i worker ttl) w =
      with_locks (redis.set_nx i worker ttl m.now w.locks) w
  perform m (Command.delete_lock i) w = with_locks (tt, redis.delete i w.locks) w
  perform m (Command.zadd_all rows) w = with_queues (tt, zadd_rows rows w.queues) w
  perform m (Command.incr_with_ttl key ttl) w =
      with_counters (Ratelimit.incr_with_ttl redis key ttl m.now w.counters) w
  perform m (Command.decr key) w = with_counters (tt, redis.decr key m.now w.counters) w
  perform m Command.read_clock w = (ok m.now, w)
  perform m Command.random w = (ok m.draw, w)
  perform m (Command.post url payload) w = (m.answer, w)
  perform m (Command.sleep duration) w = (ok tt, w)

  abbrev pub faulty :
      {A : Type 0} → Fault → World Q L C → Result A × World Q L C → Result A × World Q L C
  faulty fine w done = done
  faulty lost_before w done = (err connection_error, w)
  faulty lost_after w done = (err connection_error, done.1)

  unfoldable pub execute : Moment → (c : Command) → World Q L C → Result (Reply c) × World Q L C
  execute m c w = faulty (fault_of c m.fault) w (perform m c w)

  -- A coroutine on its own, with a moment for each of its commands.
  unfoldable pub run :
      {A : Type 0} → (ℕ → Moment) → Program A → World Q L C → Result A × World Q L C
  run s (pure a) w = (ok a, w)
  run s (raise e) w = (err e, w)
  run s (call c k) w = let (r, w') = execute (s 0) c w in run (λ n. s (suc n)) (k r) w'
