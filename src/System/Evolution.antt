-- ===== src/System/Evolution.antt =====
-- The life of the jobs along the interleavings of the system.
use notify_queue.Base.{Option, none, some}
use notify_queue.Schema.{Job, Database}
use notify_queue.Redis.{Redis}
use notify_queue.Effects.{Command}
use notify_queue.Effects.Run.{
  Fault, fine, lost_before, lost_after, Moment, World, fault_of, perform, committed, faulty,
  execute,
}
use notify_queue.Consistency.{IsConsistent}
use notify_queue.Consistency.Commands.{IfDone}
use notify_queue.Lifecycle.{SameRequest, Became, Evolves, Evolves-refl, Evolves-trans, stays}
use notify_queue.Lifecycle.Commands.{
  claim_queued_job-Evolves, mark_sent-Evolves, schedule_retry-Evolves, defer_to_next_window-Evolves,
  retry_dead_lettered-Evolves, promote_due-Evolves, recover_stale_claimed-Evolves,
  update_heartbeat-Evolves, dead_letter_transaction-Evolves, insert_webhook_log-Evolves,
  create_job_transaction-Evolves,
}
use notify_queue.System.{System, Step, act, die, start, Reach, here, later}
use notify_queue.System.Safety.{Reach-IsConsistent}

module _ {Q L C : Type 0} (redis : Redis Q L C) where
  committed-Evolves :
      (job : Job) (o : Option Database) (w : World Q L C)
      → IfDone (Evolves Became w.database) o
      → Evolves Became w.database (committed redis job o w).1.database
  committed-Evolves job none w h = Evolves-refl w.database
  committed-Evolves job (some db) w h = h

  perform-Evolves :
      (m : Moment) (c : Command) (w : World Q L C)
      → IsConsistent w.database
      → Evolves Became w.database (perform redis m c w).1.database
  unfolding perform
  perform-Evolves m (Command.claim_queued_job worker i) w h =
      claim_queued_job-Evolves w.database worker i m.now
  perform-Evolves m (Command.mark_sent i worker) w h = mark_sent-Evolves w.database i worker m.now
  perform-Evolves m (Command.schedule_retry attempt next error i worker) w h =
      schedule_retry-Evolves w.database attempt next error i worker m.now
  perform-Evolves m (Command.defer_to_next_window at i worker) w h =
      defer_to_next_window-Evolves w.database at i worker m.now
  perform-Evolves m (Command.update_heartbeat i worker) w h =
      update_heartbeat-Evolves w.database i worker m.now
  perform-Evolves m (Command.dead_letter_transaction error job attempt worker) w h =
      dead_letter_transaction-Evolves w.database error job attempt worker m.now
  perform-Evolves m (Command.insert_webhook_log i url status payload http_status attempt) w h =
      insert_webhook_log-Evolves w.database _
  perform-Evolves m (Command.promote_due lookahead limit) w h =
      promote_due-Evolves w.database lookahead limit m.locked m.now h.unique
  perform-Evolves m (Command.recover_stale_claimed timeout) w h =
      recover_stale_claimed-Evolves w.database timeout m.now
  perform-Evolves m (Command.create_job_transaction n key) w h =
      committed-Evolves _ _ w (create_job_transaction-Evolves w.database n key m.fresh_id m.now)
  perform-Evolves m (Command.retry_dead_lettered i) w h =
      retry_dead_lettered-Evolves w.database i m.now
  perform-Evolves m _ w h = Evolves-refl w.database

  execute-Evolves :
      (m : Moment) (c : Command) (w : World Q L C)
      → IsConsistent w.database
      → Evolves Became w.database (execute redis m c w).1.database
  unfolding execute
  execute-Evolves m c w h = by_fault (fault_of c m.fault)
    where
      by_fault :
          (f : Fault)
          → Evolves Became w.database (faulty redis f w (perform redis m c w)).1.database
      by_fault fine = perform-Evolves m c w h
      by_fault lost_before = Evolves-refl w.database
      by_fault lost_after = perform-Evolves m c w h

  -- Each step of the system, a failure or a death included, takes each job along its life: the job is
  -- still in the table, its request is the same, and its status is one that may follow. A pending job
  -- may be queued, a queued one claimed, a claimed one sent or pending again, a dead-lettered one
  -- pending again, and any may be dead-lettered; no key and no letter goes away. The tables are
  -- consistent before.
  pub Step-Evolves :
      {s u : System Q L C}
      → Step redis s u
      → IsConsistent s.world.database
      → Evolves Became s.world.database u.world.database
  Step-Evolves {s} (act t m c k e) h = execute-Evolves m c s.world h
  Step-Evolves {s} (die t) h = Evolves-refl s.world.database
  Step-Evolves {s} (start t p) h = Evolves-refl s.world.database

  -- Nothing is lost: from consistent tables, along every interleaving and whatever fails, each job
  -- stays in the table with the request that it was created with, each idempotency key keeps naming
  -- the job that it names, and each job with a letter keeps one.
  pub Reach-Evolves :
      {s u : System Q L C}
      → Reach redis s u
      → IsConsistent s.world.database
      → Evolves SameRequest s.world.database u.world.database
  Reach-Evolves {s} here h = record {
    jobs = λ i j e. (j, e, (stays j).0);
    keys = λ k i e. e;
    letters = λ i e. e;
  }
  Reach-Evolves (later r st) h =
      Evolves-trans (Reach-Evolves r h) (Step-Evolves st (Reach-IsConsistent redis r h))
