-- ===== src/System/Safety.antt =====
-- The tables along the interleavings of the system, with failures and dead processes.
use notify_queue.Base.{ℕ, suc, Option, none, some}
use notify_queue.Schema.{Job, Database}
use notify_queue.Redis.{Redis}
use notify_queue.Effects.{Command, Program, pure, raise, call}
use notify_queue.Effects.Run.{
  Fault, fine, lost_before, lost_after, Moment, World, fault_of, perform, committed, faulty,
  execute, run,
}
use notify_queue.Consistency.{IsConsistent}
use notify_queue.Consistency.Commands.{
  IfDone, claim_queued_job-IsConsistent, mark_sent-IsConsistent, schedule_retry-IsConsistent,
  defer_to_next_window-IsConsistent, retry_dead_lettered-IsConsistent, promote_due-IsConsistent,
  recover_stale_claimed-IsConsistent, update_heartbeat-IsConsistent,
  dead_letter_transaction-IsConsistent, insert_webhook_log-IsConsistent,
  create_job_transaction-IsConsistent,
}
use notify_queue.System.{System, Step, act, die, start, Reach, here, later}

module _ {Q L C : Type 0} (redis : Redis Q L C) where
  committed-IsConsistent :
      (job : Job) (o : Option Database) (w : World Q L C)
      → IfDone IsConsistent o
      → IsConsistent w.database
      → IsConsistent (committed redis job o w).1.database
  committed-IsConsistent job none w h c = c
  committed-IsConsistent job (some db) w h c = h

  perform-IsConsistent :
      (m : Moment) (c : Command) (w : World Q L C)
      → IsConsistent w.database
      → IsConsistent (perform redis m c w).1.database
  unfolding perform
  perform-IsConsistent m (Command.claim_queued_job worker i) w h =
      claim_queued_job-IsConsistent w.database h worker i m.now
  perform-IsConsistent m (Command.mark_sent i worker) w h =
      mark_sent-IsConsistent w.database h i worker m.now
  perform-IsConsistent m (Command.schedule_retry attempt next error i worker) w h =
      schedule_retry-IsConsistent w.database h attempt next error i worker m.now
  perform-IsConsistent m (Command.defer_to_next_window at i worker) w h =
      defer_to_next_window-IsConsistent w.database h at i worker m.now
  perform-IsConsistent m (Command.update_heartbeat i worker) w h =
      update_heartbeat-IsConsistent w.database h i worker m.now
  perform-IsConsistent m (Command.dead_letter_transaction error job attempt worker) w h =
      dead_letter_transaction-IsConsistent w.database h error job attempt worker m.now
  perform-IsConsistent m (Command.insert_webhook_log i url status payload http_status attempt) w h =
      insert_webhook_log-IsConsistent w.database h _
  perform-IsConsistent m (Command.promote_due lookahead limit) w h =
      promote_due-IsConsistent w.database h lookahead limit m.locked m.now
  perform-IsConsistent m (Command.recover_stale_claimed timeout) w h =
      recover_stale_claimed-IsConsistent w.database h timeout m.now
  perform-IsConsistent m (Command.create_job_transaction n key) w h =
      committed-IsConsistent _ _ w
        (create_job_transaction-IsConsistent n key m.fresh_id m.now w.database h) h
  perform-IsConsistent m (Command.retry_dead_lettered i) w h =
      retry_dead_lettered-IsConsistent w.database h i m.now
  perform-IsConsistent m _ w h = h

  execute-IsConsistent :
      (m : Moment) (c : Command) (w : World Q L C)
      → IsConsistent w.database
      → IsConsistent (execute redis m c w).1.database
  unfolding execute
  execute-IsConsistent m c w h = by_fault (fault_of c m.fault)
    where
      by_fault : (f : Fault) → IsConsistent (faulty redis f w (perform redis m c w)).1.database
      by_fault fine = perform-IsConsistent m c w h
      by_fault lost_before = h
      by_fault lost_after = perform-IsConsistent m c w h

  -- Every coroutine of the program, run on its own with any moments and faults, keeps the tables
  -- consistent.
  pub run-IsConsistent :
      {A : Type 0} (s : ℕ → Moment) (p : Program A) (w : World Q L C)
      → IsConsistent w.database
      → IsConsistent (run redis s p w).1.database
  unfolding run
  run-IsConsistent s (pure a) w h = h
  run-IsConsistent s (raise e) w h = h
  run-IsConsistent s (call c k) w h =
      let (r, w') = execute redis (s 0) c w in
      run-IsConsistent (λ n. s (suc n)) (k r) w' (execute-IsConsistent (s 0) c w h)

  Step-IsConsistent :
      {s u : System Q L C}
      → Step redis s u
      → IsConsistent s.world.database
      → IsConsistent u.world.database
  Step-IsConsistent {s} (act t m c k e) h = execute-IsConsistent m c s.world h
  Step-IsConsistent (die t) h = h
  Step-IsConsistent (start t p) h = h

  -- From consistent tables, every state that any interleaving of coroutines reaches has consistent
  -- tables, whatever fails and whichever process dies: ids and idempotency keys are unique, the
  -- columns of a row agree with its status, a dead-lettered job has its row in the dead-letter queue,
  -- and the jobs that keys and letters name exist.
  pub Reach-IsConsistent :
      {s u : System Q L C}
      → Reach redis s u
      → IsConsistent s.world.database
      → IsConsistent u.world.database
  Reach-IsConsistent here h = h
  Reach-IsConsistent (later r st) h = Step-IsConsistent st (Reach-IsConsistent r h)
