-- ===== src/System/Once.antt =====
-- How often a job is marked as sent, along the interleavings of the system.
use notify_queue.Base.{ℕ, ◌+◌, ◌≤◌, Option, none, some, arith}
use notify_queue.Schema.{Job, Database}
use notify_queue.Schema.Table.{find_job}
use notify_queue.Redis.{Redis}
use notify_queue.Statements.Worker
use notify_queue.Statements.Api
use notify_queue.Effects.{Command}
use notify_queue.Effects.Run.{
  Fault, fine, lost_before, lost_after, Moment, World, fault_of, perform, committed, faulty,
  execute,
}
use notify_queue.Consistency.{IsConsistent}
use notify_queue.Consistency.Commands.{IfDone}
use notify_queue.Lifecycle.Closed.{
  openness, open_row, Closes, claim_queued_job-Closes, schedule_retry-Closes,
  defer_to_next_window-Closes, update_heartbeat-Closes, promote_due-Closes,
  recover_stale_claimed-Closes, dead_letter_transaction-Closes, create_job_transaction-Closes,
  insert_webhook_log-Closes,
}
use notify_queue.Lifecycle.Closed.Counted.{
  answered_for, mark_sent-closes, retry_dead_lettered-opens,
}
use notify_queue.System.{System, Step, act, die, start, Reach, here, later}
use notify_queue.System.Safety.{Reach-IsConsistent}

-- MARK_SENT of one job, with a row in its reply, and RETRY_DEAD_LETTERED of it, likewise.
abbrev pub sends : ℕ → Moment → Command → Database → ℕ
sends i m (Command.mark_sent k w) db = answered_for i k (Worker.mark_sent k w m.now db).0
sends i m _ db = 0

abbrev pub replays : ℕ → Moment → Command → Database → ℕ
replays i m (Command.retry_dead_lettered k) db =
    answered_for i k (Api.retry_dead_lettered k m.now db).0
replays i m _ db = 0

-- A command counts if the server has done it, even if its reply is lost.
abbrev pub if_done : Fault → ℕ → ℕ
if_done fine n = n
if_done lost_before n = 0
if_done lost_after n = n

module _ {Q L C : Type 0} (redis : Redis Q L C) where
  abbrev pub count_step :
      (ℕ → Moment → Command → Database → ℕ) → ℕ → {s u : System Q L C} → Step redis s u → ℕ
  count_step counted i (act {s} t m c k e) =
      if_done (fault_of c m.fault) (counted i m c s.world.database)
  count_step counted i (die t) = 0
  count_step counted i (start t p) = 0

  abbrev pub count_steps :
      (ℕ → Moment → Command → Database → ℕ) → ℕ → {s u : System Q L C} → Reach redis s u → ℕ
  count_steps counted i here = 0
  count_steps counted i (later r st) = count_steps counted i r + count_step counted i st

  module _ (i : ℕ) where
    -- What a send takes, and what a replay gives.
    abbrev Balanced : ℕ → ℕ → Database → Database → Type 0
    Balanced sent replayed db db' = sent + openness i db' ≤ openness i db + replayed

    plain : {a b : ℕ} → a ≤ b → 0 + a ≤ b + 0
    plain h = omega arith

    committed-Closes :
        (job : Job) (o : Option Database) (w : World Q L C)
        → IfDone (Closes i w.database) o
        → Closes i w.database (committed redis job o w).1.database
    committed-Closes job none w h = omega arith
    committed-Closes job (some db) w h = h

    perform-Balanced :
        (m : Moment) (c : Command) (w : World Q L C)
        → IsConsistent w.database
        → Balanced
            (sends i m c w.database)
            (replays i m c w.database)
            w.database
            (perform redis m c w).1.database
    unfolding perform
    perform-Balanced m (Command.mark_sent k worker) w h =
        let closes = mark_sent-closes i w.database h.unique k worker m.now in omega arith
    perform-Balanced m (Command.retry_dead_lettered k) w h =
        let opens = retry_dead_lettered-opens i w.database h.unique k m.now in omega arith
    perform-Balanced m (Command.claim_queued_job worker k) w h =
        plain (claim_queued_job-Closes i w.database worker k m.now)
    perform-Balanced m (Command.schedule_retry attempt next error k worker) w h =
        plain (schedule_retry-Closes i w.database attempt next error k worker m.now)
    perform-Balanced m (Command.defer_to_next_window at k worker) w h =
        plain (defer_to_next_window-Closes i w.database at k worker m.now)
    perform-Balanced m (Command.update_heartbeat k worker) w h =
        plain (update_heartbeat-Closes i w.database k worker m.now)
    perform-Balanced m (Command.dead_letter_transaction error job attempt worker) w h =
        plain (dead_letter_transaction-Closes i w.database error job attempt worker m.now)
    perform-Balanced m (Command.promote_due lookahead limit) w h =
        plain (promote_due-Closes i w.database lookahead limit m.locked m.now h.unique)
    perform-Balanced m (Command.recover_stale_claimed timeout) w h =
        plain (recover_stale_claimed-Closes i w.database timeout m.now)
    perform-Balanced m (Command.create_job_transaction n key) w h =
        plain (
          committed-Closes _ _ w
            (create_job_transaction-Closes i w.database n key m.fresh_id m.now))
    perform-Balanced m (Command.insert_webhook_log k url status payload http_status attempt) w h =
        plain (insert_webhook_log-Closes i w.database _)
    perform-Balanced m _ w h = plain (omega arith)

    execute-Balanced :
        (m : Moment) (c : Command) (w : World Q L C)
        → IsConsistent w.database
        → Balanced
            (if_done (fault_of c m.fault) (sends i m c w.database))
            (if_done (fault_of c m.fault) (replays i m c w.database))
            w.database
            (execute redis m c w).1.database
    unfolding execute
    execute-Balanced m c w h = by_fault (fault_of c m.fault)
      where
        by_fault :
            (f : Fault)
            → Balanced
                (if_done f (sends i m c w.database))
                (if_done f (replays i m c w.database))
                w.database
                (faulty redis f w (perform redis m c w)).1.database
        by_fault fine = perform-Balanced m c w h
        by_fault lost_before = omega arith
        by_fault lost_after = perform-Balanced m c w h

    Step-Balanced :
        {s u : System Q L C} (st : Step redis s u)
        → IsConsistent s.world.database
        → Balanced
            (count_step sends i st)
            (count_step replays i st)
            s.world.database
            u.world.database
    Step-Balanced (act {s} t m c k e) h = execute-Balanced m c s.world h
    Step-Balanced (die t) h = omega arith
    Step-Balanced (start t p) h = omega arith

    Reach-Balanced :
        {s u : System Q L C} (r : Reach redis s u)
        → IsConsistent s.world.database
        → Balanced
            (count_steps sends i r)
            (count_steps replays i r)
            s.world.database
            u.world.database
    Reach-Balanced here h = omega arith
    Reach-Balanced (later r st) h =
        let before = Reach-Balanced r h in
        let step = Step-Balanced st (Reach-IsConsistent redis r h) in omega arith

  open_row-le : (o : Option Job) → open_row o ≤ 1
  open_row-le none = omega arith
  open_row-le (some j) = ground arith

  -- However the schedulers, workers and requests interleave, whatever fails and whichever
  -- process dies, MARK_SENT takes effect on a job at most once, and once more for each time that an
  -- operator has replayed the job. One whose reply is lost counts. The tables are consistent at first.
  pub sent_once :
      (i : ℕ) {s u : System Q L C} (r : Reach redis s u)
      → IsConsistent s.world.database
      → count_steps sends i r ≤ 1 + count_steps replays i r
  sent_once i {s} {u} r h =
      let balanced = Reach-Balanced i r h in
      let bound = open_row-le (find_job i s.world.database.jobs) in omega arith
