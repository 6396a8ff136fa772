-- ===== src/Tests/Lives.antt =====
-- A job that goes through the system, and loops whose servers fail.
use notify_queue.Base.{
  arith, ℕ, ◌+◌, ◌≡◌, refl, true, false, some, [], ◌∷◌, if◌then◌else◌, ◌==◌, above, ltb,
}
use notify_queue.Schema.{Priority, Job}
use notify_queue.Schema.Table.{find_job}
use notify_queue.Settings.{defaults}
use notify_queue.Redis.Memory.{Entries, Locks, Counters, memory, zpopmin}
use notify_queue.Effects.{ok, err, connection_error, pure, Command}
use notify_queue.Effects.Run.{fine, lost_before, lost_after, Moment, World, run, execute, perform}
use notify_queue.Effects.Fine.{next}
use notify_queue.Statements.Scheduler.{promote_due, recovered_job, recover_stale_claimed}
use notify_queue.Statements.Worker.{beaten_job, update_heartbeat}
use notify_queue.Scheduler.{tick, promote_due_jobs}
use notify_queue.Worker.Loop.{worker_loop}
use notify_queue.Worker.Loop.Survives.{play, worker_loop-Survives}
use notify_queue.Worker.Process.{process_job}
use notify_queue.Worker.Process.Lost.{without_moment, process_job-lost_heartbeat}
use notify_queue.Worker.Heartbeat.Protects.{heartbeat_protects}
use notify_queue.Worker.Claim.{claim_next_job}
use notify_queue.Worker.Delivery.{execute_delivery}
use notify_queue.Worker.Delivery.Jobs.{counted}
use notify_queue.Lifecycle.{Evolves, Became, SameRequest}
use notify_queue.System.{act, die, with_task, here, later}
use notify_queue.System.Evolution.{Step-Evolves, Reach-Evolves}
use notify_queue.System.Journey.{delivered, journey}
use notify_queue.Worker.Process.Alike.{Same, own}
use notify_queue.Worker.Process.Delivers.{process_job-execute_delivery}
use notify_queue.Tests.Rows.{noon, moments, pending_job, claimed, servers}
use notify_queue.Tests.Safety.{due, due-IsConsistent}
use notify_queue.Lifecycle.Outcomes.{waiting, taken}
use notify_queue.Effects.Left.{commands}
use notify_queue.Worker.Heartbeat.{heartbeat_loop}
use notify_queue.Worker.Heartbeat.Beats.{beating, heartbeat_loop-beats}

-- Worker 8 has the job.
abbrev held : World Entries Locks Counters
held = servers (claimed 1 8 ∷ []) []

-- The third command is lost on its way, and the reply to the fifth.
abbrev failing : ℕ → Moment
failing n = record (moments n) {
  fault = if n == 2 then lost_before else if n == 4 then lost_after else fine;
}

worker_loop-Survives_example :
    run memory failing (worker_loop ((false ∷ true ∷ []) ∷ [] ∷ []) 7 defaults) due.world
    ≡ (ok tt, play memory ((false ∷ true ∷ []) ∷ [] ∷ []) 7 defaults failing due.world)
worker_loop-Survives_example =
    worker_loop-Survives memory ((false ∷ true ∷ []) ∷ [] ∷ []) 7 defaults failing due.world

-- The job is promoted.
abbrev after_promotion : World Entries Locks Counters
after_promotion =
    (execute memory (moments 0)
      (Command.promote_due defaults.scheduler_lookahead defaults.scheduler_batch_size) due.world).1

Step-Evolves_example : Evolves Became due.world.database after_promotion.database
unfolding tick
Step-Evolves_example =
    Step-Evolves memory {s = due} {u = record { world = after_promotion; tasks = with_task _ 0 _ }}
      (act 0 (moments 0)
        (Command.promote_due defaults.scheduler_lookahead defaults.scheduler_batch_size) _ refl)
      due-IsConsistent

Reach-Evolves_example : Evolves SameRequest due.world.database after_promotion.database
unfolding tick
Reach-Evolves_example =
    Reach-Evolves memory {s = due}
      {u = record { world = after_promotion; tasks = with_task _ 0 (pure tt) }}
      (later
        (later here (
          act 0 (moments 0)
            (Command.promote_due defaults.scheduler_lookahead defaults.scheduler_batch_size) _
            refl))
        (die 0))
      due-IsConsistent

-- The moments of the worker that claims, and of the delivery.
abbrev claiming : ℕ → Moment
claiming n = moments (n + 10)

abbrev delivering : ℕ → Moment
delivering n = moments (n + 20)

abbrev due_job : Job
due_job = pending_job 1 Priority.high noon

journey_example :
    let w1 = (run memory moments (promote_due_jobs defaults) due.world).1 in
    let w2 = (run memory claiming (claim_next_job 7 defaults) w1).1 in
    let w3 = (run memory delivering (execute_delivery 1 defaults) w2).1 in
    ((run memory claiming (claim_next_job 7 defaults) w1).0 ≡ ok (some 1))
    × (now : ℕ) × (find_job 1 w2.database.jobs ≡ some (taken 7 now (waiting noon due_job)))
    × (find_job 1 w3.database.jobs
        ≡ some (
            delivered defaults delivering
              (above 10 (counted memory due_job (next delivering) w2).0)
              (taken 7 now (waiting noon due_job))))
unfolding find_job zpopmin promote_due_jobs run execute perform promote_due
journey_example =
    journey memory defaults 7 moments claiming delivering due.world due_job refl refl (λ n. refl)
      (λ n. refl) due-IsConsistent refl refl refl refl

-- The second command, the beat behind the first of the delivery, is lost on its way.
abbrev losing : ℕ → Moment
losing n = record (moments n) { fault = if n == 1 then lost_before else fine }

process_job-lost_heartbeat_example :
    run memory losing (process_job (false ∷ true ∷ []) 1 8 defaults) held ≡ (
      err connection_error,
      (run memory (without_moment 1 losing) (execute_delivery 1 defaults) held).1,
    )
unfolding execute_delivery commands
process_job-lost_heartbeat_example =
    process_job-lost_heartbeat memory 1 [] 1 8 defaults losing held (omega arith) refl

heartbeat_loop-beats_example :
    find_job 1 (run memory moments (heartbeat_loop 3 1 8 10_000_000) held).1.database.jobs
    ≡ some (beating (noon + 4) (claimed 1 8))
unfolding find_job
heartbeat_loop-beats_example =
    heartbeat_loop-beats memory 8 10_000_000 2 moments held (claimed 1 8) (λ n. refl) refl
      (8, refl, refl, refl)

-- A beat, and a recovery 31 seconds later.
heartbeat_protects_example :
    find_job 1
      (recover_stale_claimed 30_000_000
        (noon + 31_000_000)
        (update_heartbeat 1 8 noon held.database)).1.jobs
    ≡ some (
        if ltb (noon + 30_000_000) (noon + 31_000_000)
        then recovered_job (noon + 31_000_000) (beaten_job noon (claimed 1 8))
        else beaten_job noon (claimed 1 8))
unfolding find_job
heartbeat_protects_example =
    heartbeat_protects held.database (claimed 1 8) 8 noon 30_000_000 (noon + 31_000_000) refl refl

-- The second command of the delivery fails; the beats, before it and after it, do not.
abbrev stumbling : ℕ → Moment
stumbling n = record (moments n) { fault = if n == 2 then lost_after else fine }

process_job-execute_delivery_example :
    Same memory
      (run memory stumbling (process_job (true ∷ false ∷ false ∷ true ∷ []) 1 8 defaults) held)
      (run memory
        (own (true ∷ false ∷ false ∷ true ∷ []) stumbling)
        (execute_delivery 1 defaults)
        held)
process_job-execute_delivery_example =
    process_job-execute_delivery memory (true ∷ false ∷ false ∷ true ∷ []) 1 8 defaults stumbling
      held (refl, (refl, tt))
