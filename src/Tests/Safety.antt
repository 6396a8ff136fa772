-- ===== src/Tests/Safety.antt =====
-- A system in which a scheduler dies, and a sweep over a job that its worker abandoned.
use notify_queue.Base.{◌≡◌, refl, true, false, some, [], ◌∷◌}
use notify_queue.Schema.{Priority, Job}
use notify_queue.Schema.Table.{find_job}
use notify_queue.Settings.{defaults}
use notify_queue.Redis.Memory.{Entries, Locks, Counters, memory}
use notify_queue.Effects.{response, pure, Command}
use notify_queue.Effects.Run.{execute, run, World}
use notify_queue.Scheduler.{tick, recover_stale_claimed_jobs}
use notify_queue.Consistency.{IsConsistent, has_letter}
use notify_queue.Scheduler.Recover.Rows.{Dead}
use notify_queue.Scheduler.Recover.{recover_stale_claimed_jobs-row}
use notify_queue.System.{System, act, die, with_task, here, later}
use notify_queue.System.Safety.{Reach-IsConsistent}
use notify_queue.Tests.Rows.{noon, moments, pending_job, claimed, servers}
use notify_queue.Lifecycle.Outcomes.{recovered}

abbrev pub due : System Entries Locks Counters
due = record {
  world = servers (pending_job 1 Priority.high noon ∷ []) [];
  tasks = λ t. tick defaults;
}

pub due-IsConsistent : IsConsistent due.world.database
unfolding find_job
due-IsConsistent = record {
  unique = (refl, tt);
  shaped = (((refl, refl, refl), refl), tt);
  lettered = (refl, tt);
  keys = tt;
  key_jobs = tt;
  letter_jobs = tt;
}

-- The scheduler has promoted the job and dies before it has told Redis.
Reach-IsConsistent_example :
    IsConsistent
      (execute memory
        (moments 0)
        (Command.promote_due defaults.scheduler_lookahead defaults.scheduler_batch_size)
        due.world).1.database
unfolding tick
Reach-IsConsistent_example =
    Reach-IsConsistent memory {s = due}
      {u = record {
        world =
            (execute memory (moments 0)
              (Command.promote_due defaults.scheduler_lookahead defaults.scheduler_batch_size)
              due.world).1;
        tasks = with_task _ 0 (pure tt);
      }}
      (later
        (later here (
          act 0 (moments 0)
            (Command.promote_due defaults.scheduler_lookahead defaults.scheduler_batch_size) _
            refl))
        (die 0))
      due-IsConsistent

-- Worker 8 claimed the job for its last attempt, and has been silent since.
abbrev silent : Job
silent = record (claimed 1 8) { heartbeat_at = some 0 }

abbrev abandoned : World Entries Locks Counters
abandoned = servers (silent ∷ []) []

abandoned-IsConsistent : IsConsistent abandoned.database
unfolding find_job
abandoned-IsConsistent = record {
  unique = (refl, tt);
  shaped = (((refl, refl, refl), refl), tt);
  lettered = (refl, tt);
  keys = tt;
  key_jobs = tt;
  letter_jobs = tt;
}

recover_stale_claimed_jobs-row_example :
    let r = recovered noon silent in
    let w' = (run memory moments (recover_stale_claimed_jobs defaults) abandoned).1 in
    (true ≡ true
      → Dead memory defaults r refl w' × (has_letter w'.database.dead_letter_queue 1 ≡ true))
    × (true ≡ false → find_job 1 w'.database.jobs ≡ some r)
unfolding find_job
recover_stale_claimed_jobs-row_example =
    recover_stale_claimed_jobs-row memory defaults moments abandoned silent
      (λ n. refl, λ n. (response 500, refl)) abandoned-IsConsistent refl refl
