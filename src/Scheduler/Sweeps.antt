-- ===== src/Scheduler/Sweeps.antt =====
-- Promotion and the rescue of queued jobs, as runs of the scheduler.
use notify_queue.Base.{
  ℕ, ◌≤◌, ◌≡◌, refl, ap, ◌∙◌, true, false, some, List, [], ◌∷◌, map, ◌==◌, All-map, All-take,
  All-select, take, take_all, select, length, ◌++◌, select-append, take-append_le, any-take-false,
  any-select-false,
}
use notify_queue.Schema.{Job}
use notify_queue.Schema.Table.{IsRow, All-IsRow, Unique, update_rows, any-select}
use notify_queue.Settings.{Settings}
use notify_queue.Redis.{Redis}
use notify_queue.Statements.Scheduler.{
  due_batch, is_among, queued_job, promote_due, is_stale_queued, requeue_stale_queued,
}
use notify_queue.Effects.{Command}
use notify_queue.Effects.Run.{Moment, fine, World, run, perform, zadd_rows}
use notify_queue.Effects.Fine.{next, run-call, run-pure}
use notify_queue.Effects.Keeps.{Keeps, run-Keeps, Keeps-then}
use notify_queue.Scheduler.{
  priority_score, queue_entry, enqueue_found, ids, promote_due_jobs, requeue_stale_queued_jobs,
}
use notify_queue.Scheduler.Enqueue.{zadd_rows-score, zadd_rows-other, entry_absent}

module _ {Q L C : Type 0} (redis : Redis Q L C) where
  pub enqueue_found-queues :
      (rows : List Job) (s : ℕ → Moment) (w : World Q L C)
      → (s 0).fault ≡ fine
      → (run redis s (enqueue_found rows) w).1.queues
        ≡ zadd_rows redis (map queue_entry rows) w.queues
  unfolding enqueue_found perform
  enqueue_found-queues [] s w h = ap (λ r. r.1.queues) (run-pure redis s [] w)
  enqueue_found-queues (b ∷ rows) s w h =
      ap (λ r. r.1.queues) (run-call redis s (Command.zadd_all (map queue_entry (b ∷ rows))) _ w h)
      ∙ ap (λ r. r.1.queues) (run-pure redis (next s) (ids (b ∷ rows)) _)

  pub enqueue_found-Keeps : (rows : List Job) → Keeps redis (λ w. w.database) (enqueue_found rows)
  unfolding enqueue_found perform
  enqueue_found-Keeps [] = tt
  enqueue_found-Keeps (b ∷ rows) =
      Keeps-then redis (λ w. w.database) (Command.zadd_all (map queue_entry (b ∷ rows))) _
        (λ m w. refl) (λ _. tt)

  -- The rescue of queued jobs.
  requeue-queues :
      (settings : Settings) (s : ℕ → Moment) (w : World Q L C)
      → (s 0).fault ≡ fine
      → (s 1).fault ≡ fine
      → (run redis s (requeue_stale_queued_jobs settings) w).1.queues
        ≡ zadd_rows redis
            (map queue_entry (
              requeue_stale_queued settings.queued_requeue settings.scheduler_batch_size
                (s 0).now
                w.database))
            w.queues
  unfolding requeue_stale_queued_jobs perform
  requeue-queues settings s w h h' =
      ap (λ r. r.1.queues)
        (run-call redis s
          (Command.requeue_stale_queued settings.queued_requeue settings.scheduler_batch_size) _ w
          h)
      ∙ enqueue_found-queues _ (next s) w h'

  requeue-database :
      (settings : Settings) (s : ℕ → Moment) (w : World Q L C)
      → (run redis s (requeue_stale_queued_jobs settings) w).1.database ≡ w.database
  unfolding requeue_stale_queued_jobs perform
  requeue-database settings =
      run-Keeps redis (λ w. w.database) (requeue_stale_queued_jobs settings)
        (Keeps-then redis (λ w. w.database)
          (Command.requeue_stale_queued settings.queued_requeue settings.scheduler_batch_size) _
          (λ m w. refl) enqueue_found-Keeps)

  -- A job that has been queued for longer than `queued_requeue` is in its queue, under its score, after
  -- one sweep, if at most `scheduler_batch_size` jobs have been: whatever Redis lost, the table says
  -- what to put back. The sweep does not change the tables.
  -- Its two commands do not fail, and no id stands twice.
  pub requeue_rescues :
      (settings : Settings) (s : ℕ → Moment) (w : World Q L C) (j : Job)
      → (s 0).fault ≡ fine
      → (s 1).fault ≡ fine
      → Unique w.database.jobs
      → IsRow w.database.jobs j
      → is_stale_queued settings.queued_requeue (s 0).now j ≡ true
      → length (select (is_stale_queued settings.queued_requeue (s 0).now) w.database.jobs)
        ≤ settings.scheduler_batch_size
      → (redis.zscore j.priority j.id (run redis s (requeue_stale_queued_jobs settings) w).1.queues
          ≡ some (priority_score j.priority j.send_at))
        × ((run redis s (requeue_stale_queued_jobs settings) w).1.database ≡ w.database)
  unfolding requeue_stale_queued
  requeue_rescues settings s w j h h' u row stale few =
      let rows = select (is_stale_queued settings.queued_requeue (s 0).now) w.database.jobs in
      (
        ap (redis.zscore j.priority j.id) (requeue-queues settings s w h h')
            ∙ zadd_rows-score w.database.jobs j row redis (take settings.scheduler_batch_size rows)
                w.queues
                (All-take (IsRow w.database.jobs) settings.scheduler_batch_size rows (
                  All-map rows (λ b k. k.0)
                    (All-select (IsRow w.database.jobs) _ w.database.jobs
                      (All-IsRow w.database.jobs u))))
                (ap (λ l. is_among l j) (take_all settings.scheduler_batch_size rows few)
                  ∙ any-select _ j.id w.database.jobs row stale),
        requeue-database settings s w,
      )

  -- The sweep takes the first stale jobs that the server scans, and leaves no trace: if a full batch of
  -- them comes before a job, that job keeps the place in Redis that it has, which may be none, and the
  -- tables do not change, so that the same holds at the next sweep.
  -- Its two commands do not fail.
  pub requeue_starves :
      (settings : Settings) (s : ℕ → Moment) (w : World Q L C) (front back : List Job) (j : Job)
      → (s 0).fault ≡ fine
      → (s 1).fault ≡ fine
      → w.database.jobs ≡ front ++ back
      → settings.scheduler_batch_size
        ≤ length (select (is_stale_queued settings.queued_requeue (s 0).now) front)
      → is_among front j ≡ false
      → (redis.zscore j.priority j.id (run redis s (requeue_stale_queued_jobs settings) w).1.queues
          ≡ redis.zscore j.priority j.id w.queues)
        × ((run redis s (requeue_stale_queued_jobs settings) w).1.database ≡ w.database)
  unfolding requeue_stale_queued
  requeue_starves settings s w front back j h h' order full missed =
      let stale = is_stale_queued settings.queued_requeue (s 0).now in
      let n = settings.scheduler_batch_size in
      (
        ap (redis.zscore j.priority j.id) (requeue-queues settings s w h h')
            ∙ zadd_rows-other redis j.priority j.id _ w.queues (
                entry_absent j _ (
                  ap (λ l. is_among (take n (select stale l)) j) order
                  ∙ ap (λ l. is_among (take n l) j) (select-append stale front back)
                  ∙ ap (λ l. is_among l j)
                      (take-append_le n (select stale front) (select stale back) full)
                  ∙ any-take-false (λ b. b.id == j.id) n (select stale front)
                      (any-select-false (λ b. b.id == j.id) stale front missed))),
        requeue-database settings s w,
      )

  -- Promotion changes the table by PROMOTE_DUE_JOBS alone, also if ZADD then fails.
  pub promote-jobs :
      (settings : Settings) (s : ℕ → Moment) (w : World Q L C)
      → (s 0).fault ≡ fine
      → (run redis s (promote_due_jobs settings) w).1.database.jobs
        ≡ update_rows
            (is_among (
              due_batch settings.scheduler_lookahead settings.scheduler_batch_size
                (s 0).locked
                (s 0).now
                w.database))
            (queued_job (s 0).now)
            w.database.jobs
  unfolding promote_due_jobs perform promote_due
  promote-jobs settings s w h =
      ap (λ r. r.1.database.jobs)
        (run-call redis s
          (Command.promote_due settings.scheduler_lookahead settings.scheduler_batch_size) _ w h)
      ∙ ap (λ db. db.jobs)
          (run-Keeps redis (λ w. w.database) (enqueue_found _) (enqueue_found-Keeps _) (next s) _)
