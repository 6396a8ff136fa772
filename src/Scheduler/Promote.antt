-- ===== src/Scheduler/Promote.antt =====
-- `promote_due_jobs` of src/notify_queue/scheduler/scheduler.py, in the table and in Redis.
use notify_queue.Base.{
  ℕ, ◌≡◌, refl, ap, ◌∙◌, Bool, true, false, some, List, map, ◌==◌, All, All-map, All-map_list,
  All-select, any-map, select,
}
use notify_queue.Schema.{Job}
use notify_queue.Schema.Table.{
  find_job, IsRow, All-IsRow, Unique, update_rows, any-select, find_job-update_rows, updated,
}
use notify_queue.Settings.{Settings}
use notify_queue.Redis.{Redis}
use notify_queue.Statements.Scheduler.{due_batch, is_among, queued_job, promote_due}
use notify_queue.Effects.{Command}
use notify_queue.Effects.Run.{Moment, fine, World, run, perform, zadd_rows}
use notify_queue.Effects.Fine.{next, run-call}
use notify_queue.Scheduler.{priority_score, queue_entry, promote_due_jobs}
use notify_queue.Scheduler.Enqueue.{zadd_rows-score}
use notify_queue.Scheduler.Sweeps.{enqueue_found-queues, promote-jobs}
use notify_queue.Lifecycle.Outcomes.{waiting}

-- The batch that one promotion takes.
abbrev pub promoted : {Q L C : Type 0} → Settings → Moment → World Q L C → List Job
promoted settings m w =
    due_batch settings.scheduler_lookahead settings.scheduler_batch_size m.locked m.now w.database

module _ (p : Job → Bool) (now : ℕ) (js : List Job) where
  updated-IsRow :
      (b : Job)
      → IsRow js b
      → p b ≡ true
      → IsRow (update_rows p (queued_job now) js) (queued_job now b)
  updated-IsRow b found e =
      find_job-update_rows p (queued_job now) (λ j. refl) b.id js
      ∙ ap (updated p (queued_job now)) found
      ∙ rw e

  returned_rows :
      Unique js
      → All (IsRow (update_rows p (queued_job now) js)) (map (queued_job now) (select p js))
  returned_rows u =
      All-map_list (IsRow (update_rows p (queued_job now) js)) (queued_job now) (select p js) (
        All-map (select p js) (λ b h. updated-IsRow b h.0 h.1)
          (All-select (IsRow js) p js (All-IsRow js u)))

  is_returned :
      (j : Job) → IsRow js j → p j ≡ true → is_among (map (queued_job now) (select p js)) j ≡ true
  is_returned j row e =
      any-map (λ b. b.id == j.id) (queued_job now) (select p js) ∙ any-select p j.id js row e

module _ {Q L C : Type 0} (redis : Redis Q L C) where
  promote-queues :
      (settings : Settings) (s : ℕ → Moment) (w : World Q L C)
      → (s 0).fault ≡ fine
      → (s 1).fault ≡ fine
      → (run redis s (promote_due_jobs settings) w).1.queues
        ≡ zadd_rows redis
            (map queue_entry (
              map
                (queued_job (s 0).now)
                (select (is_among (promoted settings (s 0) w)) w.database.jobs)))
            w.queues
  unfolding promote_due_jobs perform promote_due
  promote-queues settings s w h h' =
      ap (λ r. r.1.queues)
        (run-call redis s
          (Command.promote_due settings.scheduler_lookahead settings.scheduler_batch_size) _ w h)
      ∙ enqueue_found-queues redis _ (next s) _ h'

  -- After a promotion whose two commands do not fail, on a table in which no id stands twice: each job
  -- of the batch is queued, in the table, its other columns as they were, and in the Redis queue of its
  -- priority under its score; a job that is not in the batch has the row that it had.
  pub promote_due_jobs-row :
      (settings : Settings) (s : ℕ → Moment) (w : World Q L C) (j : Job)
      → (s 0).fault ≡ fine
      → (s 1).fault ≡ fine
      → Unique w.database.jobs
      → IsRow w.database.jobs j
      → let w' = (run redis s (promote_due_jobs settings) w).1 in
        (is_among (promoted settings (s 0) w) j ≡ true
          → (find_job j.id w'.database.jobs ≡ some (waiting (s 0).now j))
            × (redis.zscore j.priority j.id w'.queues ≡ some (priority_score j.priority j.send_at)))
        × (is_among (promoted settings (s 0) w) j ≡ false → find_job j.id w'.database.jobs ≡ some j)
  promote_due_jobs-row settings s w j h h' u row =
      let p = is_among (promoted settings (s 0) w) in
      let js = w.database.jobs in
      let table =
        ap (find_job j.id) (promote-jobs redis settings s w h)
        ∙ find_job-update_rows p (queued_job (s 0).now) (λ b. refl) j.id js
        ∙ ap (updated p (queued_job (s 0).now)) row in
      (
        λ e. (
          table ∙ rw e,
          ap (redis.zscore j.priority j.id) (promote-queues settings s w h h')
              ∙ zadd_rows-score (update_rows p (queued_job (s 0).now) js) (queued_job (s 0).now j)
                  (updated-IsRow p (s 0).now js j row e) redis
                  (map (queued_job (s 0).now) (select p js)) w.queues
                  (returned_rows p (s 0).now js u) (is_returned p (s 0).now js j row e),
        ),
        λ e. table ∙ rw e,
      )
