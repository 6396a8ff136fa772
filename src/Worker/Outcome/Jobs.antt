-- ===== src/Worker/Outcome/Jobs.antt =====
-- What the outcomes of src/notify_queue/worker/delivery.py do to the table of jobs.
use notify_queue.Base.{
  ℕ, ◌+◌, ◌*◌, ◌^◌, ◌≡◌, refl, ap, ◌∙◌, Option, none, some, List, Text, arith, if◌then◌else◌, leb,
  if_both, inl, inr, Bool-cases,
}
use notify_queue.Schema.{Job, Database, DeadLetter, microseconds}
use notify_queue.Schema.Table.{keyed, update_rows}
use notify_queue.Settings.{Settings}
use notify_queue.Redis.{Redis}
use notify_queue.Statements.Worker.{mark_sent, schedule_retry, defer_to_next_window}
use notify_queue.Statements.Audit.{insert_if_marked, dead_letter_transaction, mark_dead_lettered}
use notify_queue.Effects.{Command, Program, pure}
use notify_queue.Effects.Run.{Moment, fine, World, run, perform}
use notify_queue.Effects.Fine.{next, run-call}
use notify_queue.Effects.Keeps.{Keeps, run-Keeps, Keeps-await, Keeps-then, Keeps-view}
use notify_queue.Webhooks.Isolation.{without_log, fire_webhook-Isolated}
use notify_queue.Webhooks.{fire_webhook}
use notify_queue.Dlq.{dead_letter, dead_lettered_text}
use notify_queue.Worker.Outcome.{
  announce, sent_text, failed_text, retry_delay, retry_later, handle_success, handle_failure,
  release_if_deferred, defer_job,
}
use notify_queue.Lifecycle.Outcomes.{
  is_held_by, delivered_at, retry_due, postponed, is_of, given_up,
}

abbrev pub jobs_of : {Q L C : Type 0} → World Q L C → List Job
jobs_of w = w.database.jobs

module _ {Q L C : Type 0} (redis : Redis Q L C) where
  abbrev KeepsJobs : {A : Type 0} → Program A → Type 0
  KeepsJobs = Keeps redis jobs_of

  fire_webhook-KeepsJobs :
      (i : ℕ) (url : Option Text) (status : Text) (n : ℕ) → KeepsJobs (fire_webhook i url status n)
  fire_webhook-KeepsJobs i url status n =
      Keeps-view redis without_log (λ w. w.database.jobs) _
        (fire_webhook-Isolated redis i url status n)

  announce-KeepsJobs :
      (job : Job) (status : Text) (settings : Settings) (o : Option Job)
      → KeepsJobs (announce job status settings o)
  unfolding announce perform
  announce-KeepsJobs job status settings none = tt
  announce-KeepsJobs job status settings (some j) =
      Keeps-then redis jobs_of (Command.delete_lock job.id) _ (λ m w. refl)
        λ _. fire_webhook-KeepsJobs job.id job.callback_url status settings.webhook_max_attempts

  -- A delivery that went well marks exactly the claimed row as sent, if the worker still owns it.
  pub handle_success-jobs :
      (job : Job) (settings : Settings) (s : ℕ → Moment) (w : World Q L C)
      → (s 0).fault ≡ fine
      → jobs_of (run redis s (handle_success job settings) w).1
        ≡ update_rows (keyed job.id (is_held_by job.worker_id)) (delivered_at (s 0).now) (jobs_of w)
  unfolding handle_success perform mark_sent
  handle_success-jobs job settings s w h =
      ap (λ r. jobs_of r.1) (run-call redis s (Command.mark_sent job.id job.worker_id) _ w h)
      ∙ run-Keeps redis jobs_of _ (announce-KeepsJobs job sent_text settings _) (next s) _

  insert_if_marked-jobs :
      (o : Option Job) (row : DeadLetter) (db : Database)
      → (insert_if_marked o row db).1.jobs ≡ db.jobs
  unfolding insert_if_marked
  insert_if_marked-jobs none row db = refl
  insert_if_marked-jobs (some j) row db = refl

  dead_letter_transaction-jobs :
      (error : Text) (job : Job) (attempt : ℕ) (e : Option ℕ) (now : ℕ) (db : Database)
      → (dead_letter_transaction error job attempt e now db).1.jobs
        ≡ update_rows (keyed job.id (is_of e)) (given_up error attempt now) db.jobs
  unfolding dead_letter_transaction mark_dead_lettered
  dead_letter_transaction-jobs error job attempt e now db =
      insert_if_marked-jobs _ _ (mark_dead_lettered error job.id attempt e now db).1

  -- Behind the transaction only the lock and the webhook are left.
  pub dead_letter-jobs :
      (job : Job) (error : Text) (attempt : ℕ) (settings : Settings) (e : Option ℕ) (s : ℕ → Moment)
      (w : World Q L C)
      → (s 0).fault ≡ fine
      → jobs_of (run redis s (dead_letter job error attempt settings e) w).1
        ≡ update_rows (keyed job.id (is_of e)) (given_up error attempt (s 0).now) (jobs_of w)
  unfolding dead_letter perform
  dead_letter-jobs job error attempt settings e s w h =
      ap (λ r. jobs_of r.1)
        (run-call redis s (Command.dead_letter_transaction error job attempt e) _ w h)
      ∙ run-Keeps redis jobs_of _
          (if_both KeepsJobs (dead_letter_transaction error job attempt e (s 0).now w.database).0 _
            (pure tt)
            (λ _.
              Keeps-then redis jobs_of (Command.delete_lock job.id) _ (λ m w. refl)
                λ _.
                  fire_webhook-KeepsJobs job.id job.callback_url dead_lettered_text
                    settings.webhook_max_attempts)
            (λ _. tt))
          (next s) _
      ∙ dead_letter_transaction-jobs error job attempt e (s 0).now w.database

  retry_later-jobs :
      (job : Job) (error : Text) (settings : Settings) (attempt : ℕ) (s : ℕ → Moment)
      (w : World Q L C)
      → (s 0).fault ≡ fine
      → (s 1).fault ≡ fine
      → jobs_of (run redis s (retry_later job error settings attempt) w).1
        ≡ update_rows
            (keyed job.id (is_held_by job.worker_id))
            (retry_due attempt ((s 0).now + retry_delay settings attempt) error (s 1).now)
            (jobs_of w)
  unfolding retry_later perform schedule_retry
  retry_later-jobs job error settings attempt s w h h' =
      ap (λ r. jobs_of r.1) (run-call redis s Command.read_clock _ w h)
      ∙ ap (λ r. jobs_of r.1)
          (run-call redis (next s)
            (Command.schedule_retry attempt ((s 0).now + retry_delay settings attempt) error job.id
              job.worker_id)
            _ w h')
      ∙ run-Keeps redis jobs_of _ (announce-KeepsJobs job failed_text settings _) (next (next s)) _

  -- A delivery that failed, whose first two commands do not fail: with attempts left, the row that is
  -- claimed in the worker's name goes back to pending with one attempt more, in no worker's hands, and due
  -- base * 2 ^ (attempts so far) later; with none left, the row that names the worker that was fetched is
  -- dead-lettered with the error and the time. No other row changes.
  pub handle_failure-jobs :
      (job : Job) (error : Text) (settings : Settings) (s : ℕ → Moment) (w : World Q L C)
      → (s 0).fault ≡ fine
      → (s 1).fault ≡ fine
      → jobs_of (run redis s (handle_failure job error settings) w).1 ≡ (
          if leb job.max_attempts (job.attempt_count + 1)
          then update_rows
              (keyed job.id (is_of job.worker_id))
              (given_up error (job.attempt_count + 1) (s 0).now)
              (jobs_of w)
          else update_rows
              (keyed job.id (is_held_by job.worker_id))
              (retry_due
                (job.attempt_count + 1)
                ((s 0).now + settings.base_retry_delay * 2 ^ job.attempt_count)
                error
                (s 1).now)
              (jobs_of w))
  unfolding handle_failure
  handle_failure-jobs job error settings s w h h' =
      elim (Bool-cases (leb job.max_attempts (job.attempt_count + 1))) [
        | inl last ↦
            rw last
              (dead_letter-jobs job error (job.attempt_count + 1) settings job.worker_id s w h)
        | inr more ↦ rw more (
            retry_later-jobs job error settings (job.attempt_count + 1) s w h h'
            ∙ ap
                (λ n.
                  update_rows (keyed job.id (is_held_by job.worker_id))
                    (retry_due (job.attempt_count + 1)
                      ((s 0).now + settings.base_retry_delay * 2 ^ n) error (s 1).now)
                    (jobs_of w))
                (omega arith))
      ]

  release_if_deferred-KeepsJobs :
      (job : Job) (o : Option Job) → KeepsJobs (release_if_deferred job o)
  unfolding release_if_deferred perform
  release_if_deferred-KeepsJobs job none = tt
  release_if_deferred-KeepsJobs job (some j) =
      Keeps-await redis jobs_of (Command.delete_lock job.id) (λ m w. refl)

  -- A rate-limited job goes back to pending with its attempts unchanged, for `retry_after` seconds on.
  pub defer_job-jobs :
      (job : Job) (retry_after : ℕ) (s : ℕ → Moment) (w : World Q L C)
      → (s 0).fault ≡ fine
      → (s 1).fault ≡ fine
      → jobs_of (run redis s (defer_job job retry_after) w).1
        ≡ update_rows
            (keyed job.id (is_held_by job.worker_id))
            (postponed ((s 0).now + microseconds retry_after) (s 1).now)
            (jobs_of w)
  unfolding defer_job perform defer_to_next_window
  defer_job-jobs job retry_after s w h h' =
      ap (λ r. jobs_of r.1) (run-call redis s Command.read_clock _ w h)
      ∙ ap (λ r. jobs_of r.1)
          (run-call redis (next s)
            (Command.defer_to_next_window ((s 0).now + microseconds retry_after) job.id
              job.worker_id)
            _ w h')
      ∙ run-Keeps redis jobs_of _ (release_if_deferred-KeepsJobs job _) (next (next s)) _
