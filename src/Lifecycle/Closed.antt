-- ===== src/Lifecycle/Closed.antt =====
-- Jobs that are over: sent, dead-lettered or failed. Which statements of src/notify_queue end a job,
-- and which open it again.
pub mod Counted
use notify_queue.Base.{
  ℕ, ◌≤◌, ◌≡◌, refl, inl, inr, Bool, true, false, Option, none, some, Text, arith, if◌then◌else◌,
  if_both, Option-cases, subst, sym, ap, ◌∙◌, [], ◌∷◌,
}
use notify_queue.Schema.{Job, JobStatus, Database, WebhookLog}
use notify_queue.Schema.Table.{
  find_job, IsRow, find_job-id, find_job-update_rows, update_rows, keyed, Unique, update_where,
}
use notify_queue.Statements.Worker
use notify_queue.Statements.Audit
use notify_queue.Statements.Scheduler
use notify_queue.Statements.Api
use notify_queue.Statements.Scheduler.Batch.{is_among-is_due}
use notify_queue.Consistency.Commands.{IfDone}

abbrev pub is_open : JobStatus → Bool
is_open JobStatus.pending = true
is_open JobStatus.queued = true
is_open JobStatus.claimed = true
is_open _ = false

-- 1 for a job that may still be sent, which includes one that is not in the table yet.
abbrev pub open_row : Option Job → ℕ
open_row none = 1
open_row (some j) = if is_open j.status then 1 else 0

abbrev pub openness : ℕ → Database → ℕ
openness i db = open_row (find_job i db.jobs)

module _ (i : ℕ) (db : Database) where
  -- The statement does not open the job.
  abbrev pub Closes : Database → Type 0
  Closes db' = openness i db' ≤ openness i db

  update-Closes :
      (p : Job → Bool) (f : Job → Job)
      → ((j : Job) → (f j).id ≡ j.id)
      → ((j : Job)
          → IsRow db.jobs j
          → j.id ≡ i
          → p j ≡ true
          → open_row (some (f j)) ≤ open_row (some j))
      → Closes (record db { jobs = update_rows p f db.jobs })
  update-Closes p f same change =
      subst (λ o. open_row o ≤ open_row (find_job i db.jobs))
        (sym (find_job-update_rows p f same i db.jobs))
        (elim (Option-cases (find_job i db.jobs)) [
          | inl e ↦ rw e (omega arith)
          | inr (j, e) ↦ rw e (
              if_both (λ k. open_row (some k) ≤ open_row (some j)) (p j) (f j) j
                (change j (ap (λ k. find_job k db.jobs) (find_job-id i db.jobs e) ∙ e)
                  (find_job-id i db.jobs e))
                (λ _. omega arith))
        ])

  pub update_job-Closes :
      (k : ℕ) (q : Job → Bool) (f : Job → Job)
      → ((j : Job) → (f j).id ≡ j.id)
      → ((j : Job) → k ≡ i → q j ≡ true → open_row (some (f j)) ≤ open_row (some j))
      → Closes (Worker.update_job k q f db).1
  unfolding Worker.update_job update_where
  update_job-Closes k q f same change =
      update-Closes (keyed k q) f same (λ j r own e. change j (ground arith) (ground arith))

  pub claim_queued_job-Closes : (w k now : ℕ) → Closes (Worker.claim_queued_job w k now db).1
  unfolding Worker.claim_queued_job
  claim_queued_job-Closes w k now = update_job-Closes k _ _ (λ j. refl) (λ j own e. ground arith)

  pub schedule_retry-Closes :
      (attempt next : ℕ) (error : Text) (k : ℕ) (w : Option ℕ) (now : ℕ)
      → Closes (Worker.schedule_retry attempt next error k w now db).1
  unfolding Worker.schedule_retry
  schedule_retry-Closes attempt next error k w now =
      update_job-Closes k _ _ (λ j. refl) (λ j own e. ground arith)

  pub defer_to_next_window-Closes :
      (at k : ℕ) (w : Option ℕ) (now : ℕ) → Closes (Worker.defer_to_next_window at k w now db).1
  unfolding Worker.defer_to_next_window
  defer_to_next_window-Closes at k w now =
      update_job-Closes k _ _ (λ j. refl) (λ j own e. ground arith)

  pub update_heartbeat-Closes : (k w now : ℕ) → Closes (Worker.update_heartbeat k w now db)
  unfolding Worker.update_heartbeat
  update_heartbeat-Closes k w now = update_job-Closes k _ _ (λ j. refl) (λ j own e. ground arith)

  pub promote_due-Closes :
      (lookahead limit : ℕ) (locked : ℕ → Bool) (now : ℕ)
      → Unique db.jobs
      → Closes (Scheduler.promote_due lookahead limit locked now db).1
  unfolding Scheduler.promote_due Scheduler.update_jobs update_where
  promote_due-Closes lookahead limit locked now u =
      update-Closes _ _ (λ j. refl)
        (λ j r own e. ground (arith, is_among-is_due lookahead limit locked now db j u r e))

  pub recover_stale_claimed-Closes :
      (timeout now : ℕ) → Closes (Scheduler.recover_stale_claimed timeout now db).1
  unfolding Scheduler.recover_stale_claimed Scheduler.update_jobs update_where
  recover_stale_claimed-Closes timeout now =
      update-Closes _ _ (λ j. refl) (λ j r own e. ground arith)

  pub dead_letter_transaction-Closes :
      (error : Text) (job : Job) (attempt : ℕ) (w : Option ℕ) (now : ℕ)
      → Closes (Audit.dead_letter_transaction error job attempt w now db).1
  unfolding Audit.dead_letter_transaction Audit.insert_if_marked Audit.insert_dead_letter
      Audit.mark_dead_lettered
  dead_letter_transaction-Closes error job attempt w now =
      elim (Option-cases (Audit.mark_dead_lettered error job.id attempt w now db).0) [
        | inl e ↦ rw e marked
        | inr (j, e) ↦ rw e marked
      ]
    where
      marked : Closes (Audit.mark_dead_lettered error job.id attempt w now db).1
      marked = update_job-Closes job.id _ _ (λ j. refl) (λ j own e. ground arith)

  pub insert_webhook_log-Closes : (row : WebhookLog) → Closes (Audit.insert_webhook_log row db)
  unfolding Audit.insert_webhook_log
  insert_webhook_log-Closes row = omega arith

  insert_job-Closes : (n : Api.NewJob) (id now : ℕ) → IfDone Closes (Api.insert_job n id now db)
  unfolding Api.insert_job find_job
  insert_job-Closes n id now = elim (Option-cases (find_job id db.jobs)) [
    | inl fresh ↦ rw (fresh, IfDone) (ground (arith, fresh))
    | inr (j, taken) ↦ rw (taken, IfDone) tt
  ]

  insert_key-Closes :
      (k : Text) (id now : ℕ) (db' : Database)
      → Closes db'
      → IfDone Closes (Api.insert_idempotency_key k id now db')
  unfolding Api.insert_idempotency_key
  insert_key-Closes k id now db' h = elim (Option-cases (Api.find_key k db'.job_idempotency)) [
    | inl fresh ↦ rw (fresh, IfDone) h
    | inr (j, taken) ↦ rw (taken, IfDone) tt
  ]

  insert_key_if_given-Closes :
      (key : Option Text) (id now : ℕ) (o : Option Database)
      → IfDone Closes o
      → IfDone Closes (Api.insert_key_if_given key id now o)
  unfolding Api.insert_key_if_given
  insert_key_if_given-Closes key id now none h = tt
  insert_key_if_given-Closes none id now (some db') h = h
  insert_key_if_given-Closes (some []) id now (some db') h = h
  insert_key_if_given-Closes (some (x ∷ k)) id now (some db') h =
      insert_key-Closes (x ∷ k) id now db' h

  pub create_job_transaction-Closes :
      (n : Api.NewJob) (key : Option Text) (id now : ℕ)
      → IfDone Closes (Api.create_job_transaction n key id now db)
  unfolding Api.create_job_transaction
  create_job_transaction-Closes n key id now =
      insert_key_if_given-Closes key id now (Api.insert_job n id now db)
        (insert_job-Closes n id now)
