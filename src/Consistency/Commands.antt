-- ===== src/Consistency/Commands.antt =====
-- The tables through each SQL statement.
use notify_queue.Base.{
  ℕ, ◌≡◌, refl, inl, inr, Bool, Option, none, some, [], ◌∷◌, Text, arith, Option-cases, first,
}
use notify_queue.Schema.{Job, Database, WebhookLog, JobStatus, status_eq}
use notify_queue.Schema.Table.{find_job, keyed, update_where, update_where-none, first-returned}
use notify_queue.Statements.Worker
use notify_queue.Statements.Audit
use notify_queue.Statements.Scheduler
use notify_queue.Statements.Api
use notify_queue.Statements.Scheduler.Batch.{is_among-is_due}
use notify_queue.Consistency.{IsConsistent, Shape, Refers}
use notify_queue.Consistency.Update.{update-IsConsistent, insert-IsConsistent, letter-IsConsistent}

module _ (i : ℕ) (q : Job → Bool) (f : Job → Job) where
  pub update_job-IsConsistent :
      (db : Database)
      → ((j : Job) → (f j).id ≡ j.id)
      → ((j : Job) → Shape j → q j ≡ Bool.true → Shape (f j))
      → ((j : Job) → status_eq (f j).status JobStatus.dead_lettered ≡ Bool.false)
      → IsConsistent db
      → IsConsistent (Worker.update_job i q f db).1
  unfolding Worker.update_job
  update_job-IsConsistent db same shape alive c =
      update-IsConsistent (keyed i q) f same db (λ j r s e. shape j s (ground arith))
        (λ j e. alive j) c

module _ (db : Database) (c : IsConsistent db) where
  pub claim_queued_job-IsConsistent :
      (w i now : ℕ) → IsConsistent (Worker.claim_queued_job w i now db).1
  unfolding Worker.claim_queued_job
  claim_queued_job-IsConsistent w i now =
      update_job-IsConsistent i _ _ db (λ j. refl) (λ j s e. ground arith) (λ j. refl) c

  pub mark_sent-IsConsistent :
      (i : ℕ) (w : Option ℕ) (now : ℕ) → IsConsistent (Worker.mark_sent i w now db).1
  unfolding Worker.mark_sent
  mark_sent-IsConsistent i w now =
      update_job-IsConsistent i _ _ db (λ j. refl) (λ j s e. ground arith) (λ j. refl) c

  pub schedule_retry-IsConsistent :
      (attempt next : ℕ) (error : Text) (i : ℕ) (w : Option ℕ) (now : ℕ)
      → IsConsistent (Worker.schedule_retry attempt next error i w now db).1
  unfolding Worker.schedule_retry
  schedule_retry-IsConsistent attempt next error i w now =
      update_job-IsConsistent i _ _ db (λ j. refl) (λ j s e. ground arith) (λ j. refl) c

  pub defer_to_next_window-IsConsistent :
      (at i : ℕ) (w : Option ℕ) (now : ℕ)
      → IsConsistent (Worker.defer_to_next_window at i w now db).1
  unfolding Worker.defer_to_next_window
  defer_to_next_window-IsConsistent at i w now =
      update_job-IsConsistent i _ _ db (λ j. refl) (λ j s e. ground arith) (λ j. refl) c

  pub retry_dead_lettered-IsConsistent :
      (i now : ℕ) → IsConsistent (Api.retry_dead_lettered i now db).1
  unfolding Api.retry_dead_lettered
  retry_dead_lettered-IsConsistent i now =
      update_job-IsConsistent i _ _ db (λ j. refl) (λ j s e. ground arith) (λ j. refl) c

  pub promote_due-IsConsistent :
      (lookahead limit : ℕ) (locked : ℕ → Bool) (now : ℕ)
      → IsConsistent (Scheduler.promote_due lookahead limit locked now db).1
  unfolding Scheduler.promote_due
  promote_due-IsConsistent lookahead limit locked now =
      update-IsConsistent _ _ (λ j. refl) db
        (λ j r s e. ground (arith, is_among-is_due lookahead limit locked now db j c.unique r e))
        (λ j e. refl) c

  pub recover_stale_claimed-IsConsistent :
      (timeout now : ℕ) → IsConsistent (Scheduler.recover_stale_claimed timeout now db).1
  unfolding Scheduler.recover_stale_claimed
  recover_stale_claimed-IsConsistent timeout now =
      update-IsConsistent _ _ (λ j. refl) db (λ j r s e. ground arith) (λ j e. refl) c

  pub update_heartbeat-IsConsistent :
      (i w now : ℕ) → IsConsistent (Worker.update_heartbeat i w now db)
  unfolding Worker.update_heartbeat
  update_heartbeat-IsConsistent i w now =
      update-IsConsistent _ _ (λ j. refl) db (λ j r s e. ground arith) (λ j e. ground arith) c

  pub dead_letter_transaction-IsConsistent :
      (error : Text) (job : Job) (attempt : ℕ) (w : Option ℕ) (now : ℕ)
      → IsConsistent (Audit.dead_letter_transaction error job attempt w now db).1
  unfolding Audit.dead_letter_transaction Audit.mark_dead_lettered Audit.insert_if_marked
      update_where
  dead_letter_transaction-IsConsistent error job attempt w now = elim (Option-cases marked) [
    | inl e ↦ rw e (rw (update_where-none p f db.jobs e) c)
    | inr (j, e) ↦ rw e (
        letter-IsConsistent db (Audit.dead_letter_row job attempt error now) (Audit.is_expected w) f
          (λ j. refl) (λ j s. ground arith) (is_there j e) c)
  ]
    where
      f : Job → Job
      f = Audit.dead_job error attempt now

      p : Job → Bool
      p = keyed job.id (Audit.is_expected w)

      marked : Option Job
      marked = first (update_where p f db.jobs).0

      is_there : (j : Job) → marked ≡ some j → Refers db.jobs job.id
      is_there j e = ground (arith, first-returned job.id (Audit.is_expected w) f db.jobs c.unique)

  pub insert_webhook_log-IsConsistent :
      (row : WebhookLog) → IsConsistent (Audit.insert_webhook_log row db)
  unfolding Audit.insert_webhook_log
  insert_webhook_log-IsConsistent row = record {
    unique = c.unique;
    shaped = c.shaped;
    lettered = c.lettered;
    keys = c.keys;
    key_jobs = c.key_jobs;
    letter_jobs = c.letter_jobs;
  }

-- What an insertion yields, if it is not refused.
abbrev pub IfDone : (Database → Type 0) → Option Database → Type 0
IfDone P none = Unit
IfDone P (some db) = P db

module _ (db : Database) (c : IsConsistent db) where
  insert_job-IsConsistent :
      (n : Api.NewJob) (id now : ℕ)
      → IfDone (λ db'. IsConsistent db' × Refers db'.jobs id) (Api.insert_job n id now db)
  unfolding Api.insert_job find_job
  insert_job-IsConsistent n id now = elim (Option-cases (find_job id db.jobs)) [
    | inl fresh ↦
        rw (fresh, IfDone)
          (
            insert-IsConsistent db (Api.new_job n id now) fresh ((refl, refl, refl), refl) refl c,
            ground arith,
          )
    | inr (j, taken) ↦ rw (taken, IfDone) tt
  ]

  insert_key-IsConsistent :
      (k : Text) (id now : ℕ)
      → Refers db.jobs id
      → IfDone IsConsistent (Api.insert_idempotency_key k id now db)
  unfolding Api.insert_idempotency_key
  insert_key-IsConsistent k id now refers =
      elim (Option-cases (Api.find_key k db.job_idempotency)) [
        | inl fresh ↦
            rw (fresh, IfDone)
              (record {
                unique = c.unique;
                shaped = c.shaped;
                lettered = c.lettered;
                keys = (fresh, c.keys);
                key_jobs = (refers, c.key_jobs);
                letter_jobs = c.letter_jobs;
              })
        | inr (j, taken) ↦ rw (taken, IfDone) tt
      ]

insert_key_if_given-IsConsistent :
    (key : Option Text) (id now : ℕ) (o : Option Database)
    → IfDone (λ db. IsConsistent db × Refers db.jobs id) o
    → IfDone IsConsistent (Api.insert_key_if_given key id now o)
unfolding Api.insert_key_if_given
insert_key_if_given-IsConsistent key id now none h = tt
insert_key_if_given-IsConsistent none id now (some db) h = h.0
insert_key_if_given-IsConsistent (some []) id now (some db) h = h.0
insert_key_if_given-IsConsistent (some (x ∷ k)) id now (some db) h =
    insert_key-IsConsistent db h.0 (x ∷ k) id now h.1

-- A transaction that violates a key is rolled back, and one that commits keeps the invariant.
pub create_job_transaction-IsConsistent :
    (n : Api.NewJob) (key : Option Text) (id now : ℕ) (db : Database)
    → IsConsistent db
    → IfDone IsConsistent (Api.create_job_transaction n key id now db)
unfolding Api.create_job_transaction
create_job_transaction-IsConsistent n key id now db c =
    insert_key_if_given-IsConsistent key id now (Api.insert_job n id now db)
      (insert_job-IsConsistent db c n id now)
