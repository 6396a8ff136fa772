-- ===== src/Lifecycle/Commands.antt =====
-- The life of the jobs through each SQL statement that writes.
use notify_queue.Base.{
  ℕ, ◌≡◌, refl, inl, inr, Bool, true, Option, none, some, [], ◌∷◌, Text, arith, Option-cases, first,
  text_eq_iff, any,
}
use notify_queue.Schema.{Job, Database, WebhookLog}
use notify_queue.Schema.Table.{find_job, keyed, update_where, update_where-none, Unique}
use notify_queue.Statements.Worker
use notify_queue.Statements.Audit
use notify_queue.Statements.Scheduler
use notify_queue.Statements.Api
use notify_queue.Statements.Scheduler.Batch.{is_among-is_due}
use notify_queue.Consistency.Commands.{IfDone}
use notify_queue.Lifecycle.{
  Became, stays, Evolves, Evolves-refl, update_rows-Became, update-Evolves,
}

module _ (db : Database) where
  update_job-Evolves :
      (i : ℕ) (q : Job → Bool) (f : Job → Job)
      → ((j : Job) → (f j).id ≡ j.id)
      → ((j : Job) → q j ≡ true → Became j (f j))
      → Evolves Became db (Worker.update_job i q f db).1
  unfolding Worker.update_job
  update_job-Evolves i q f same change =
      update-Evolves (keyed i q) f db same (λ j r e. change j (ground arith))

  pub claim_queued_job-Evolves :
      (w i now : ℕ) → Evolves Became db (Worker.claim_queued_job w i now db).1
  unfolding Worker.claim_queued_job
  claim_queued_job-Evolves w i now = update_job-Evolves i _ _ (λ j. refl) (λ j e. ground arith)

  pub mark_sent-Evolves :
      (i : ℕ) (w : Option ℕ) (now : ℕ) → Evolves Became db (Worker.mark_sent i w now db).1
  unfolding Worker.mark_sent
  mark_sent-Evolves i w now = update_job-Evolves i _ _ (λ j. refl) (λ j e. ground arith)

  pub schedule_retry-Evolves :
      (attempt next : ℕ) (error : Text) (i : ℕ) (w : Option ℕ) (now : ℕ)
      → Evolves Became db (Worker.schedule_retry attempt next error i w now db).1
  unfolding Worker.schedule_retry
  schedule_retry-Evolves attempt next error i w now =
      update_job-Evolves i _ _ (λ j. refl) (λ j e. ground arith)

  pub defer_to_next_window-Evolves :
      (at i : ℕ) (w : Option ℕ) (now : ℕ)
      → Evolves Became db (Worker.defer_to_next_window at i w now db).1
  unfolding Worker.defer_to_next_window
  defer_to_next_window-Evolves at i w now =
      update_job-Evolves i _ _ (λ j. refl) (λ j e. ground arith)

  pub update_heartbeat-Evolves :
      (i w now : ℕ) → Evolves Became db (Worker.update_heartbeat i w now db)
  unfolding Worker.update_heartbeat
  update_heartbeat-Evolves i w now = update_job-Evolves i _ _ (λ j. refl) (λ j e. ground arith)

  pub retry_dead_lettered-Evolves :
      (i now : ℕ) → Evolves Became db (Api.retry_dead_lettered i now db).1
  unfolding Api.retry_dead_lettered
  retry_dead_lettered-Evolves i now = update_job-Evolves i _ _ (λ j. refl) (λ j e. ground arith)

  pub promote_due-Evolves :
      (lookahead limit : ℕ) (locked : ℕ → Bool) (now : ℕ)
      → Unique db.jobs
      → Evolves Became db (Scheduler.promote_due lookahead limit locked now db).1
  unfolding Scheduler.promote_due
  promote_due-Evolves lookahead limit locked now u =
      update-Evolves _ _ db (λ j. refl)
        (λ j r e. ground (arith, is_among-is_due lookahead limit locked now db j u r e))

  pub recover_stale_claimed-Evolves :
      (timeout now : ℕ) → Evolves Became db (Scheduler.recover_stale_claimed timeout now db).1
  unfolding Scheduler.recover_stale_claimed
  recover_stale_claimed-Evolves timeout now =
      update-Evolves _ _ db (λ j. refl) (λ j r e. ground arith)

  pub insert_webhook_log-Evolves :
      (row : WebhookLog) → Evolves Became db (Audit.insert_webhook_log row db)
  unfolding Audit.insert_webhook_log
  insert_webhook_log-Evolves row = record {
    jobs = λ i j e. (j, e, stays j);
    keys = λ k i e. e;
    letters = λ i e. e;
  }

  pub dead_letter_transaction-Evolves :
      (error : Text) (job : Job) (attempt : ℕ) (w : Option ℕ) (now : ℕ)
      → Evolves Became db (Audit.dead_letter_transaction error job attempt w now db).1
  unfolding Audit.dead_letter_transaction Audit.mark_dead_lettered Audit.insert_if_marked
      update_where any
  dead_letter_transaction-Evolves error job attempt w now = elim (Option-cases marked) [
    | inl e ↦ rw e (rw (update_where-none p f db.jobs e) (Evolves-refl db))
    | inr (j, e) ↦ rw e (record {
      jobs = λ i j. update_rows-Became p f db.jobs i j (λ j. refl) (λ j r e. ground arith);
      keys = λ k i e. e;
      letters = λ i e. ground arith;
    })
  ]
    where
      f : Job → Job
      f = Audit.dead_job error attempt now

      p : Job → Bool
      p = keyed job.id (Audit.is_expected w)

      marked : Option Job
      marked = first (update_where p f db.jobs).0

  insert_job-Evolves :
      (n : Api.NewJob) (id now : ℕ) → IfDone (Evolves Became db) (Api.insert_job n id now db)
  unfolding Api.insert_job find_job
  insert_job-Evolves n id now = elim (Option-cases (find_job id db.jobs)) [
    | inl fresh ↦
        rw (fresh, IfDone)
          (record {
            jobs = λ i j e. (j, ground (arith, fresh), stays j);
            keys = λ k i e. e;
            letters = λ i e. e;
          })
    | inr (j, taken) ↦ rw (taken, IfDone) tt
  ]

insert_key-Evolves :
    (db db' : Database) (k : Text) (id now : ℕ)
    → Evolves Became db db'
    → IfDone (Evolves Became db) (Api.insert_idempotency_key k id now db')
unfolding Api.insert_idempotency_key Api.find_key
insert_key-Evolves db db' k id now h = elim (Option-cases (Api.find_key k db'.job_idempotency)) [
  | inl fresh ↦
      rw (fresh, IfDone)
        (record {
          jobs = h.jobs;
          keys = λ l i e. ground (arith, h.keys l i e, text_eq_iff k l, fresh);
          letters = h.letters;
        })
  | inr (j, taken) ↦ rw (taken, IfDone) tt
]

insert_key_if_given-Evolves :
    (db : Database) (key : Option Text) (id now : ℕ) (o : Option Database)
    → IfDone (Evolves Became db) o
    → IfDone (Evolves Became db) (Api.insert_key_if_given key id now o)
unfolding Api.insert_key_if_given
insert_key_if_given-Evolves db key id now none h = tt
insert_key_if_given-Evolves db none id now (some db') h = h
insert_key_if_given-Evolves db (some []) id now (some db') h = h
insert_key_if_given-Evolves db (some (x ∷ k)) id now (some db') h =
    insert_key-Evolves db db' (x ∷ k) id now h

pub create_job_transaction-Evolves :
    (db : Database) (n : Api.NewJob) (key : Option Text) (id now : ℕ)
    → IfDone (Evolves Became db) (Api.create_job_transaction n key id now db)
unfolding Api.create_job_transaction
create_job_transaction-Evolves db n key id now =
    insert_key_if_given-Evolves db key id now (Api.insert_job n id now db)
      (insert_job-Evolves db n id now)
