-- ===== src/Statements/Audit/Transaction.antt =====
-- The transaction of `dead_letter` in src/notify_queue/dlq.py: what it marks and what it inserts.
use notify_queue.Base.{
  ℕ, ◌≡◌, refl, ap, ◌∙◌, inl, inr, true, false, Option, none, some, ◌∷◌, Text, Bool-cases,
}
use notify_queue.Schema.{Job, Database}
use notify_queue.Schema.Table.{find_job, Unique}
use notify_queue.Statements.Worker.{update_job}
use notify_queue.Statements.Worker.Row.{update_job-reply, update_job-refused, update_job-row}
use notify_queue.Statements.Audit.{
  is_expected, dead_job, mark_dead_lettered, insert_if_marked, dead_letter_transaction,
}
use notify_queue.Lifecycle.Outcomes.{
  given_up, letter_of, same_worker, eq→same_worker, same_worker→eq,
}

module _ (error : Text) (i attempt : ℕ) (w : Option ℕ) (now : ℕ) (db : Database)
    (u : Unique db.jobs) where
  mark_refused :
      {j : Job}
      → find_job i db.jobs ≡ some j
      → is_expected w j ≡ false
      → mark_dead_lettered error i attempt w now db ≡ (none, db)
  unfolding mark_dead_lettered
  mark_refused e differs = update_job-refused i (is_expected w) _ db u e differs

  marked_reply :
      {j : Job}
      → find_job i db.jobs ≡ some j
      → is_expected w j ≡ true
      → (mark_dead_lettered error i attempt w now db).0 ≡ some (dead_job error attempt now j)
  unfolding mark_dead_lettered
  marked_reply e fits = update_job-reply i (is_expected w) _ db u ∙ rw e (rw fits)

  marked_row :
      {j : Job}
      → find_job i db.jobs ≡ some j
      → is_expected w j ≡ true
      → find_job i (mark_dead_lettered error i attempt w now db).1.jobs
        ≡ some (dead_job error attempt now j)
  unfolding mark_dead_lettered
  marked_row e fits = update_job-row i (is_expected w) _ db u (λ j. refl) ∙ rw e (rw fits)

  marked_letters :
      (mark_dead_lettered error i attempt w now db).1.dead_letter_queue ≡ db.dead_letter_queue
  unfolding mark_dead_lettered update_job
  marked_letters = refl

-- With the job's row in the table, the transaction of `dead_letter` commits exactly if the row's
-- worker is the expected one, or neither is named, whatever the row's status. If it does, the row is
-- dead-lettered with the error, the attempts and the time of failure, in no worker's hands, its other
-- columns as they were, and its letter stands at the head of the queue. If it does not, nothing
-- changes.
-- No id stands twice.
pub dead_letter_transaction_lem :
    (error : Text) (job : Job) (attempt : ℕ) (w : Option ℕ) (now : ℕ) (db : Database) {j : Job}
    → Unique db.jobs
    → find_job job.id db.jobs ≡ some j
    → let (marked, db') = dead_letter_transaction error job attempt w now db in
      (j.worker_id ≡ w
        → (marked ≡ true)
          × (find_job job.id db'.jobs ≡ some (given_up error attempt now j))
          × (db'.dead_letter_queue ≡ letter_of job attempt error now ∷ db.dead_letter_queue))
      × (¬ (j.worker_id ≡ w) → dead_letter_transaction error job attempt w now db ≡ (false, db))
unfolding dead_letter_transaction insert_if_marked
dead_letter_transaction_lem error job attempt w now db {j} u e = (
  λ same.
      let fits = eq→same_worker j.worker_id w same in
      rw (marked_reply error job.id attempt w now db u e fits) (
        refl,
        marked_row error job.id attempt w now db u e fits,
        ap (λ l. letter_of job attempt error now ∷ l)
            (marked_letters error job.id attempt w now db u),
      ),
  λ differs. elim (Bool-cases (same_worker j.worker_id w)) [
    | inl fits ↦ absurd (differs (same_worker→eq j.worker_id w fits))
    | inr fails ↦ rw (mark_refused error job.id attempt w now db u e fails) refl
  ],
)
