-- ===== src/Consistency/Update.antt =====
-- The invariant through an UPDATE of `jobs`, and through an insertion into each table.
use notify_queue.Base.{
  ℕ, ◌≡◌, refl, Bool, true, false, none, List, [], ◌∷◌, arith, if◌then◌else◌, All, All-map,
  All-both, any,
}
use notify_queue.Schema.{Job, JobStatus, status_eq, DeadLetter, Database}
use notify_queue.Schema.Table.{
  find_job, keyed, IsRow, All-IsRow, update_rows, find_job-update_rows, update_rows-Unique,
}
use notify_queue.Consistency.{Shape, Refers, IsConsistent}

module _ (p : Job → Bool) (f : Job → Job) (same : (j : Job) → (f j).id ≡ j.id) where
  pub All-update_rows :
      {P R : Job → Type 0} (js : List Job)
      → ((j : Job) → R j → p j ≡ true → P (f j))
      → ((j : Job) → R j → P j)
      → All R js
      → All P (update_rows p f js)
  unfolding update_rows
  All-update_rows [] change keep h = tt
  All-update_rows {P} (j ∷ js) change keep h = (head (p j) refl, All-update_rows js change keep h.1)
    where
      head : (b : Bool) → p j ≡ b → P (if b then f j else j)
      head true e = change j h.0 e
      head false e = keep j h.0

  Refers-update_rows : (js : List Job) (i : ℕ) → Refers js i → Refers (update_rows p f js) i
  Refers-update_rows js i h = ground (arith, find_job-update_rows p f same i js)

  -- An update that keeps ids and shapes and makes no job dead-lettered keeps the invariant.
  pub update-IsConsistent :
      (db : Database)
      → ((j : Job) → IsRow db.jobs j → Shape j → p j ≡ true → Shape (f j))
      → ((j : Job) → p j ≡ true → status_eq (f j).status JobStatus.dead_lettered ≡ false)
      → IsConsistent db
      → IsConsistent (record db { jobs = update_rows p f db.jobs })
  update-IsConsistent db shape alive c = record {
    unique = update_rows-Unique p f same db.jobs c.unique;
    shaped =
        All-update_rows db.jobs (λ j h. shape j h.1 h.0) (λ j h. h.0)
          (All-both Shape (IsRow db.jobs) db.jobs c.shaped (All-IsRow db.jobs c.unique));
    lettered = All-update_rows db.jobs (λ j l e. ground (arith, alive j e)) (λ j l. l) c.lettered;
    keys = c.keys;
    key_jobs = All-map db.job_idempotency (λ r. Refers-update_rows db.jobs r.job_id) c.key_jobs;
    letter_jobs =
        All-map db.dead_letter_queue (λ d. Refers-update_rows db.jobs d.job_id) c.letter_jobs;
  }

module _ (job : Job) (js : List Job) (fresh : find_job job.id js ≡ none) where
  pub Refers-insert : (i : ℕ) → Refers js i → Refers (job ∷ js) i
  unfolding find_job
  Refers-insert i h = ground arith

-- A new row with a fresh id.
pub insert-IsConsistent :
    (db : Database) (job : Job)
    → find_job job.id db.jobs ≡ none
    → Shape job
    → status_eq job.status JobStatus.dead_lettered ≡ false
    → IsConsistent db
    → IsConsistent (record db { jobs = job ∷ db.jobs })
insert-IsConsistent db job fresh shape alive c = record {
  unique = (fresh, c.unique);
  shaped = (shape, c.shaped);
  lettered = (ground arith, c.lettered);
  keys = c.keys;
  key_jobs = All-map db.job_idempotency (λ r. Refers-insert job db.jobs fresh r.job_id) c.key_jobs;
  letter_jobs =
      All-map db.dead_letter_queue (λ d. Refers-insert job db.jobs fresh d.job_id) c.letter_jobs;
}

-- A row that turns dead-lettered gets its letter in the same step.
pub letter-IsConsistent :
    (db : Database) (row : DeadLetter) (q : Job → Bool) (f : Job → Job)
    → ((j : Job) → (f j).id ≡ j.id)
    → ((j : Job) → Shape j → Shape (f j))
    → Refers db.jobs row.job_id
    → IsConsistent db
    → IsConsistent (record db {
      jobs = update_rows (keyed row.job_id q) f db.jobs;
      dead_letter_queue = row ∷ db.dead_letter_queue;
    })
unfolding any
letter-IsConsistent db row q f same shape refers c = record {
  unique = update_rows-Unique p f same db.jobs c.unique;
  shaped = All-update_rows p f same db.jobs (λ j s _. shape j s) (λ j s. s) c.shaped;
  lettered =
      All-update_rows p f same db.jobs (λ j l e. ground (arith, same j)) (λ j l. l)
        (All-map db.jobs (λ j l. ground arith) c.lettered);
  keys = c.keys;
  key_jobs =
      All-map db.job_idempotency (λ r. Refers-update_rows p f same db.jobs r.job_id) c.key_jobs;
  letter_jobs = (
    Refers-update_rows p f same db.jobs row.job_id refers,
    All-map db.dead_letter_queue (λ d. Refers-update_rows p f same db.jobs d.job_id) c.letter_jobs,
  );
}
  where
    p : Job → Bool
    p = keyed row.job_id q
