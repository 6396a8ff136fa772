-- ===== src/Seeding/Added.antt =====
-- One job of scripts/seed.py, in tables in which its id and its key are new.
use notify_queue.Base.{
  ℕ, ◌≡◌, refl, ap, ◌∙◌, true, none, List, ◌∷◌, ◌++◌, Text, codes, if◌then◌else◌, Option-cases,
  Bool-cases, inl, inr,
}
use notify_queue.Schema.{Job, JobStatus, Database, IdempotencyKey}
use notify_queue.Schema.Table.{find_job}
use notify_queue.Statements.Api.{find_key, insert_idempotency_key}
use notify_queue.Statements.Audit.{insert_dead_letter, insert_webhook_log}
use notify_queue.Seeding.Rows.{
  Draw, Kind, base_job, sent_row, pending_future_row, retrying_row, queued_row, claimed_row,
  dead_lettered_row,
}
use notify_queue.Seeding.{Seeded, insert_row, insert_key, insert, log_webhook, letter_and_log, seed}

abbrev pub key_of : Draw → Text
key_of d = codes "seed-" ++ d.id_text

-- The id of a draw and its key are not in use.
abbrev pub IsNew : Draw → Database → Type 0
IsNew d db = (find_job d.id db.jobs ≡ none) × (find_key (key_of d) db.job_idempotency ≡ none)

-- The keys, with the job's if it gets one.
abbrev pub keys_after : Draw → Database → List IdempotencyKey
keys_after d db =
    if d.keyed
    then record { idempotency_key = key_of d; job_id = d.id; created_at = d.clock }
      ∷ db.job_idempotency
    else db.job_idempotency

abbrev pub with_row : Draw → Job → Database → Database
with_row d job db = record db { jobs = job ∷ db.jobs; job_idempotency = keys_after d db }

module _ (d : Draw) (job : Job) (db : Database) (same : job.id ≡ d.id) (new : IsNew d db) where
  insert_row-new : insert_row job db ≡ (true, record db { jobs = job ∷ db.jobs })
  unfolding insert_row
  insert_row-new = rw (insert_row, ap (λ i. find_job i db.jobs) same ∙ new.0) refl

  pub insert-new : insert d job db ≡ (true, with_row d job db)
  unfolding insert insert_key insert_idempotency_key
  insert-new = elim (Bool-cases d.keyed) [
    | inl e ↦ rw insert_row-new (rw e (rw (insert_idempotency_key, new.1) refl))
    | inr e ↦ rw insert_row-new (rw e refl)
  ]

-- What stays as it was behind the insertion.
abbrev pub SameJobs : Database → Seeded → Type 0
SameJobs db r = (r.0 ≡ true) × (r.1.jobs ≡ db.jobs) × (r.1.job_idempotency ≡ db.job_idempotency)

pub log_webhook-SameJobs :
    (job : Job) (status : Text) (at : ℕ) (db : Database)
    → SameJobs db (log_webhook job status at db)
unfolding log_webhook insert_webhook_log
log_webhook-SameJobs job status at db = elim (Option-cases job.callback_url) [
  | inl e ↦ rw e (refl, refl, refl)
  | inr (url, e) ↦ rw e (refl, refl, refl)
]

letter_and_log-SameJobs :
    (now : ℕ) (d : Draw) (job : Job) (db : Database) → SameJobs db (letter_and_log now d job db)
unfolding letter_and_log insert_dead_letter
letter_and_log-SameJobs now d job db = log_webhook-SameJobs job _ _ _

abbrev pub status_of : Kind → JobStatus
status_of Kind.sent = JobStatus.sent
status_of Kind.pending_future = JobStatus.pending
status_of Kind.retrying = JobStatus.pending
status_of Kind.queued = JobStatus.queued
status_of Kind.claimed = JobStatus.claimed
status_of Kind.dead_lettered = JobStatus.dead_lettered

-- A row of the kind's status in front of the jobs, and perhaps its key.
abbrev pub AddsRow : Kind → Draw → Database → Seeded → Type 0
AddsRow kind d db r =
    (r.0 ≡ true)
    × (job : Job) × (r.1.jobs ≡ job ∷ db.jobs)
    × (job.id ≡ d.id)
    × (job.status ≡ status_of kind)
    × (r.1.job_idempotency ≡ keys_after d db)

pub seed-AddsRow :
    (kind : Kind) (now sequence : ℕ) (d : Draw) (db : Database)
    → IsNew d db
    → AddsRow kind d db (seed kind now sequence d db)
unfolding seed sent_row pending_future_row retrying_row queued_row claimed_row dead_lettered_row
    base_job
seed-AddsRow Kind.sent now sequence d db new =
    let job = sent_row now sequence d in
    rw (insert-new d job db refl new) (
      let (done, jobs, keys) = log_webhook-SameJobs job _ _ (with_row d job db) in
      (done, job, jobs, refl, refl, keys))
seed-AddsRow Kind.pending_future now sequence d db new =
    rw (insert-new d (pending_future_row now sequence d) db refl new)
      (refl, _, refl, refl, refl, refl)
seed-AddsRow Kind.retrying now sequence d db new =
    rw (insert-new d (retrying_row now sequence d) db refl new) (refl, _, refl, refl, refl, refl)
seed-AddsRow Kind.queued now sequence d db new =
    rw (insert-new d (queued_row now sequence d) db refl new) (refl, _, refl, refl, refl, refl)
seed-AddsRow Kind.claimed now sequence d db new =
    rw (insert-new d (claimed_row now sequence d) db refl new) (refl, _, refl, refl, refl, refl)
seed-AddsRow Kind.dead_lettered now sequence d db new =
    let job = dead_lettered_row now sequence d in
    rw (insert-new d job db refl new) (
      let (done, jobs, keys) = letter_and_log-SameJobs now d job (with_row d job db) in
      (done, job, jobs, refl, refl, keys))
