-- ===== src/Consistency.antt =====
-- Well-formed tables of migrations/001_initial.sql: the meaning of a status in the other columns of a
-- row, the keys, and the rows that other tables refer to.
pub mod Update
pub mod Commands
use notify_queue.Base.{
  ℕ, ◌≡◌, Bool, true, false, not, ◌||◌, Option, none, some, List, [], ◌∷◌, ◌==◌, All, any,
}
use notify_queue.Schema.{Job, JobStatus, status_eq, IdempotencyKey, DeadLetter, Database}
use notify_queue.Schema.Table.{find_job, Unique}
use notify_queue.Statements.Api.{find_key}

abbrev pub is_some : {A : Type 0} → Option A → Bool
is_some none = false
is_some (some _) = true

-- Nobody holds the job.
abbrev pub IsUnowned : Job → Type 0
IsUnowned j = (j.worker_id ≡ none) × (j.claimed_at ≡ none) × (j.heartbeat_at ≡ none)

-- Somebody does, or did.
abbrev pub IsHeld : Job → Type 0
IsHeld j =
    (is_some j.worker_id ≡ true) × (is_some j.claimed_at ≡ true) × (is_some j.heartbeat_at ≡ true)

abbrev pub ShapeOf : JobStatus → Job → Type 0
ShapeOf JobStatus.pending j = IsUnowned j × (j.failed_at ≡ none)
ShapeOf JobStatus.queued j = IsUnowned j × (j.failed_at ≡ none)
ShapeOf JobStatus.claimed j = IsHeld j × (j.failed_at ≡ none)
ShapeOf JobStatus.sent j = IsHeld j × (j.failed_at ≡ none) × (is_some j.sent_at ≡ true)
ShapeOf JobStatus.failed j = ⊥
ShapeOf JobStatus.dead_lettered j = IsUnowned j × (is_some j.failed_at ≡ true)

-- The other columns agree with the status, and no row has the status `failed`.
abbrev pub Shape : Job → Type 0
Shape j = ShapeOf j.status j

abbrev pub has_letter : List DeadLetter → ℕ → Bool
has_letter letters i = any (λ d. d.job_id == i) letters

-- A dead-lettered job has a row in the dead-letter queue.
abbrev pub Lettered : List DeadLetter → Job → Type 0
Lettered letters j =
    (not (status_eq j.status JobStatus.dead_lettered) || has_letter letters j.id) ≡ true

abbrev pub UniqueKeys : List IdempotencyKey → Type 0
UniqueKeys [] = Unit
UniqueKeys (r ∷ rows) = (find_key r.idempotency_key rows ≡ none) × UniqueKeys rows

abbrev pub Refers : List Job → ℕ → Type 0
Refers js i = is_some (find_job i js) ≡ true

pub record IsConsistent (db : Database) : Type 0 where
  pub unique : Unique db.jobs
  pub shaped : All Shape db.jobs
  pub lettered : All (Lettered db.dead_letter_queue) db.jobs
  pub keys : UniqueKeys db.job_idempotency
  pub key_jobs : All (λ r. Refers db.jobs r.job_id) db.job_idempotency
  pub letter_jobs : All (λ d. Refers db.jobs d.job_id) db.dead_letter_queue
