-- ===== src/Lifecycle.antt =====
-- The life of a job, as an abstract view of the tables of migrations/001_initial.sql: what was asked
-- for, which status may follow which, and the rows that stay.
pub mod Commands
pub mod Closed
pub mod Outcomes
use notify_queue.Base.{
  ℕ, ◌≡◌, Bool, true, false, some, Text, List, if◌then◌else◌, if_both, arith, ap, ◌∙◌,
}
use notify_queue.Schema.{Job, JobStatus, Database}
use notify_queue.Schema.Table.{
  find_job, find_job-id, IsRow, update_rows, find_job-update_rows, updated,
}
use notify_queue.Consistency.{has_letter}
use notify_queue.Statements.Api.{find_key}

-- May a row of the first status have the second after one statement?
abbrev pub may_become : JobStatus → JobStatus → Bool
may_become JobStatus.pending JobStatus.pending = true
may_become JobStatus.pending JobStatus.queued = true
may_become JobStatus.queued JobStatus.queued = true
may_become JobStatus.queued JobStatus.claimed = true
may_become JobStatus.claimed JobStatus.claimed = true
may_become JobStatus.claimed JobStatus.sent = true
may_become JobStatus.claimed JobStatus.pending = true
may_become JobStatus.sent JobStatus.sent = true
may_become JobStatus.failed JobStatus.failed = true
may_become JobStatus.dead_lettered JobStatus.pending = true
may_become s JobStatus.dead_lettered = true
may_become s t = false

-- The columns that the request fixed.
pub record SameRequest (a b : Job) : Type 0 where
  pub id : b.id ≡ a.id
  pub recipient : b.recipient ≡ a.recipient
  pub channel : b.channel ≡ a.channel
  pub payload : b.payload ≡ a.payload
  pub priority : b.priority ≡ a.priority
  pub max_attempts : b.max_attempts ≡ a.max_attempts
  pub callback_url : b.callback_url ≡ a.callback_url
  pub created_at : b.created_at ≡ a.created_at

-- One step of a row: the same request, and a status that may follow.
abbrev pub Became : Job → Job → Type 0
Became a b = SameRequest a b × (may_become a.status b.status ≡ true)

-- From one state of the tables to a later one: every job is still there, with a row that the relation
-- allows, and every key and every letter is, too.
pub record Evolves (R : Job → Job → Type 0) (db db' : Database) : Type 0 where
  pub jobs :
      (i : ℕ) (j : Job)
      → find_job i db.jobs ≡ some j
      → (j' : Job) × (find_job i db'.jobs ≡ some j') × R j j'
  pub keys :
      (k : Text) (i : ℕ)
      → find_key k db.job_idempotency ≡ some i
      → find_key k db'.job_idempotency ≡ some i
  pub letters :
      (i : ℕ) → has_letter db.dead_letter_queue i ≡ true → has_letter db'.dead_letter_queue i ≡ true

pub stays : (j : Job) → Became j j
stays j = ground arith

pub Evolves-refl : (db : Database) → Evolves Became db db
Evolves-refl db = record { jobs = λ i j e. (j, e, stays j); keys = λ k i e. e; letters = λ i e. e }

-- The rows through an UPDATE whose change to each row is a step.
pub update_rows-Became :
    (p : Job → Bool) (f : Job → Job) (js : List Job) (i : ℕ) (j : Job)
    → ((j : Job) → (f j).id ≡ j.id)
    → ((j : Job) → IsRow js j → p j ≡ true → Became j (f j))
    → find_job i js ≡ some j
    → (j' : Job) × (find_job i (update_rows p f js) ≡ some j') × Became j j'
update_rows-Became p f js i j same change e = (
  if p j then f j else j,
  find_job-update_rows p f same i js ∙ ap (updated p f) e,
  if_both (Became j) (p j) (f j) j
      (λ t. change j (ap (λ k. find_job k js) (find_job-id i js e) ∙ e) t) (λ _. stays j),
)

pub update-Evolves :
    (p : Job → Bool) (f : Job → Job) (db : Database)
    → ((j : Job) → (f j).id ≡ j.id)
    → ((j : Job) → IsRow db.jobs j → p j ≡ true → Became j (f j))
    → Evolves Became db (record db { jobs = update_rows p f db.jobs })
update-Evolves p f db same change = record {
  jobs = λ i j. update_rows-Became p f db.jobs i j same change;
  keys = λ k i e. e;
  letters = λ i e. e;
}

-- Without the steps between: the request alone.
pub Evolves-trans :
    {a b c : Database} → Evolves SameRequest a b → Evolves Became b c → Evolves SameRequest a c
Evolves-trans ab bc = record {
  jobs = λ i j e.
      let (j', e', r) = ab.jobs i j e in
      let (j'', e'', s) = bc.jobs i j' e' in (j'', e'', same_trans r s.0);
  keys = λ k i e. bc.keys k i (ab.keys k i e);
  letters = λ i e. bc.letters i (ab.letters i e);
}
  where
    same_trans : {x y z : Job} → SameRequest x y → SameRequest y z → SameRequest x z
    same_trans p q = ground arith
