-- ===== src/Seeding.antt =====
-- scripts/seed.py, which fills the tables with rows of every status. What the random numbers choose is
-- a `Draw` for each job, the ids and clocks of the server included. Each statement is a transaction of
-- its own; `false` is the exception of a violated key, which ends the script.
pub mod Rows
pub mod Added
pub mod Tally
pub mod Shapes
use notify_queue.Base.{
  ℕ, zero, suc, ◌+◌, ◌*◌, ◌^◌, Bool, true, false, Option, none, some, List, [], ◌∷◌, ◌++◌, Text,
  codes, if◌then◌else◌, leb,
}
use notify_queue.Base.Float.{float_of, float_round}
use notify_queue.Schema.{Job, Database}
use notify_queue.Schema.Table.{find_job}
use notify_queue.Statements.Api.{insert_idempotency_key}
use notify_queue.Statements.Audit.{insert_dead_letter, insert_webhook_log}
use Rows.{
  Draw, Kind, sent_row, pending_future_row, retrying_row, queued_row, claimed_row,
  dead_lettered_row, sent_time, failed_time, seeded_letter, seeded_log,
}

-- Did the statements so far succeed, and the tables after them?
abbrev pub Seeded : Type 0
Seeded = Bool × Database

abbrev pub and_then : Seeded → (Database → Seeded) → Seeded
and_then (false, db) next = (false, db)
and_then (true, db) next = next db

abbrev pub committed_or : Database → Option Database → Seeded
committed_or db none = (false, db)
committed_or db (some db') = (true, db')

unfoldable pub insert_row : Job → Database → Seeded
unfolding find_job
insert_row job db = elim (find_job job.id db.jobs) [
  | none ↦ (true, record db { jobs = job ∷ db.jobs })
  | some _ ↦ (false, db)
]

-- A fifth of the jobs get a key that is made from their id.
unfoldable pub insert_key : Draw → Database → Seeded
unfolding insert_idempotency_key
insert_key d db =
    if d.keyed
    then committed_or db (insert_idempotency_key (codes "seed-" ++ d.id_text) d.id d.clock db)
    else (true, db)

-- `insert`: the row, then perhaps its key.
unfoldable pub insert : Draw → Job → Database → Seeded
unfolding insert_row insert_key
insert d job db = and_then (insert_row job db) (insert_key d)

-- `if not job["callback_url"]: return`
unfoldable pub log_webhook : Job → Text → ℕ → Database → Seeded
unfolding insert_webhook_log
log_webhook job status at db = elim job.callback_url [
  | none ↦ (true, db)
  | some url ↦ (true, insert_webhook_log (seeded_log job.id url status at) db)
]

unfoldable pub letter_and_log : ℕ → Draw → Job → Database → Seeded
unfolding log_webhook insert_dead_letter
letter_and_log now d job db =
    log_webhook job (codes "dead_lettered") (failed_time now d)
      (insert_dead_letter (seeded_letter d job) db)

-- The six functions `seed_sent` to `seed_dead_lettered`; `sequence` counts the jobs.
unfoldable pub seed : Kind → ℕ → ℕ → Draw → Database → Seeded
unfolding insert log_webhook letter_and_log
seed Kind.sent now sequence d db =
    let job = sent_row now sequence d in
    and_then (insert d job db) (log_webhook job (codes "sent") (sent_time now d))
seed Kind.pending_future now sequence d db = insert d (pending_future_row now sequence d) db
seed Kind.retrying now sequence d db = insert d (retrying_row now sequence d) db
seed Kind.queued now sequence d db = insert d (queued_row now sequence d) db
seed Kind.claimed now sequence d db = insert d (claimed_row now sequence d) db
seed Kind.dead_lettered now sequence d db =
    let job = dead_lettered_row now sequence d in
    and_then (insert d job db) (letter_and_log now d job)

-- The floats 0.50, 0.15, 0.10, 0.05, 0.05 and 0.15, in units of 2 ^ -57.
abbrev pub share_of : Kind → ℕ
share_of Kind.sent = 72_057_594_037_927_936
share_of Kind.pending_future = 21_617_278_211_378_380
share_of Kind.retrying = 14_411_518_807_585_588
share_of Kind.queued = 7_205_759_403_792_794
share_of Kind.claimed = 7_205_759_403_792_794
share_of Kind.dead_lettered = 21_617_278_211_378_380

-- `max(1, round(total * share))`
abbrev pub count_for : ℕ → Kind → ℕ
count_for total kind =
    let rounded = float_round (float_of (total * share_of kind) (2 ^ 57)) in
    if leb 1 rounded then rounded else 1

-- `count` jobs of one kind, with the draws from place `i` on, and then the rest.
unfoldable pub seed_count :
    Kind → ℕ → ℕ → (ℕ → Draw) → ℕ → (ℕ → Database → Seeded) → Database → Seeded
unfolding seed
seed_count kind zero now draws i rest db = rest i db
seed_count kind (suc count) now draws i rest db =
    and_then (seed kind now (i + 1) (draws i) db) (seed_count kind count now draws (i + 1) rest)

abbrev pub kinds : List Kind
kinds =
    Kind.sent ∷ Kind.pending_future ∷ Kind.retrying ∷ Kind.queued ∷ Kind.claimed
    ∷ Kind.dead_lettered ∷ []

unfoldable pub seed_kinds : List Kind → ℕ → ℕ → (ℕ → Draw) → ℕ → Database → Seeded
unfolding seed_count
seed_kinds [] total now draws i db = (true, db)
seed_kinds (kind ∷ more) total now draws i db =
    seed_count kind (count_for total kind) now draws i (seed_kinds more total now draws) db

-- `run`; the draws are numbered from 0, and `sequence` from 1.
unfoldable pub run_seeder : ℕ → ℕ → (ℕ → Draw) → Database → Seeded
unfolding seed_kinds
run_seeder total now draws db = seed_kinds kinds total now draws 0 db

-- TRUNCATE of the four tables.
abbrev pub wiped : Database
wiped = record { jobs = []; job_idempotency = []; dead_letter_queue = []; webhook_log = [] }

-- `main` with its option `--wipe`.
unfoldable pub seed_main : Bool → ℕ → ℕ → (ℕ → Draw) → Database → Seeded
unfolding run_seeder
seed_main wipe total now draws db = run_seeder total now draws (if wipe then wiped else db)
