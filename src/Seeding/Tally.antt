-- ===== src/Seeding/Tally.antt =====
-- `run` of scripts/seed.py: how many jobs of each status it leaves.
use notify_queue.Base.{
  ℕ, zero, suc, ◌+◌, ◌*◌, ◌^◌, leb, ◌≤◌, ◌<◌, ◌≡◌, ◌≢◌, refl, ap, sym, ◌∙◌, true, false, none, List,
  [], ◌∷◌, if◌then◌else◌, arith, Bool-cases, inl, inr, text_eq, text_eq_iff, ==_iff, ◌==◌,
}
use notify_queue.Base.Float.{float_of, float_round}
use notify_queue.Schema.{Job, JobStatus, status_eq, Database}
use notify_queue.Schema.Table.{find_job}
use notify_queue.Statements.Api.{find_key, count_status}
use notify_queue.Seeding.Rows.{Draw, Kind}
use notify_queue.Seeding.Added.{key_of, IsNew, status_of, keys_after, AddsRow, seed-AddsRow}
use notify_queue.Seeding.{
  Seeded, and_then, seed, count_for, seed_count, kinds, seed_kinds, run_seeder,
}

-- No two draws have one id or one key.
abbrev pub AreDistinct : (ℕ → Draw) → Type 0
AreDistinct draws =
    (n m : ℕ) → n < m → ((draws n).id ≢ (draws m).id) × (key_of (draws n) ≢ key_of (draws m))

-- The draws from place `i` on are new.
abbrev AreNew : (ℕ → Draw) → ℕ → Database → Type 0
AreNew draws i db = (n : ℕ) → i ≤ n → IsNew (draws n) db

-- The run succeeds, and adds this number of jobs to each status.
abbrev Tallies : (JobStatus → ℕ) → Database → Seeded → Type 0
Tallies tally db r =
    (r.0 ≡ true) × ((s : JobStatus) → count_status s r.1.jobs ≡ tally s + count_status s db.jobs)

abbrev one_of : Kind → JobStatus → ℕ
one_of kind s = if status_eq (status_of kind) s then 1 else 0

module _ (draws : ℕ → Draw) (distinct : AreDistinct draws) (i : ℕ) (db : Database) where
  new_id :
      (n : ℕ) (job : Job) (jobs : List Job)
      → i < n
      → jobs ≡ job ∷ db.jobs
      → job.id ≡ (draws i).id
      → find_job (draws n).id db.jobs ≡ none
      → find_job (draws n).id jobs ≡ none
  unfolding find_job
  new_id n job jobs lt e same new = elim (Bool-cases (job.id == (draws n).id)) [
    | inl t ↦ absurd ((distinct i n lt).0 (sym same ∙ (==_iff job.id (draws n).id).0 t))
    | inr f ↦ ap (find_job (draws n).id) e ∙ rw f new
  ]

  new_key :
      (n : ℕ)
      → i < n
      → find_key (key_of (draws n)) db.job_idempotency ≡ none
      → find_key (key_of (draws n)) (keys_after (draws i) db) ≡ none
  unfolding find_key
  new_key n lt new = elim (Bool-cases (draws i).keyed) [
    | inl k ↦ rw k (elim (Bool-cases (text_eq (key_of (draws i)) (key_of (draws n)))) [
      | inl t ↦ absurd ((distinct i n lt).1 ((text_eq_iff _ _).0 t))
      | inr f ↦ rw f new
    ])
    | inr k ↦ rw k new
  ]

  AreNew-seeded :
      (kind : Kind) (r : Seeded)
      → AreNew draws i db
      → AddsRow kind (draws i) db r
      → AreNew draws (i + 1) r.1
  AreNew-seeded kind r new (done, job, jobs, same, status, keys) n le = (
    new_id n job r.1.jobs (omega arith) jobs same (new n (omega arith)).0,
    ap (find_key (key_of (draws n))) keys ∙ new_key n (omega arith) (new n (omega arith)).1,
  )

and_then-true : (r : Seeded) (next : Database → Seeded) → r.0 ≡ true → and_then r next ≡ next r.1
and_then-true (true, db) next h = refl
and_then-true (false, db) next h = ground arith

count_row :
    (kind : Kind) (s : JobStatus) (job : Job) (jobs : List Job)
    → job.status ≡ status_of kind
    → count_status s (job ∷ jobs) ≡ one_of kind s + count_status s jobs
unfolding count_status
count_row kind s job jobs e = ground (arith, ap (λ t. status_eq t s) e)

-- `count` of one kind.
abbrev times : ℕ → Kind → JobStatus → ℕ
times count kind s = if status_eq (status_of kind) s then count else 0

module _ (draws : ℕ → Draw) (distinct : AreDistinct draws) (now : ℕ) where
  seed_count-Tallies :
      (kind : Kind) (count i : ℕ) (rest : ℕ → Database → Seeded) (tally : JobStatus → ℕ)
      (db : Database)
      → ((i : ℕ) (db : Database) → AreNew draws i db → Tallies tally db (rest i db))
      → AreNew draws i db
      → Tallies (λ s. times count kind s + tally s) db (seed_count kind count now draws i rest db)
  unfolding seed_count
  seed_count-Tallies kind zero i rest tally db more new =
      let (done, counts) = more i db new in (done, λ s. ground (arith, counts s))
  seed_count-Tallies kind (suc count) i rest tally db more new =
      let r = seed kind now (i + 1) (draws i) db in
      let (first, job, jobs, same, status, keys) =
        seed-AddsRow kind now (i + 1) (draws i) db (new i (omega arith)) in
      let (done, counts) =
        seed_count-Tallies kind count (i + 1) rest tally r.1 more
          (AreNew-seeded draws distinct i db kind r new (first, job, jobs, same, status, keys)) in
      let step = and_then-true r (seed_count kind count now draws (i + 1) rest) first in
      (
        ap (λ x. x.0) step ∙ done,
        λ s.
            ap (λ x. count_status s x.1.jobs) step
            ∙ counts s
            ∙ ap (λ l. times count kind s + tally s + count_status s l) jobs
            ∙ ground (arith, count_row kind s job db.jobs status),
      )

  abbrev tally_of : List Kind → ℕ → JobStatus → ℕ
  tally_of [] total s = 0
  tally_of (kind ∷ more) total s = times (count_for total kind) kind s + tally_of more total s

  seed_kinds-Tallies :
      (more : List Kind) (total : ℕ) (i : ℕ) (db : Database)
      → AreNew draws i db
      → Tallies (tally_of more total) db (seed_kinds more total now draws i db)
  unfolding seed_kinds
  seed_kinds-Tallies [] total i db new = (refl, λ s. omega arith)
  seed_kinds-Tallies (kind ∷ more) total i db new =
      seed_count-Tallies kind (count_for total kind) i (seed_kinds more total now draws)
        (tally_of more total) db (λ i db. seed_kinds-Tallies more total i db) new

-- A share of the total, in units of 2 ^ -57, to the nearest integer, but at least one.
abbrev pub portion : ℕ → ℕ → ℕ
portion total fraction =
    let n = float_round (float_of (total * fraction) (2 ^ 57)) in if leb 1 n then n else 1

-- The jobs that a run adds to each status: half are sent, 15 % wait for later and 10 % for a retry, 5 %
-- are queued and 5 % claimed, 15 % dead-lettered, none failed.
abbrev pub added : ℕ → JobStatus → ℕ
added total JobStatus.pending =
    portion total 21_617_278_211_378_380 + portion total 14_411_518_807_585_588
added total JobStatus.queued = portion total 7_205_759_403_792_794
added total JobStatus.claimed = portion total 7_205_759_403_792_794
added total JobStatus.sent = portion total 72_057_594_037_927_936
added total JobStatus.failed = 0
added total JobStatus.dead_lettered = portion total 21_617_278_211_378_380

-- Seeding with ids and keys that are new and distinct succeeds, and adds to each status its share of the
-- total, the product and its rounding those of floats, and at least one job of each kind however small
-- the total: half of it sent, 0.15 pending for later and 0.10 for a retry, 0.05 queued, 0.05 claimed and
-- 0.15 dead-lettered.
pub run_seeder_lem :
    (total : ℕ) (now : ℕ) (draws : ℕ → Draw) (db : Database)
    → AreDistinct draws
    → ((n : ℕ) → IsNew (draws n) db)
    → let (done, db') = run_seeder total now draws db in
      (done ≡ true)
      × ((s : JobStatus) → count_status s db'.jobs ≡ added total s + count_status s db.jobs)
unfolding run_seeder
run_seeder_lem total now draws db distinct new =
    let (done, counts) = seed_kinds-Tallies draws distinct now kinds total 0 db (λ n _. new n) in
    (done, λ s. counts s ∙ ap (λ n. n + count_status s db.jobs) (in_all s))
  where
    in_all : (s : JobStatus) → tally_of draws distinct now kinds total s ≡ added total s
    in_all JobStatus.pending = omega arith
    in_all JobStatus.queued = omega arith
    in_all JobStatus.claimed = omega arith
    in_all JobStatus.sent = omega arith
    in_all JobStatus.failed = omega arith
    in_all JobStatus.dead_lettered = omega arith
