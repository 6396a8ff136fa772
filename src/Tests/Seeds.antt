-- ===== src/Tests/Seeds.antt =====
-- scripts/seed.py at concrete draws.
use notify_queue.Base.{ℕ, ◌+◌, ◌≡◌, ◌≢◌, ◌↔◌, refl, true, [], ◌∷◌, arith, text_eq, text_eq_iff}
use notify_queue.Schema.{Channel, Priority, JobStatus}
use notify_queue.Schema.Table.{find_job}
use notify_queue.Statements.Api.{find_key, count_status}
use notify_queue.Consistency.{IsConsistent}
use notify_queue.Seeding.Rows.{Draw, Kind}
use notify_queue.Seeding.{wiped, seed, run_seeder}
use notify_queue.Seeding.Added.{key_of}
use notify_queue.Seeding.Tally.{AreDistinct, added, run_seeder_lem}
use notify_queue.Seeding.Shapes.{seed-IsConsistent}
use notify_queue.Tests.Rows.{noon}
use notify_queue.Base.Float.{float_of, float_round}

abbrev draws : ℕ → Draw
draws n = record {
  channel = Channel.sms;
  recipient = 3;
  priority = Priority.medium;
  has_callback = true;
  age_minutes = 90;
  keyed = true;
  sent_seconds = 12;
  sent_attempts = 0;
  ahead_minutes = 30;
  attempt = 2;
  error = 1;
  worker = 7;
  failed_minutes = 11;
  id = 500 + n;
  id_text = n ∷ [];
  clock = noon;
}

draws-AreDistinct : AreDistinct draws
unfolding text_eq
draws-AreDistinct n m lt = (λ e. absurd (omega arith), λ e. absurd (other_key e))
  where
    other_key : key_of (draws n) ≡ key_of (draws m) → ⊥
    other_key e = let same = (text_eq_iff (key_of (draws n)) (key_of (draws m))).1 e in ground arith

-- 25 jobs: of the halves 12.5, 3.75, 2.5 and 1.25, the ties go to the even number.
counted : (added 25 JobStatus.sent ≡ 12) × (added 25 JobStatus.pending ≡ 6)
unfolding float_round float_of
counted = (refl, refl)

run_seeder_lem_example :
    let (done, db) = run_seeder 25 noon draws wiped in
    (done ≡ true)
    × ((s : JobStatus) → count_status s db.jobs ≡ added 25 s + count_status s wiped.jobs)
unfolding find_job find_key
run_seeder_lem_example = run_seeder_lem 25 noon draws wiped draws-AreDistinct (λ n. (refl, refl))

wiped-IsConsistent : IsConsistent wiped
wiped-IsConsistent = record {
  unique = tt;
  shaped = tt;
  lettered = tt;
  keys = tt;
  key_jobs = tt;
  letter_jobs = tt;
}

seed-IsConsistent_example :
    IsConsistent (seed Kind.dead_lettered noon 1 (draws 0) wiped).1
    ↔ (Kind.dead_lettered ≢ Kind.sent)
unfolding find_job find_key
seed-IsConsistent_example =
    seed-IsConsistent noon 1 (draws 0) wiped (refl, refl) wiped-IsConsistent Kind.dead_lettered
