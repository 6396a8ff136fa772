-- ===== src/Simulation/Pending.antt =====
-- What `split_pending` of scripts/simulate.py counts.
use notify_queue.Base.{
  ℕ, zero, suc, ◌+◌, ◌-◌, ◌≤◌, ◌≡◌, refl, ap, subst, sym, ◌∙◌, some, List, [], ◌∷◌, map, arith, leb,
  ◌&&◌, length, select, take, take_all, length-take-le,
}
use notify_queue.Base.Sort.{insert, sort}
use notify_queue.Schema.{Job, JobStatus, status_eq, Database}
use notify_queue.Redis.{Redis}
use notify_queue.Effects.{ok, Command}
use notify_queue.Effects.Run.{Moment, World, run, perform}
use notify_queue.Effects.Fine.{AllFine, next, run-call, run-pure}
use notify_queue.Statements.Api.{is_wanted, is_newer, select_recent_jobs}
use notify_queue.Api.{JobView, serialize_job, list_jobs, get_jobs}
use notify_queue.Simulation.{deferral_threshold, due_by, split_jobs, split_pending}

length-map : (js : List Job) → length (map serialize_job js) ≡ length js
length-map [] = refl
length-map (j ∷ js) = ap suc (length-map js)

length-insert : (a : Job) (js : List Job) → length (insert is_newer a js) ≡ suc (length js)
unfolding insert
length-insert a [] = refl
length-insert a (j ∷ js) = ground (arith, length-insert a js)

length-sort : (js : List Job) → length (sort is_newer js) ≡ length js
unfolding sort
length-sort [] = refl
length-sort (j ∷ js) = length-insert j (sort is_newer js) ∙ ap suc (length-sort js)

module _ (threshold : ℕ) where
  abbrev due_in : List Job → ℕ
  due_in js = due_by threshold (map serialize_job js)

  due_by-insert : (a : Job) (js : List Job) → due_in (insert is_newer a js) ≡ due_in (a ∷ js)
  unfolding insert due_by
  due_by-insert a [] = refl
  due_by-insert a (j ∷ js) = ground (arith, due_by-insert a js)

  due_by-sort : (js : List Job) → due_in (sort is_newer js) ≡ due_in js
  unfolding sort due_by
  due_by-sort [] = refl
  due_by-sort (j ∷ js) = due_by-insert j (sort is_newer js) ∙ ground (arith, due_by-sort js)

  due_by-le : (vs : List JobView) → due_by threshold vs ≤ length vs
  unfolding due_by
  due_by-le [] = omega arith
  due_by-le (v ∷ vs) = ground (arith, due_by-le vs)

-- The rows that `split_pending` is to count, and those of them in flight.
abbrev pub pending_rows : List Job → List Job
pending_rows js = select (is_wanted (some JobStatus.pending)) js

abbrev pub rows_in_flight : ℕ → List Job → List Job
rows_in_flight now js =
    select (λ j. status_eq j.status JobStatus.pending && leb j.send_at (now + deferral_threshold))
      js

due_by-select :
    (now : ℕ) (js : List Job)
    → due_in (now + deferral_threshold) (pending_rows js) ≡ length (rows_in_flight now js)
unfolding select due_by
due_by-select now [] = refl
due_by-select now (j ∷ js) = ground (arith, due_by-select now js)

-- The jobs that the API lists for `split_pending`.
abbrev pub listed : Database → List JobView
listed db = map serialize_job (select_recent_jobs (some JobStatus.pending) 200 db)

abbrev pub listed_in_flight : ℕ → Database → ℕ
listed_in_flight now db = due_by (now + deferral_threshold) (listed db)

pub listed_in_flight-le : (now : ℕ) (db : Database) → listed_in_flight now db ≤ length (listed db)
listed_in_flight-le now db = due_by-le (now + deferral_threshold) (listed db)

length-take :
    (n : ℕ) (xs ys : List Job) → length xs ≡ length ys → length (take n xs) ≡ length (take n ys)
length-take zero xs ys h = refl
length-take (suc n) [] [] h = refl
length-take (suc n) [] (y ∷ ys) h = absurd (omega arith)
length-take (suc n) (x ∷ xs) [] h = absurd (omega arith)
length-take (suc n) (x ∷ xs) (y ∷ ys) h = ap suc (length-take n xs ys (omega arith))

length-listed-take : (db : Database) → length (listed db) ≡ length (take 200 (pending_rows db.jobs))
unfolding select_recent_jobs
length-listed-take db =
    length-map (take 200 (sort is_newer (pending_rows db.jobs)))
    ∙ length-take 200 (sort is_newer (pending_rows db.jobs)) (pending_rows db.jobs)
        (length-sort (pending_rows db.jobs))

module _ (db : Database) (few : length (pending_rows db.jobs) ≤ 200) where
  all_listed : listed db ≡ map serialize_job (sort is_newer (pending_rows db.jobs))
  unfolding select_recent_jobs
  all_listed = ap (map serialize_job) (
      take_all 200 (sort is_newer (pending_rows db.jobs))
        (subst (λ n. n ≤ 200) (sym (length-sort (pending_rows db.jobs))) few))

  pub length-listed : length (listed db) ≡ length (pending_rows db.jobs)
  length-listed =
      ap length all_listed
      ∙ length-map (sort is_newer (pending_rows db.jobs))
      ∙ length-sort (pending_rows db.jobs)

  in_flight-rows : (now : ℕ) → listed_in_flight now db ≡ length (rows_in_flight now db.jobs)
  in_flight-rows now =
      ap (due_by (now + deferral_threshold)) all_listed
      ∙ due_by-sort (now + deferral_threshold) (pending_rows db.jobs)
      ∙ due_by-select now db.jobs

module _ {Q L C : Type 0} (redis : Redis Q L C) where
  -- `split_pending` where nothing fails.
  split_pending_lem :
      (s : ℕ → Moment) (w : World Q L C)
      → AllFine s
      → run redis s split_pending w ≡ (
        ok (
          listed_in_flight (s 1).now w.database,
          length (listed w.database) - listed_in_flight (s 1).now w.database,
        ),
        w,
      )
  unfolding split_pending split_jobs get_jobs list_jobs perform
  split_pending_lem s w h =
      run-call redis s (Command.select_recent_jobs (some JobStatus.pending) 200) _ w (h 0)
      ∙ run-call redis (next s) Command.read_clock _ w (h 1)
      ∙ run-pure redis (next (next s)) _ w

  -- Nothing fails: `split_pending` counts in flight or deferred, together, as many jobs as are pending
  -- but never more than 200, and changes nothing.
  pub split_pending_limit :
      (s : ℕ → Moment) (w : World Q L C)
      → AllFine s
      → (p : ℕ × ℕ) × (run redis s split_pending w ≡ (ok p, w))
        × (p.0 + p.1 ≡ length (take 200 (pending_rows w.database.jobs)))
        × (p.0 + p.1 ≤ 200)
  split_pending_limit s w h =
      let le = listed_in_flight-le (s 1).now w.database in
      let sum = length-listed-take w.database in
      let limit = length-take-le 200 (pending_rows w.database.jobs) in
      (_, split_pending_lem s w h, omega arith, omega arith)

  -- Nothing fails and at most 200 jobs are pending: `split_pending` counts in flight the pending jobs
  -- that are to be sent at most ten minutes after the clock, and as deferred the other pending ones.
  pub split_pending_exact :
      (s : ℕ → Moment) (w : World Q L C)
      → AllFine s
      → length (pending_rows w.database.jobs) ≤ 200
      → (p : ℕ × ℕ) × (run redis s split_pending w ≡ (ok p, w))
        × (p.0 ≡ length (rows_in_flight (s 1).now w.database.jobs))
        × (p.0 + p.1 ≡ length (pending_rows w.database.jobs))
  split_pending_exact s w h few =
      let le = listed_in_flight-le (s 1).now w.database in
      let all = length-listed w.database few in
      (_, split_pending_lem s w h, in_flight-rows w.database few (s 1).now, omega arith)
