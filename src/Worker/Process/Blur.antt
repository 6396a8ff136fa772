-- ===== src/Worker/Process/Blur.antt =====
-- What a heartbeat changes, taken out of view: `heartbeat_at` and `updated_at` of every job. A command
-- is blind if it does not look at them.

use notify_queue.Base.{
  ℕ, ◌≡◌, refl, ◌==◌, ◌&&◌, ap, ◌∙◌, Bool, Option, none, some, List, [], ◌∷◌, map, arith, Text,
  first, select,
}
use notify_queue.Schema.{Job, Database, DeadLetter}
use notify_queue.Schema.Table.{find_job, keyed, update_rows, update_where}
use notify_queue.Redis.{Redis}
use notify_queue.Statements.Worker.{
  is_owned, sent_job, retried_job, deferred_job, beaten_job, update_job, mark_sent, schedule_retry,
  defer_to_next_window, update_heartbeat, fetch_job,
}
use notify_queue.Statements.Audit.{
  is_expected, dead_job, dead_letter_row, mark_dead_lettered, insert_dead_letter, insert_if_marked,
  dead_letter_transaction,
}
use notify_queue.Effects.{Result, ok, err, Command, Reply}
use notify_queue.Effects.Run.{Moment, World, perform}

abbrev pub blur : Job → Job
blur j = record j { heartbeat_at = none; updated_at = 0 }

abbrev pub blur_row : Option Job → Option Job
blur_row none = none
blur_row (some j) = some (blur j)

abbrev pub blur_jobs : List Job → List Job
blur_jobs = map blur

abbrev pub blur_tables : Database → Database
blur_tables db = record db { jobs = blur_jobs db.jobs }

abbrev pub blur_world : {Q L C : Type 0} → World Q L C → World Q L C
blur_world w = record w { database = blur_tables w.database }

-- The rows that the commands of a delivery return.
abbrev pub blur_reply : (c : Command) → Reply c → Reply c
blur_reply (Command.fetch_job i) o = blur_row o
blur_reply (Command.mark_sent i w) o = blur_row o
blur_reply (Command.schedule_retry a n e i w) o = blur_row o
blur_reply (Command.defer_to_next_window at i w) o = blur_row o
blur_reply _ a = a

abbrev pub blur_result : (c : Command) → Result (Reply c) → Result (Reply c)
blur_result c (ok a) = ok (blur_reply c a)
blur_result c (err e) = err e

find_job-blur : (i : ℕ) (js : List Job) → find_job i (blur_jobs js) ≡ blur_row (find_job i js)
unfolding find_job
find_job-blur i [] = refl
find_job-blur i (j ∷ js) = ground (arith, find_job-blur i js)

-- An UPDATE whose test and change do not look.
module _ (p : Job → Bool) (f : Job → Job) (blind : (j : Job) → p (blur j) ≡ p j)
    (same : (j : Job) → blur (f (blur j)) ≡ blur (f j)) where
  update_rows-blur :
      (js : List Job) → blur_jobs (update_rows p f (blur_jobs js)) ≡ blur_jobs (update_rows p f js)
  unfolding update_rows
  update_rows-blur [] = refl
  update_rows-blur (j ∷ js) = ground (arith, blind j, same j, update_rows-blur js)

  returned-blur :
      (js : List Job)
      → blur_row (first (map f (select p (blur_jobs js)))) ≡ blur_row (first (map f (select p js)))
  unfolding select
  returned-blur [] = refl
  returned-blur (j ∷ js) = ground (arith, blind j, same j, returned-blur js)

-- One that names the primary key.
pub update_job-blur :
    (i : ℕ) (q : Job → Bool) (f : Job → Job) (db : Database)
    → ((j : Job) → q (blur j) ≡ q j)
    → ((j : Job) → blur (f (blur j)) ≡ blur (f j))
    → (blur_row (update_job i q f (blur_tables db)).0 ≡ blur_row (update_job i q f db).0)
      × (blur_tables (update_job i q f (blur_tables db)).1 ≡ blur_tables (update_job i q f db).1)
unfolding update_job update_where
update_job-blur i q f db blind same =
    let keyed_blind = λ (j : Job). ap (λ b. j.id == i && b) (blind j) in
    (
      returned-blur (keyed i q) f keyed_blind same db.jobs,
      ap (λ js. record db { jobs = js }) (update_rows-blur (keyed i q) f keyed_blind same db.jobs),
    )

-- A beat changes nothing that is left in view.
beaten-blur :
    (i worker now : ℕ) (js : List Job)
    → blur_jobs (update_rows (keyed i (is_owned (some worker))) (beaten_job now) js) ≡ blur_jobs js
unfolding update_rows
beaten-blur i worker now [] = refl
beaten-blur i worker now (j ∷ js) = ground (arith, beaten-blur i worker now js)

pub update_heartbeat-blur :
    (i worker now : ℕ) (db : Database)
    → blur_tables (update_heartbeat i worker now db) ≡ blur_tables db
unfolding update_heartbeat update_job update_where
update_heartbeat-blur i worker now db =
    ap (λ js. record db { jobs = js }) (beaten-blur i worker now db.jobs)

jobs_twice : (js : List Job) → blur_jobs (blur_jobs js) ≡ blur_jobs js
jobs_twice [] = refl
jobs_twice (j ∷ js) = ap (λ l. blur j ∷ l) (jobs_twice js)

row_twice : (o : Option Job) → blur_row (blur_row o) ≡ blur_row o
row_twice none = refl
row_twice (some j) = refl

tables_twice : (db : Database) → blur_tables (blur_tables db) ≡ blur_tables db
tables_twice db = ap (λ js. record db { jobs = js }) (jobs_twice db.jobs)

-- The letter is inserted behind a row that was marked, whatever the row.
insert_if_marked-blur :
    (o o' : Option Job) (row : DeadLetter) (db db' : Database)
    → blur_row o ≡ blur_row o'
    → blur_tables db ≡ blur_tables db'
    → ((insert_if_marked o row db).0 ≡ (insert_if_marked o' row db').0)
      × (blur_tables (insert_if_marked o row db).1 ≡ blur_tables (insert_if_marked o' row db').1)
unfolding insert_if_marked insert_dead_letter
insert_if_marked-blur none none row db db' e d = (refl, d)
insert_if_marked-blur none (some j) row db db' e d = absurd (cc)
insert_if_marked-blur (some j) none row db db' e d = absurd (cc)
insert_if_marked-blur (some j) (some k) row db db' e d =
    (refl, ap (λ (t : Database). record t { dead_letter_queue = row ∷ t.dead_letter_queue }) d)

module _ {Q L C : Type 0} (redis : Redis Q L C) where
  -- A command gives blurred servers the reply and the servers that it gives the others, but for a blur.
  abbrev pub IsBlind : Command → Type 0
  IsBlind c =
      (m : Moment) (w : World Q L C)
      → (blur_result c (perform redis m c (blur_world w)).0 ≡ blur_result c (perform redis m c w).0)
        × (blur_world (perform redis m c (blur_world w)).1 ≡ blur_world (perform redis m c w).1)

  abbrev with_tables : World Q L C → Database → World Q L C
  with_tables w db = record w { database = db }

  pub world_twice : (w : World Q L C) → blur_world (blur_world w) ≡ blur_world w
  world_twice w = ap (with_tables w) (tables_twice w.database)

  pub fetch_job-IsBlind : (i : ℕ) → IsBlind (Command.fetch_job i)
  unfolding perform fetch_job
  fetch_job-IsBlind i m w = (
    ap ok (ap blur_row (find_job-blur i w.database.jobs) ∙ row_twice (find_job i w.database.jobs)),
    world_twice w,
  )

  -- The three statements that are fenced by the worker.
  update_job-IsBlind :
      (i : ℕ) (o : Option ℕ) (f : Job → Job) (w : World Q L C)
      → ((j : Job) → blur (f (blur j)) ≡ blur (f j))
      → (◌≡◌ {A = Result (Option Job)}
          (ok (blur_row (update_job i (is_owned o) f (blur_tables w.database)).0))
          (ok (blur_row (update_job i (is_owned o) f w.database).0)))
        × (with_tables w (blur_tables (update_job i (is_owned o) f (blur_tables w.database)).1)
            ≡ with_tables w (blur_tables (update_job i (is_owned o) f w.database).1))
  update_job-IsBlind i o f w same =
      let (reply, tables) = update_job-blur i (is_owned o) f w.database (λ j. refl) same in
      (ap ok reply, ap (with_tables w) tables)

  pub mark_sent-IsBlind : (i : ℕ) (o : Option ℕ) → IsBlind (Command.mark_sent i o)
  unfolding perform mark_sent
  mark_sent-IsBlind i o m w = update_job-IsBlind i o (sent_job m.now) w (λ j. refl)

  pub schedule_retry-IsBlind :
      (attempt next : ℕ) (error : Text) (i : ℕ) (o : Option ℕ)
      → IsBlind (Command.schedule_retry attempt next error i o)
  unfolding perform schedule_retry
  schedule_retry-IsBlind attempt next error i o m w =
      update_job-IsBlind i o (retried_job attempt next error m.now) w (λ j. refl)

  pub defer_to_next_window-IsBlind :
      (at i : ℕ) (o : Option ℕ) → IsBlind (Command.defer_to_next_window at i o)
  unfolding perform defer_to_next_window
  defer_to_next_window-IsBlind at i o m w =
      update_job-IsBlind i o (deferred_job at m.now) w (λ j. refl)

  pub dead_letter_transaction-IsBlind :
      (error : Text) (job : Job) (attempt : ℕ) (o : Option ℕ)
      → IsBlind (Command.dead_letter_transaction error job attempt o)
  unfolding perform dead_letter_transaction mark_dead_lettered
  dead_letter_transaction-IsBlind error job attempt o m w =
      let (marked, tables) =
        update_job-blur job.id (is_expected o) (dead_job error attempt m.now) w.database (λ j. refl)
          (λ j. refl) in
      let (reply, after) =
        insert_if_marked-blur _ _ (dead_letter_row job attempt error m.now) _ _ marked tables in
      (ap ok reply, ap (with_tables w) after)
