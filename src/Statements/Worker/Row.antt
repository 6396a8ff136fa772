-- ===== src/Statements/Worker/Row.antt =====
-- A statement that names one job: what it returns and what it does to that row and to the others.
use notify_queue.Base.{
  refl, sym, true, inl, inr, Bool-cases, arith, ◌↔◌, ℕ, ◌≡◌, ap, ◌∙◌, Bool, false, Option, none,
  some, first, Text,
}
use notify_queue.Schema.{Job, Database}
use notify_queue.Schema.Table.{
  find_job, keyed, Unique, updated, returned, update_where, update_where-none, first-returned,
  updated-keyed, find_job-update_rows,
}
use notify_queue.Statements.Worker.{
  update_job, mark_sent, schedule_retry, defer_to_next_window, update_heartbeat,
}
use notify_queue.Lifecycle.Outcomes.{is_held_by, Owns, is_held_by→Owns, Owns→is_held_by}
use notify_queue.Consistency.{is_some}

module _ (i : ℕ) (q : Job → Bool) (f : Job → Job) (db : Database) (unique : Unique db.jobs) where
  pub update_job-reply : (update_job i q f db).0 ≡ returned q f (find_job i db.jobs)
  unfolding update_job
  update_job-reply = first-returned i q f db.jobs unique

  -- No row to return: nothing changes.
  pub update_job-none : returned q f (find_job i db.jobs) ≡ none → update_job i q f db ≡ (none, db)
  unfolding update_job
  update_job-none nothing = λ k. (reply k, record db { jobs = unchanged k })
    where
      reply : first (update_where (keyed i q) f db.jobs).0 ≡ none
      reply = first-returned i q f db.jobs unique ∙ nothing

      unchanged : (update_where (keyed i q) f db.jobs).1 ≡ db.jobs
      unchanged = update_where-none (keyed i q) f db.jobs reply

  -- A row that fails the test: the statement returns nothing, and changes nothing.
  pub update_job-refused :
      {j : Job} → find_job i db.jobs ≡ some j → q j ≡ false → update_job i q f db ≡ (none, db)
  update_job-refused e no_match = update_job-none (rw e (rw no_match))

  -- The row after the statement.
  pub update_job-row :
      ((j : Job) → (f j).id ≡ j.id)
      → find_job i (update_job i q f db).1.jobs ≡ updated q f (find_job i db.jobs)
  unfolding update_job
  update_job-row same =
      find_job-update_rows (keyed i q) f same i db.jobs ∙ updated-keyed i q f db.jobs

-- A fenced statement: its reply has a row exactly if the worker owns the row, and a reply without one
-- comes with unchanged tables.
abbrev pub Fenced : Option ℕ → Job → Database → Option Job × Database → Type 0
Fenced w j db (reply, db') = (is_some reply ≡ true ↔ Owns w j) × (is_some reply ≡ false → db' ≡ db)

update_job-Fenced :
    (i : ℕ) (w : Option ℕ) (f : Job → Job) (db : Database) {j : Job}
    → Unique db.jobs
    → find_job i db.jobs ≡ some j
    → Fenced w j db (update_job i (is_held_by w) f db)
update_job-Fenced i w f db {j} u e = elim (Bool-cases (is_held_by w j)) [
  | inl owned ↦
      rw (update_job-reply i (is_held_by w) f db u, e, owned)
        ((λ h. is_held_by→Owns w j owned, λ o. refl), λ h. ground arith)
  | inr lost ↦
      rw (update_job-refused i (is_held_by w) f db u e lost)
        ((λ h. ground arith, λ o. sym lost ∙ Owns→is_held_by w j o), λ h. refl)
]

-- The fence of the outcomes: MARK_SENT, SCHEDULE_RETRY and DEFER_TO_NEXT_WINDOW answer with a row
-- exactly if the row is claimed in the name of the worker that asks, and change nothing if they answer
-- with none; a heartbeat of a worker that does not own the row changes nothing.
-- The row is in the table, in which no id stands twice.
pub fence :
    (db : Database) (i now : ℕ) (w : Option ℕ) {j : Job}
    → Unique db.jobs
    → find_job i db.jobs ≡ some j
    → Fenced w j db (mark_sent i w now db)
      × ((attempt next : ℕ) (error : Text)
          → Fenced w j db (schedule_retry attempt next error i w now db))
      × ((at : ℕ) → Fenced w j db (defer_to_next_window at i w now db))
      × ((v : ℕ) → ¬ Owns (some v) j → update_heartbeat i v now db ≡ db)
unfolding mark_sent schedule_retry defer_to_next_window update_heartbeat
fence db i now w {j} u e = (
  update_job-Fenced i w _ db u e,
  λ attempt next error. update_job-Fenced i w _ db u e,
  λ at. update_job-Fenced i w _ db u e,
  λ v lost. elim (Bool-cases (is_held_by (some v) j)) [
    | inl owned ↦ absurd (lost (is_held_by→Owns (some v) j owned))
    | inr not_owned ↦
        ap (λ (r : Option Job × Database). r.1)
          (update_job-refused i (is_held_by (some v)) _ db u e not_owned)
  ],
)
