-- ===== src/Lifecycle/Closed/Counted.antt =====
-- The two statements whose replies tell that they end a job or open it again: MARK_SENT of
-- src/notify_queue/worker/delivery.py and RETRY_DEAD_LETTERED of api/routes.py.
use notify_queue.Base.{
  ℕ, ◌+◌, ◌≤◌, ◌==◌, ◌≡◌, refl, inl, inr, Bool, false, Option, none, some, arith, if◌then◌else◌,
  Bool-cases, subst, sym, ==_iff,
}
use notify_queue.Schema.{Job, Database}
use notify_queue.Schema.Table.{find_job, updated, Unique, returned}
use notify_queue.Statements.Worker
use notify_queue.Statements.Worker.Row.{update_job-reply, update_job-row}
use notify_queue.Statements.Api
use notify_queue.Lifecycle.Closed.{open_row, openness, Closes, update_job-Closes}

-- How many rows came back, and how many of them for one job.
abbrev pub answered : Option Job → ℕ
answered none = 0
answered (some _) = 1

abbrev pub answered_for : ℕ → ℕ → Option Job → ℕ
answered_for i k reply = if k == i then answered reply else 0

module _ (i : ℕ) (db : Database) where
  -- The two statements that one may count: each reply with a row.
  module _ (u : Unique db.jobs) (k : ℕ) (q : Job → Bool) (f : Job → Job)
      (same : (j : Job) → (f j).id ≡ j.id) where
    own_update :
        (P : Option Job → Option Job → Type 0)
        → P (returned q f (find_job k db.jobs)) (updated q f (find_job k db.jobs))
        → P (Worker.update_job k q f db).0 (find_job k (Worker.update_job k q f db).1.jobs)
    own_update P h =
        subst (λ o. P o (find_job k (Worker.update_job k q f db).1.jobs))
          (sym (update_job-reply k q f db u))
          (subst (P (returned q f (find_job k db.jobs))) (sym (update_job-row k q f db u same)) h)

  mark_sent-own :
      (w : Option ℕ) (now : ℕ)
      → Unique db.jobs
      → answered (Worker.mark_sent i w now db).0 + openness i (Worker.mark_sent i w now db).1
        ≤ openness i db
  unfolding Worker.mark_sent
  mark_sent-own w now u =
      own_update u i (Worker.is_owned w) (Worker.sent_job now) (λ j. refl)
        (λ reply row. answered reply + open_row row ≤ openness i db) (by_row (find_job i db.jobs))
    where
      by_row :
          (o : Option Job)
          → answered (returned (Worker.is_owned w) (Worker.sent_job now) o)
              + open_row (updated (Worker.is_owned w) (Worker.sent_job now) o)
            ≤ open_row o
      by_row none = omega arith
      by_row (some j) = ground arith

  retry_dead_lettered-own :
      (now : ℕ)
      → Unique db.jobs
      → openness i (Api.retry_dead_lettered i now db).1
        ≤ openness i db + answered (Api.retry_dead_lettered i now db).0
  unfolding Api.retry_dead_lettered
  retry_dead_lettered-own now u =
      own_update u i Api.is_dead (Api.replayed_job now) (λ j. refl)
        (λ reply row. open_row row ≤ openness i db + answered reply) (by_row (find_job i db.jobs))
    where
      by_row :
          (o : Option Job)
          → open_row (updated Api.is_dead (Api.replayed_job now) o)
            ≤ open_row o + answered (returned Api.is_dead (Api.replayed_job now) o)
      by_row none = omega arith
      by_row (some j) = ground arith

-- MARK_SENT closes the job that it returns, and RETRY_DEAD_LETTERED opens at most the one that it
-- returns.
module _ (i : ℕ) (db : Database) (unique : Unique db.jobs) (k : ℕ) where
  elsewhere :
      (q : Job → Bool) (f : Job → Job)
      → ((j : Job) → (f j).id ≡ j.id)
      → (k == i) ≡ false
      → Closes i db (Worker.update_job k q f db).1
  elsewhere q f same other = update_job-Closes i db k q f same (λ j own e. absurd (clash own))
    where
      clash : k ≡ i → ⊥
      clash own = ground arith

  pub mark_sent-closes :
      (w : Option ℕ) (now : ℕ)
      → answered_for i k (Worker.mark_sent k w now db).0
          + openness i (Worker.mark_sent k w now db).1
        ≤ openness i db
  unfolding Worker.mark_sent
  mark_sent-closes w now = elim (Bool-cases (k == i)) [
    | inl own ↦ rw own (rw ((==_iff k i).0 own) (mark_sent-own i db w now unique))
    | inr other ↦
        let closes = elsewhere (Worker.is_owned w) (Worker.sent_job now) (λ j. refl) other in
        rw other (omega arith)
  ]

  pub retry_dead_lettered-opens :
      (now : ℕ)
      → openness i (Api.retry_dead_lettered k now db).1
        ≤ openness i db + answered_for i k (Api.retry_dead_lettered k now db).0
  unfolding Api.retry_dead_lettered
  retry_dead_lettered-opens now = elim (Bool-cases (k == i)) [
    | inl own ↦ rw own (rw ((==_iff k i).0 own) (retry_dead_lettered-own i db now unique))
    | inr other ↦
        let closes = elsewhere Api.is_dead (Api.replayed_job now) (λ j. refl) other in
        rw other (omega arith)
  ]
