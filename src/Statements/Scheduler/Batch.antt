-- ===== src/Statements/Scheduler/Batch.antt =====
-- The batch that PROMOTE_DUE_JOBS picks.
use notify_queue.Base.{ℕ, ◌≡◌, Bool, true, arith, ==_iff, All, All-take, All-select, any-All}
use notify_queue.Base.Sort.{All-sort}
use notify_queue.Schema.{Job, Database}
use notify_queue.Schema.Table.{IsRow, All-IsRow, Unique}
use notify_queue.Statements.Scheduler.{is_due, promoted_before, due_batch, is_among}

module _ (lookahead limit : ℕ) (locked : ℕ → Bool) (now : ℕ) (db : Database) where
  -- Every job of the batch is a row of the table, pending and due.
  pub All-due_batch :
      Unique db.jobs
      → All
          (λ b. IsRow db.jobs b × (is_due lookahead locked now b ≡ true))
          (due_batch lookahead limit locked now db)
  unfolding due_batch
  All-due_batch u =
      All-take _ limit _
        (All-sort promoted_before _ _ (All-select (IsRow db.jobs) _ db.jobs (All-IsRow db.jobs u)))

  -- So a row whose id is in the batch is due.
  pub is_among-is_due :
      (j : Job)
      → Unique db.jobs
      → IsRow db.jobs j
      → is_among (due_batch lookahead limit locked now db) j ≡ true
      → is_due lookahead locked now j ≡ true
  is_among-is_due j u row e =
      let (b, (found, due), same) = any-All _ _ _ (All-due_batch u) e in
      rw (same_row b found ((==_iff b.id j.id).0 same)) at due
    where
      same_row : (b : Job) → IsRow db.jobs b → b.id ≡ j.id → b ≡ j
      same_row b found same = ground arith
