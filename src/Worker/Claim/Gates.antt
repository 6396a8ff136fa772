-- ===== src/Worker/Claim/Gates.antt =====
-- What `claim_next_job` of src/notify_queue/worker/claim.py has done, whatever fails on the way.
use notify_queue.Base.{
  ℕ, ◌≡◌, refl, sym, subst, ◌∙◌, inl, inr, true, Option, none, some, List, [], ◌∷◌, arith, if_both,
  Option-cases, Bool-cases,
}
use notify_queue.Schema.{Job, Priority, Database}
use notify_queue.Schema.Table.{find_job, keyed, Unique, update_rows, returned}
use notify_queue.Settings.{Settings}
use notify_queue.Redis.{Redis}
use notify_queue.Statements.Worker.{is_queued, claimed_by, claim_queued_job}
use notify_queue.Statements.Worker.Row.{update_job-none, update_job-reply}
use notify_queue.Effects.{Result, ok, err, Command, Program}
use notify_queue.Effects.Run.{Moment, World, run, perform}
use notify_queue.Effects.Fine.{next}
use notify_queue.Effects.Rules.{await_rule}
use notify_queue.Worker.Claim.{
  priority_order, after_update, claim_popped, claim_from, claim_next_job,
}

-- The tables with the job `i` claimed.
abbrev pub with_claim : ℕ → ℕ → ℕ → Database → Database
with_claim worker i now db = record db {
  jobs = update_rows (keyed i is_queued) (claimed_by worker now) db.jobs;
}

-- What a claim that began at the tables `db` has done, by how it ended.
abbrev pub Claims : {Q L C : Type 0} → ℕ → Database → Result (Option ℕ) × World Q L C → Type 0
Claims worker db (ok (some i), w) =
    (now : ℕ) × (j : Job) × (find_job i db.jobs ≡ some j)
    × (is_queued j ≡ true)
    × (w.database ≡ with_claim worker i now db)
Claims worker db (ok none, w) = w.database ≡ db
Claims worker db (err e, w) = Unit

-- Gate 3 on one row: it was queued and is claimed, or nothing has changed.
abbrev Gate : ℕ → ℕ → ℕ → Database → Option Job × Database → Type 0
Gate worker i now db (none, db') = db' ≡ db
Gate worker i now db (some _, db') =
    (j : Job) × (find_job i db.jobs ≡ some j)
    × (is_queued j ≡ true)
    × (db' ≡ with_claim worker i now db)

claim-Gate :
    (worker i now : ℕ) (db : Database) (j : Job) (o : Option Job) {b : Job}
    → find_job i db.jobs ≡ some j
    → is_queued j ≡ true
    → o ≡ some b
    → Gate worker i now db (o, with_claim worker i now db)
claim-Gate worker i now db j none e q h = ground arith
claim-Gate worker i now db j (some _) e q h = (j, e, q, refl)

gate :
    (worker i now : ℕ) (db : Database)
    → Unique db.jobs
    → Gate worker i now db (claim_queued_job worker i now db)
unfolding claim_queued_job
gate worker i now db u = elim (Option-cases (find_job i db.jobs)) [
  | inl e ↦ rw (shut (rw e)) refl
  | inr (j, e) ↦ elim (Bool-cases (is_queued j)) [
    | inl q ↦
        claim-Gate worker i now db j _ {b = f j} e q
          (update_job-reply i is_queued f db u ∙ rw e (rw q))
    | inr n ↦ rw (shut (rw e (rw n))) refl
  ]
]
  where
    f : Job → Job
    f = claimed_by worker now

    shut :
        returned is_queued f (find_job i db.jobs) ≡ none
        → claim_queued_job worker i now db ≡ (none, db)
    shut = update_job-none i is_queued f db u

module _ {Q L C : Type 0} (redis : Redis Q L C) (worker : ℕ) (settings : Settings) (db : Database)
    (u : Unique db.jobs) where
  abbrev Good : Result (Option ℕ) × World Q L C → Type 0
  Good = Claims worker db

  -- The rest of the loop, from any world with these tables.
  abbrev GoodFrom : Program (Option ℕ) → Type 0
  GoodFrom p = (s : ℕ → Moment) (w : World Q L C) → w.database ≡ db → Good (run redis s p w)

  after_update-Good :
      (i now : ℕ) (rest : Program (Option ℕ)) (o : Option Job)
      → GoodFrom rest
      → (s : ℕ → Moment) (w : World Q L C) → Gate worker i now db (o, w.database)
      → Good (run redis s (after_update i rest o) w)
  unfolding after_update perform run
  after_update-Good i now rest none good s w g =
      await_rule redis Good (Command.delete_lock i) _ s w tt refl (λ e w. tt) (good (next s) _ g)
  after_update-Good i now rest (some b) good s w (j, e, q, same) = (now, j, e, q, same)

  popped-Good :
      (rest : Program (Option ℕ)) (o : Option ℕ)
      → GoodFrom rest
      → GoodFrom (claim_popped worker settings rest o)
  unfolding claim_popped perform
  popped-Good rest none good s w e = good s w e
  popped-Good rest (some i) good s w e =
      await_rule redis Good (Command.set_lock i worker settings.job_lock_ttl) _ s w _ refl
        (λ e w. tt)
        (if_both (λ p. Good (run redis (next s) p w1))
          (redis.set_nx i worker settings.job_lock_ttl (s 0).now w.locks).0 _ rest
          (λ _.
            await_rule redis Good (Command.claim_queued_job worker i) _ (next s) w1 _ refl
              (λ e w. tt)
              (after_update-Good i (s 1).now rest _ good (next (next s))
                (record w1 { database = (claim_queued_job worker i (s 1).now w.database).1 })
                (subst (λ d. Gate worker i (s 1).now db (claim_queued_job worker i (s 1).now d))
                  (sym e) (gate worker i (s 1).now db u))))
          (λ _. good (next s) w1 e))
    where
      w1 : World Q L C
      w1 = record w { locks = (redis.set_nx i worker settings.job_lock_ttl (s 0).now w.locks).1 }

  claim_from-Good : (ps : List Priority) → GoodFrom (claim_from worker settings ps)
  unfolding claim_from perform run
  claim_from-Good [] s w e = e
  claim_from-Good (p ∷ ps) s w e =
      await_rule redis Good (Command.zpopmin p) _ s w _ refl (λ e w. tt)
        (popped-Good (claim_from worker settings ps) (redis.zpopmin p w.queues).0
          (claim_from-Good ps) (next s) _ e)

-- However it ends: a claim that returns a job has turned that job, which was queued, into one claimed by
-- this worker, and has changed no other row; a claim that returns none has changed no table.
-- Before it, no id stands twice.
pub claim_next_job-Claims :
    {Q L C : Type 0} (redis : Redis Q L C) (worker : ℕ) (settings : Settings) (s : ℕ → Moment)
    (w : World Q L C)
    → Unique w.database.jobs
    → Claims worker w.database (run redis s (claim_next_job worker settings) w)
unfolding claim_next_job
claim_next_job-Claims redis worker settings s w u =
    claim_from-Good redis worker settings w.database u priority_order s w refl
