-- ===== src/Worker/Claim/Order.antt =====
-- The order in which `claim_next_job` of src/notify_queue/worker/claim.py takes jobs.
use notify_queue.Base.{ℕ, suc, ◌≤◌, ◌≡◌, ap, ◌∙◌, true, false, Option, some, [], ◌∷◌}
use notify_queue.Schema.{Job, Priority}
use notify_queue.Schema.Table.{find_job, Unique}
use notify_queue.Settings.{Settings}
use notify_queue.Redis.{Redis, is_held}
use notify_queue.Statements.Worker.{is_queued, claimed_by, claim_queued_job}
use notify_queue.Statements.Worker.Row.{update_job-reply}
use notify_queue.Effects.{ok, Command, Program}
use notify_queue.Effects.Run.{Moment, World, run, perform}
use notify_queue.Effects.Fine.{AllFine, next, run-call, run-pure}
use notify_queue.Worker.Claim.{after_update, claim_popped, claim_from, claim_next_job}

module _ {Q L C : Type 0} (redis : Redis Q L C) (worker : ℕ) (settings : Settings) where
  claim_reply :
      (i now : ℕ) (w : World Q L C) (j : Job)
      → Unique w.database.jobs
      → find_job i w.database.jobs ≡ some j
      → is_queued j ≡ true
      → (claim_queued_job worker i now w.database).0 ≡ some (claimed_by worker now j)
  unfolding claim_queued_job
  claim_reply i now w j u e q =
      update_job-reply i is_queued (claimed_by worker now) w.database u ∙ rw e (rw q)

  popped-claims :
      (rest : Program (Option ℕ)) (i : ℕ) (s : ℕ → Moment) (w : World Q L C) (j : Job)
      → AllFine s
      → Unique w.database.jobs
      → find_job i w.database.jobs ≡ some j
      → is_queued j ≡ true
      → is_held (s 0).now (redis.lock i w.locks) ≡ false
      → let (r, w') = run redis s (claim_popped worker settings rest (some i)) w in
        (r ≡ ok (some i)) × (w'.queues ≡ w.queues)
  unfolding claim_popped perform
  popped-claims rest i s w j h u e q free = (ap (λ r. r.0) whole, ap (λ r. r.1.queues) whole)
    where
      acquired : (redis.set_nx i worker settings.job_lock_ttl (s 0).now w.locks).0 ≡ true
      acquired = redis.set_nx-acquires i worker settings.job_lock_ttl (s 0).now w.locks ∙ rw free

      w1 : World Q L C
      w1 = record w { locks = (redis.set_nx i worker settings.job_lock_ttl (s 0).now w.locks).1 }

      w2 : World Q L C
      w2 = record w1 { database = (claim_queued_job worker i (s 1).now w.database).1 }

      whole : run redis s (claim_popped worker settings rest (some i)) w ≡ (ok (some i), w2)
      whole =
          run-call redis s (Command.set_lock i worker settings.job_lock_ttl) _ w (h 0)
          ∙ rw acquired (
              run-call redis (next s) (Command.claim_queued_job worker i) _ w1 (h 1)
              ∙ ap (λ o. run redis (next (next s)) (after_update i rest o) w2)
                  (claim_reply i (s 1).now w j u e q)
              ∙ run-pure redis (next (next s)) (some i) w2)

  -- A worker that finds a job in the high queue takes that job: if nothing fails, the job of least score
  -- there, unlocked and still queued in the table, is the one that is claimed, and only the high queue
  -- has been popped.
  -- No id stands twice.
  pub claim_next_job-high :
      (i : ℕ) (s : ℕ → Moment) (w : World Q L C) (j : Job)
      → AllFine s
      → Unique w.database.jobs
      → (redis.zpopmin Priority.high w.queues).0 ≡ some i
      → find_job i w.database.jobs ≡ some j
      → is_queued j ≡ true
      → is_held (s 1).now (redis.lock i w.locks) ≡ false
      → let (r, w') = run redis s (claim_next_job worker settings) w in
        (r ≡ ok (some i))
        × (w'.queues ≡ (redis.zpopmin Priority.high w.queues).1)
        × ((k t : ℕ)
            → redis.zscore Priority.high k w.queues ≡ some t
            → (v : ℕ) × (redis.zscore Priority.high i w.queues ≡ some v) × (v ≤ t))
  unfolding claim_next_job perform
  claim_next_job-high i s w j h u top e q free = (
    ap (λ r. r.0) popped ∙ claims.0,
    ap (λ r. r.1.queues) popped ∙ claims.1,
    λ k t at. redis.zpopmin_least Priority.high i k t w.queues top at,
  )
    where
      rest : Program (Option ℕ)
      rest = claim_from worker settings (Priority.medium ∷ Priority.low ∷ [])

      w1 : World Q L C
      w1 = record w { queues = (redis.zpopmin Priority.high w.queues).1 }

      popped :
          run redis s (claim_next_job worker settings) w
          ≡ run redis (next s) (claim_popped worker settings rest (some i)) w1
      popped =
          run-call redis s (Command.zpopmin Priority.high) _ w (h 0)
          ∙ ap (λ o. run redis (next s) (claim_popped worker settings rest o) w1) top

      claims :
          let (r, w') = run redis (next s) (claim_popped worker settings rest (some i)) w1 in
          (r ≡ ok (some i)) × (w'.queues ≡ w1.queues)
      claims = popped-claims rest i (next s) w1 j (λ n. h (suc n)) u e q free
