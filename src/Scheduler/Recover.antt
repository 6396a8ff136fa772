-- ===== src/Scheduler/Recover.antt =====
-- One sweep of `recover_stale_claimed_jobs` in src/notify_queue/scheduler/scheduler.py.
pub mod Rows
use notify_queue.Base.{
  ℕ, ◌+◌, ◌≡◌, refl, sym, subst, ap, ◌∙◌, Bool, true, false, some, List, map, arith, ◌==◌, leb, All,
  All-map, All-map_list, All-select, any, any-map, select,
}
use notify_queue.Schema.{Job}
use notify_queue.Schema.Table.{
  find_job, All-find, update_where, IsRow, All-IsRow, Unique, update_rows, any-select,
  find_job-update_rows, updated,
}
use notify_queue.Settings.{Settings}
use notify_queue.Redis.{Redis}
use notify_queue.Statements.Scheduler.{
  is_stale_claim, recovered_job, recover_stale_claimed, update_jobs,
}
use notify_queue.Effects.{Command, pure}
use notify_queue.Effects.Run.{Moment, World, run, perform}
use notify_queue.Effects.Fine.{next, run-call}
use notify_queue.Effects.Clean.{IsClean, next-IsClean, Done-world, Done, From, From-pure, From-bind}
use notify_queue.Consistency.{IsConsistent, has_letter, Lettered}
use notify_queue.System.Safety.{run-IsConsistent}
use notify_queue.Scheduler.Recover.Rows.{Dead, Live, Fate, recover_rows-Fate, recover_rows-Live}
use notify_queue.Scheduler.{recover_rows, ids, recover_stale_claimed_jobs}
use notify_queue.Lifecycle.Outcomes.{recovered}

-- The rows that the statement returns for the job `j` are its row as recovered.
returned_same :
    (p : Job → Bool) (now : ℕ) (js : List Job) (j : Job)
    → Unique js
    → IsRow js j
    → All (λ b. b.id ≡ j.id → b ≡ recovered_job now j) (map (recovered_job now) (select p js))
returned_same p now js j u row =
    All-map_list (λ b. b.id ≡ j.id → b ≡ recovered_job now j) (recovered_job now) (select p js)
      (All-map (select p js) (λ b h e. ap (recovered_job now) (one_row b h.0 e))
        (All-select (IsRow js) p js (All-IsRow js u)))
  where
    one_row : (b : Job) → IsRow js b → b.id ≡ j.id → b ≡ j
    one_row b found same = ground arith

module _ {Q L C : Type 0} (redis : Redis Q L C) (settings : Settings) where
  -- The sweep over servers that do not fail, where each POST of a webhook is answered or fails by an
  -- httpx.HTTPError, and by no other error of the client such as httpx.InvalidURL: a claimed job whose
  -- last heartbeat is older than the timeout counts one attempt more; if that was its last, it is
  -- dead-lettered, with its row in the dead-letter queue, and else it is pending again, with no worker.
  -- The tables are consistent before.
  pub recover_stale_claimed_jobs-row :
      (s : ℕ → Moment) (w : World Q L C) (j : Job)
      → IsClean s
      → IsConsistent w.database
      → IsRow w.database.jobs j
      → is_stale_claim settings.heartbeat_timeout (s 0).now j ≡ true
      → let r = recovered (s 0).now j in
        let w' = (run redis s (recover_stale_claimed_jobs settings) w).1 in
        (leb j.max_attempts (j.attempt_count + 1) ≡ true
          → Dead redis settings r refl w' × (has_letter w'.database.dead_letter_queue j.id ≡ true))
        × (leb j.max_attempts (j.attempt_count + 1) ≡ false
            → find_job j.id w'.database.jobs ≡ some r)
  unfolding recover_stale_claimed_jobs perform recover_stale_claimed update_jobs update_where
  recover_stale_claimed_jobs-row s w j h consistent row stale = (
    λ last.
        let dead = swept (Dead redis settings r refl) (dies last) in
        (
          dead,
          All-find (Lettered ended.database.dead_letter_queue) j.id ended.database.jobs
              kept.lettered dead.1,
        ),
    λ more.
        swept (Live redis settings r refl)
          (recover_rows-Live redis settings r refl rows w1 more same live),
  )
    where
      old : Job → Bool
      old = is_stale_claim settings.heartbeat_timeout (s 0).now

      r : Job
      r = recovered (s 0).now j

      rows : List Job
      rows = map (recovered_job (s 0).now) (select old w.database.jobs)

      w1 : World Q L C
      w1 = record w {
        database = record w.database {
          jobs = update_rows old (recovered_job (s 0).now) w.database.jobs;
        };
      }

      live : Live redis settings r refl w1
      live =
          find_job-update_rows old (recovered_job (s 0).now) (λ _. refl) j.id w.database.jobs
          ∙ ap (updated old (recovered_job (s 0).now)) row
          ∙ rw stale

      same : All (λ b. b.id ≡ r.id → b ≡ r) rows
      same = returned_same old (s 0).now w.database.jobs j consistent.unique row

      ended : World Q L C
      ended = (run redis s (recover_stale_claimed_jobs settings) w).1

      kept : IsConsistent ended.database
      kept = run-IsConsistent redis s (recover_stale_claimed_jobs settings) w consistent

      found : any (λ b. b.id == j.id) rows ≡ true
      found =
          any-map (λ b. b.id == j.id) (recovered_job (s 0).now) (select old w.database.jobs)
          ∙ any-select old j.id w.database.jobs row stale

      dies :
          leb j.max_attempts (j.attempt_count + 1) ≡ true
          → From redis w1 (recover_rows settings rows) (λ _. Dead redis settings r refl)
      dies last =
          subst
            (λ m. From redis w1 (recover_rows settings rows) (λ _. Fate redis settings r refl m))
            found (recover_rows-Fate redis settings r refl rows false w1 last same live)

      swept :
          (R : World Q L C → Type 0) → From redis w1 (recover_rows settings rows) (λ _. R) → R ended
      swept R from = Done-world redis R (run redis s (recover_stale_claimed_jobs settings) w) (
          subst (Done (λ _. R))
            (sym (
              run-call redis s (Command.recover_stale_claimed settings.heartbeat_timeout) _ w
                (h.0 0)))
            (From-bind redis (λ _. R) (λ _. R) w1 (recover_rows settings rows)
              (λ _. pure (ids rows)) from (λ _ v e. From-pure redis (λ _. R) v (ids rows) e)
              (next s) (next-IsClean s h)))
