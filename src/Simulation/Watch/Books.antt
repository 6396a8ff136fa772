-- ===== src/Simulation/Watch/Books.antt =====
-- What it means that `watch_until_drained` of scripts/simulate.py finds the queue drained.
use notify_queue.Base.{
  ℕ, zero, suc, ◌+◌, ◌-◌, ◌≤◌, ◌≡◌, refl, ap, subst, sym, ◌∙◌, some, List, [], ◌∷◌, map, arith, leb,
  ◌==◌, ==_iff, if_both, length, select,
}
use notify_queue.Schema.{Job, JobStatus}
use notify_queue.Redis.{Redis}
use notify_queue.Effects.{Result, ok, err, Command, Program, pure, ◌>>◌, await}
use notify_queue.Effects.Run.{Moment, World, run, perform, execute}
use notify_queue.Effects.Fine.{AllFine, next, run-call}
use notify_queue.Statements.Api.{count_status, select_metrics}
use notify_queue.Api.{job_statuses, metrics, list_jobs, get_jobs}
use notify_queue.Api.Metrics.{counts_all, sum_counts}
use notify_queue.Simulation.{split_jobs, split_pending}
use notify_queue.Simulation.Pending.{pending_rows, listed, listed_in_flight, length-listed}
use notify_queue.Simulation.Watch.{
  count_of, Watched, drained, timed_out, active_jobs, judge, rest_of_round, watch_round, watch,
}
use notify_queue.Simulation.Watch.Ends.{after_round}

-- What a report says of the jobs in the table.
abbrev pub IsReport : List Job → Result Watched → Type 0
IsReport jobs (ok (drained counts deferred)) =
    (counts ≡ map (λ t. (t, count_status t jobs)) job_statuses)
    × (count_status JobStatus.queued jobs ≡ 0)
    × (count_status JobStatus.claimed jobs ≡ 0)
    × (count_status JobStatus.sent jobs
          + count_status JobStatus.failed jobs
          + count_status JobStatus.dead_lettered jobs
          + deferred
        ≡ length jobs)
IsReport jobs (ok _) = Unit
IsReport jobs (err e) = ⊥

length-pending_rows : (js : List Job) → length (pending_rows js) ≡ count_status JobStatus.pending js
unfolding select count_status
length-pending_rows [] = refl
length-pending_rows (j ∷ js) = ground (arith, length-pending_rows js)

module _ {Q L C : Type 0} (redis : Redis Q L C) (w : World Q L C)
    (few : length (pending_rows w.database.jobs) ≤ 200) where
  abbrev count : JobStatus → ℕ
  count t = count_status t w.database.jobs

  abbrev Reports : Result Watched × World Q L C → Type 0
  Reports r = IsReport w.database.jobs r.0

  -- No job is queued, claimed, or pending and in flight.
  books :
      (now : ℕ)
      → count JobStatus.queued + count JobStatus.claimed + listed_in_flight now w.database ≡ 0
      → IsReport w.database.jobs (
          ok (
            drained
              (map (λ t. (t, count t)) job_statuses)
              (length (listed w.database) - listed_in_flight now w.database)))
  books now idle =
      let all = length-listed w.database few in
      let pending = length-pending_rows w.database.jobs in
      let total = sum_counts w.database.jobs in (refl, omega arith, omega arith, omega arith)

  judge-Reports :
      (deadline poll : ℕ) (again : Program Watched) (s : ℕ → Moment) (now : ℕ)
      → AllFine s
      → Reports (run redis (next (next s)) again w)
      → Reports (
          run redis s
            (judge deadline poll again
              (map (λ t. (t, count t)) job_statuses)
              (listed_in_flight now w.database)
              (length (listed w.database) - listed_in_flight now w.database))
            w)
  unfolding run judge active_jobs count_of rest_of_round perform execute
  judge-Reports deadline poll again s now h rest =
      if_both (λ p. Reports (run redis s p w))
        (count JobStatus.queued + count JobStatus.claimed + listed_in_flight now w.database == 0)
        (pure _) (rest_of_round deadline poll again) (λ idle. books now ((==_iff _ 0).0 idle))
        (λ _.
          if_both (λ p. Reports (run redis (next s) p w)) (leb deadline (s 0).now) (pure timed_out)
            (await (Command.sleep poll) >> again) (λ _. tt) (λ _. rest))

  watch_round-Reports :
      (deadline poll : ℕ) (again : Program Watched) (s : ℕ → Moment)
      → AllFine s
      → Reports (run redis (after_round s) again w)
      → Reports (run redis s (watch_round deadline poll again) w)
  unfolding watch_round metrics split_pending split_jobs get_jobs list_jobs perform select_metrics
  watch_round-Reports deadline poll again s h rest =
      subst Reports
        (sym (
          run-call redis s Command.select_metrics _ w (h 0)
          ∙ run-call redis (next s) (Command.select_recent_jobs (some JobStatus.pending) 200) _ w
              (h 1)
          ∙ run-call redis (next (next s)) Command.read_clock _ w (h 2)
          ∙ ap
              (λ c.
                run redis (next (next (next s)))
                  (judge deadline poll again c (listed_in_flight (s 2).now w.database)
                    (length (listed w.database) - listed_in_flight (s 2).now w.database))
                  w)
              (counts_all w.database.jobs)))
        (judge-Reports deadline poll again (next (next (next s))) (s 2).now
          (λ n. h (suc (suc (suc n)))) rest)

  -- While nothing fails, at most 200 jobs are pending and nothing else changes the tables, watching
  -- raises no exception, and a report that the queue is drained is right: no job is queued or claimed,
  -- and each job of the table is counted once, as sent, failed, dead-lettered or deferred.
  pub watch-IsReport :
      (rounds deadline poll : ℕ) (s : ℕ → Moment)
      → AllFine s
      → IsReport w.database.jobs (run redis s (watch rounds deadline poll) w).0
  unfolding watch run
  watch-IsReport zero deadline poll s h = tt
  watch-IsReport (suc rounds) deadline poll s h =
      watch_round-Reports deadline poll (watch rounds deadline poll) s h (
        watch-IsReport rounds deadline poll (after_round s)
          (λ n. h (suc (suc (suc (suc (suc n)))))))
