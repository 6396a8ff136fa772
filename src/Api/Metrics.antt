-- ===== src/Api/Metrics.antt =====
-- What `metrics` of src/notify_queue/api/routes.py counts.
use notify_queue.Base.{
  ℕ, ◌+◌, ◌≡◌, refl, sym, ap, ◌++◌, ◌∙◌, inl, inr, List, [], ◌∷◌, map, arith, ◌==◌, ==_iff,
  Bool-cases, length,
}
use notify_queue.Schema.{Job, JobStatus}
use notify_queue.Redis.{Redis}
use notify_queue.Effects.{ok, Command}
use notify_queue.Effects.Run.{fine, Moment, World, run, perform}
use notify_queue.Effects.Fine.{next, run-call, run-pure}
use notify_queue.Statements.Api.{count_status, metrics_rows, select_metrics}
use notify_queue.Api.{job_statuses, put_count, update_counts, no_counts, metrics}

abbrev pub sum : List ℕ → ℕ
sum [] = 0
sum (n ∷ ns) = n + sum ns

-- The counts once the rows for some statuses have been seen, and the others not.
abbrev partly : List JobStatus → List JobStatus → List Job → List (JobStatus × ℕ)
partly seen others js = map (λ s. (s, count_status s js)) seen ++ map (λ s. (s, 0)) others

-- A row for a status that does not occur is left out, and its count stays the 0 that it was.
put_found :
    (s : JobStatus) (ss : List JobStatus) (counts : List (JobStatus × ℕ)) (js : List Job)
    → put_count counts (s, 0) ≡ counts
    → update_counts counts (metrics_rows (s ∷ ss) js)
      ≡ update_counts (put_count counts (s, count_status s js)) (metrics_rows ss js)
unfolding update_counts
put_found s ss counts js zeroed = elim (Bool-cases (count_status s js == 0)) [
  | inl e ↦ rw e (
      rw ((==_iff (count_status s js) 0).0 e)
        (ap (λ c. update_counts c (metrics_rows ss js)) (sym zeroed)))
  | inr e ↦ rw e refl
]

pub counts_all :
    (js : List Job)
    → update_counts no_counts (metrics_rows job_statuses js)
      ≡ map (λ s. (s, count_status s js)) job_statuses
unfolding put_count update_counts
counts_all js =
    put_found JobStatus.pending
      (JobStatus.queued ∷ JobStatus.claimed ∷ JobStatus.sent ∷ JobStatus.failed
        ∷ JobStatus.dead_lettered ∷ [])
      (partly ([])
        (JobStatus.pending ∷ JobStatus.queued ∷ JobStatus.claimed ∷ JobStatus.sent
          ∷ JobStatus.failed ∷ JobStatus.dead_lettered ∷ [])
        js)
      js refl
    ∙ put_found JobStatus.queued
        (JobStatus.claimed ∷ JobStatus.sent ∷ JobStatus.failed ∷ JobStatus.dead_lettered ∷ [])
        (partly (JobStatus.pending ∷ [])
          (JobStatus.queued ∷ JobStatus.claimed ∷ JobStatus.sent ∷ JobStatus.failed
            ∷ JobStatus.dead_lettered ∷ [])
          js)
        js refl
    ∙ put_found JobStatus.claimed (JobStatus.sent ∷ JobStatus.failed ∷ JobStatus.dead_lettered ∷ [])
        (partly (JobStatus.pending ∷ JobStatus.queued ∷ [])
          (JobStatus.claimed ∷ JobStatus.sent ∷ JobStatus.failed ∷ JobStatus.dead_lettered ∷ []) js)
        js refl
    ∙ put_found JobStatus.sent (JobStatus.failed ∷ JobStatus.dead_lettered ∷ [])
        (partly (JobStatus.pending ∷ JobStatus.queued ∷ JobStatus.claimed ∷ [])
          (JobStatus.sent ∷ JobStatus.failed ∷ JobStatus.dead_lettered ∷ []) js)
        js refl
    ∙ put_found JobStatus.failed (JobStatus.dead_lettered ∷ [])
        (partly (JobStatus.pending ∷ JobStatus.queued ∷ JobStatus.claimed ∷ JobStatus.sent ∷ [])
          (JobStatus.failed ∷ JobStatus.dead_lettered ∷ []) js)
        js refl
    ∙ put_found JobStatus.dead_lettered ([])
        (partly
          (JobStatus.pending ∷ JobStatus.queued ∷ JobStatus.claimed ∷ JobStatus.sent
            ∷ JobStatus.failed ∷ [])
          (JobStatus.dead_lettered ∷ []) js)
        js refl

pub sum_counts : (js : List Job) → sum (map (λ s. count_status s js) job_statuses) ≡ length js
unfolding count_status
sum_counts [] = refl
sum_counts (j ∷ js) = ground (arith, sum_counts js)

module _ {Q L C : Type 0} (redis : Redis Q L C) where
  -- The metrics name each of the six statuses once, in the order of `JOB_STATUSES`, with the number of
  -- jobs that have it, which may be 0, and these add up to the number of jobs. The query does not fail.
  pub metrics_count :
      (s : ℕ → Moment) (w : World Q L C)
      → (s 0).fault ≡ fine
      → (run redis s metrics w
          ≡ (ok (map (λ t. (t, count_status t w.database.jobs)) job_statuses), w))
        × (sum (map (λ t. count_status t w.database.jobs) job_statuses) ≡ length w.database.jobs)
  unfolding metrics perform select_metrics
  metrics_count s w h = (
    run-call redis s Command.select_metrics _ w h
        ∙ run-pure redis (next s) _ w
        ∙ ap (λ c. (ok c, w)) (counts_all w.database.jobs),
    sum_counts w.database.jobs,
  )
