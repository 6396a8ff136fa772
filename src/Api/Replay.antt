-- ===== src/Api/Replay.antt =====
-- `retry_dead_lettered_job` of src/notify_queue/api/routes.py on each of its branches.
use notify_queue.Base.{
  ℕ, ◌≡◌, refl, ap, ◌∙◌, inl, inr, Option, none, some, if◌then◌else◌, Option-cases, Bool-cases,
}
use notify_queue.Schema.{Job, JobStatus, Database}
use notify_queue.Schema.Table.{
  find_job, Unique, returned, update_rows, update_where, updated, keyed, find_job-update_rows,
}
use notify_queue.Consistency.{is_some}
use notify_queue.Redis.{Redis}
use notify_queue.Effects.{ok, Command}
use notify_queue.Effects.Run.{fine, Moment, World, run, perform}
use notify_queue.Effects.Fine.{next, run-call, run-pure}
use notify_queue.Statements.Worker.{update_job}
use notify_queue.Statements.Worker.Row.{update_job-reply}
use notify_queue.Statements.Api.{retry_dead_lettered, exists_job}
use notify_queue.Api.{
  Answer, success, not_found, conflict, after_replay, unreplayed, retry_dead_lettered_job,
}
use notify_queue.Lifecycle.Outcomes.{is_given_up, afresh}

-- What the client is told of a job with this row, or with none.
abbrev pub replay_answer : ℕ → Option Job → Answer (ℕ × JobStatus)
replay_answer i none = not_found
replay_answer i (some j) = if is_given_up j then success (i, JobStatus.pending) else conflict

-- The tables with the job `i` replayed, if it is dead-lettered.
abbrev pub with_replay : ℕ → ℕ → Database → Database
with_replay i now db = record db { jobs = update_rows (keyed i is_given_up) (afresh now) db.jobs }

exists_job-replay :
    (i now : ℕ) (db : Database) → exists_job i (with_replay i now db) ≡ is_some (find_job i db.jobs)
unfolding exists_job find_job
exists_job-replay i now db = elim (Option-cases (find_job i db.jobs)) [
  | inl e ↦ rw (exists_job, row, e) refl
  | inr (j, e) ↦ rw (exists_job, row, e) refl
]
  where
    row :
        find_job i (with_replay i now db).jobs
        ≡ updated (keyed i is_given_up) (afresh now) (find_job i db.jobs)
    row = find_job-update_rows (keyed i is_given_up) (afresh now) (λ j. refl) i db.jobs

module _ {Q L C : Type 0} (redis : Redis Q L C) (i now : ℕ) (s : ℕ → Moment) (w : World Q L C) where
  asked :
      (s 0).fault ≡ fine
      → run redis s (after_replay i none) w ≡ (ok (unreplayed (exists_job i w.database)), w)
  unfolding after_replay perform
  asked h = run-call redis s (Command.select_exists i) _ w h ∙ run-pure redis (next s) _ w

  answered :
      (o : Option Job)
      → (s 0).fault ≡ fine
      → exists_job i w.database ≡ is_some o
      → run redis s (after_replay i (returned is_given_up (afresh now) o)) w
        ≡ (ok (replay_answer i o), w)
  unfolding unreplayed after_replay
  answered none h e = asked h ∙ ap (λ b. (ok (unreplayed b), w)) e
  answered (some j) h e = elim (Bool-cases (is_given_up j)) [
    | inl d ↦ rw d (replayed (afresh now j))
    | inr a ↦ rw a (asked h ∙ ap (λ b. (ok (unreplayed b), w)) e)
  ]
    where
      replayed :
          (b : Job)
          → run redis s (after_replay i (some b)) w ≡ (ok (success (i, JobStatus.pending)), w)
      replayed b = run-pure redis s _ w

module _ {Q L C : Type 0} (redis : Redis Q L C) where
  -- A request to replay the job `i` answers 404 if there is no such job, 409 if the job is not
  -- dead-lettered, and else reports it pending; only in the last case a row changes, the job's own,
  -- which is then pending and due at once, with no attempt, error, failure or worker on record. Nothing
  -- fails in between, and no id stands twice.
  pub replay_answers :
      (i : ℕ) (s : ℕ → Moment) (w : World Q L C)
      → Unique w.database.jobs
      → (s 0).fault ≡ fine
      → (s 1).fault ≡ fine
      → run redis s (retry_dead_lettered_job i) w ≡ (
        ok (replay_answer i (find_job i w.database.jobs)),
        record w { database = with_replay i (s 0).now w.database },
      )
  unfolding retry_dead_lettered_job perform retry_dead_lettered update_job update_where
  replay_answers i s w u h h' =
      run-call redis s (Command.retry_dead_lettered i) _ w h
      ∙ ap
          (λ o.
            run redis (next s) (after_replay i o)
              (record w { database = with_replay i (s 0).now w.database }))
          (update_job-reply i is_given_up (afresh (s 0).now) w.database u)
      ∙ answered redis i (s 0).now (next s)
          (record w { database = with_replay i (s 0).now w.database }) (find_job i w.database.jobs)
          h' (exists_job-replay i (s 0).now w.database)
