-- ===== src/Simulation/Submit/Steps.antt =====
-- One request of scripts/simulate.py, answered by `create_job` of src/notify_queue/api/routes.py.
use notify_queue.Base.{ℕ, ◌≡◌, refl, ap, ◌∙◌, none, some, [], ◌∷◌, Text}
use notify_queue.Schema.{Database}
use notify_queue.Schema.Table.{find_job}
use notify_queue.Settings.{Settings}
use notify_queue.Redis.{Redis}
use notify_queue.Models.{JobCreate, validate, resolve_send_at}
use notify_queue.Effects.{Command, Program, ◌>>=◌}
use notify_queue.Effects.Run.{Moment, World, run, perform}
use notify_queue.Effects.Fine.{AllFine, next, run-call}
use notify_queue.Statements.Api.{
  NewJob, new_job, find_key, insert_key_if_given, create_job_transaction,
}
use notify_queue.Api.{job_row, create_job, post_jobs, on_violation}
use notify_queue.Api.Create.{
  with_new_job, insert_job-fresh, insert_key-unused, insert_key-taken, transaction_inserts,
}
use notify_queue.Simulation.{submit}

-- The tables with one more job.
abbrev pub with_job : NewJob → ℕ → ℕ → Database → Database
with_job n id now db = record db { jobs = new_job n id now ∷ db.jobs }

transaction_plain :
    (n : NewJob) (id now : ℕ) (db : Database)
    → find_job id db.jobs ≡ none
    → create_job_transaction n none id now db ≡ some (with_job n id now db)
unfolding create_job_transaction insert_key_if_given
transaction_plain n id now db fresh =
    ap (insert_key_if_given none id now) (insert_job-fresh n 0 [] id now db fresh)

module _ {Q L C : Type 0} (redis : Redis Q L C) (settings : Settings) (body : JobCreate)
    (valid : validate body ≡ some body) (s : ℕ → Moment) (h : AllFine s) (w : World Q L C)
    (fresh : find_job (s 1).fresh_id w.database.jobs ≡ none) {A : Type 0}
    (rest : ℕ → Program A) where
  abbrev row : NewJob
  row = job_row body settings (resolve_send_at body.send_at body.delay_seconds (s 0).now)

  -- A request without a key is answered by 201.
  pub submit-plain :
      body.idempotency_key ≡ none
      → run redis s (submit settings body >>= rest) w
        ≡ run redis
            (next (next s))
            (rest 201)
            (record w { database = with_job row (s 1).fresh_id (s 1).now w.database })
  unfolding submit post_jobs create_job perform
  submit-plain given = rw valid (
      run-call redis s Command.read_clock _ w (h 0)
      ∙ run-call redis (next s) (Command.create_job_transaction row body.idempotency_key) _ w (h 1)
      ∙ rw given (rw (transaction_plain row (s 1).fresh_id (s 1).now w.database fresh) refl))

  module _ (c : ℕ) (key : Text) (given : body.idempotency_key ≡ some (c ∷ key)) where
    -- With a key that is not in use, too.
    pub submit-new :
        find_key (c ∷ key) w.database.job_idempotency ≡ none
        → run redis s (submit settings body >>= rest) w
          ≡ run redis (next (next s)) (rest 201) (record w {
            database = with_new_job row (c ∷ key) (s 1).fresh_id (s 1).now w.database;
          })
    unfolding submit post_jobs create_job perform
    submit-new unused = rw valid (
        run-call redis s Command.read_clock _ w (h 0)
        ∙ run-call redis (next s) (Command.create_job_transaction row body.idempotency_key) _ w
            (h 1)
        ∙ rw given (
            rw
              (transaction_inserts row c key (s 1).fresh_id (s 1).now w.database fresh
                ∙ insert_key-unused row c key (s 1).fresh_id (s 1).now w.database fresh unused)
              refl))

    -- With a key in use it is answered by 409.
    pub submit-taken :
        {i : ℕ}
        → find_key (c ∷ key) w.database.job_idempotency ≡ some i
        → run redis s (submit settings body >>= rest) w
          ≡ run redis (next (next (next s))) (rest 409) w
    unfolding submit post_jobs create_job perform on_violation
    submit-taken taken = rw valid (
        run-call redis s Command.read_clock _ w (h 0)
        ∙ run-call redis (next s) (Command.create_job_transaction row body.idempotency_key) _ w
            (h 1)
        ∙ rw given (
            rw
              (transaction_inserts row c key (s 1).fresh_id (s 1).now w.database fresh
                ∙ insert_key-taken row c key (s 1).fresh_id (s 1).now w.database fresh taken)
              (run-call redis (next (next s)) (Command.select_existing_job_id (some (c ∷ key))) _ w
                (h 2))))
