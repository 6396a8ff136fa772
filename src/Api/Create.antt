-- ===== src/Api/Create.antt =====
-- Two requests to `create_job` of src/notify_queue/api/routes.py with one idempotency key.
use notify_queue.Base.{ℕ, ◌≡◌, refl, ap, ◌∙◌, none, some, ◌∷◌, Text, text_eq_refl, arith}
use notify_queue.Schema.{JobStatus, Database}
use notify_queue.Schema.Table.{find_job}
use notify_queue.Settings.{Settings}
use notify_queue.Redis.{Redis}
use notify_queue.Models.{JobCreate, resolve_send_at}
use notify_queue.Effects.{ok, Command, pure}
use notify_queue.Effects.Run.{Moment, World, run, perform}
use notify_queue.Effects.Fine.{AllFine, next, run-call, run-pure}
use notify_queue.Statements.Api.{
  NewJob, new_job, find_key, insert_job, insert_idempotency_key, insert_key_if_given,
  create_job_transaction, select_existing_job_id,
}
use notify_queue.Api.{created, duplicate_job, job_row, create_job}

-- The tables with a new job and its key.
abbrev pub with_new_job : NewJob → Text → ℕ → ℕ → Database → Database
with_new_job n key id now db = record db {
  jobs = new_job n id now ∷ db.jobs;
  job_idempotency =
      record { idempotency_key = key; job_id = id; created_at = now } ∷ db.job_idempotency;
}

module _ (n : NewJob) (c : ℕ) (key : Text) (id now : ℕ) (db : Database)
    (fresh : find_job id db.jobs ≡ none) where
  pub insert_job-fresh :
      insert_job n id now db ≡ some (record db { jobs = new_job n id now ∷ db.jobs })
  unfolding insert_job
  insert_job-fresh = rw (insert_job, fresh) refl

  pub insert_key-unused :
      find_key (c ∷ key) db.job_idempotency ≡ none
      → insert_idempotency_key (c ∷ key) id now (record db { jobs = new_job n id now ∷ db.jobs })
        ≡ some (with_new_job n (c ∷ key) id now db)
  unfolding insert_idempotency_key
  insert_key-unused unused = rw (insert_idempotency_key, unused) refl

  pub insert_key-taken :
      {i : ℕ}
      → find_key (c ∷ key) db.job_idempotency ≡ some i
      → insert_idempotency_key (c ∷ key) id now (record db { jobs = new_job n id now ∷ db.jobs })
        ≡ none
  unfolding insert_idempotency_key
  insert_key-taken taken = rw (insert_idempotency_key, taken) refl

  pub transaction_inserts :
      create_job_transaction n (some (c ∷ key)) id now db
      ≡ insert_idempotency_key (c ∷ key) id now (record db { jobs = new_job n id now ∷ db.jobs })
  unfolding create_job_transaction insert_key_if_given
  transaction_inserts = ap (insert_key_if_given (some (c ∷ key)) id now) insert_job-fresh

module _ {Q L C : Type 0} (redis : Redis Q L C) (body : JobCreate) (settings : Settings) (c : ℕ)
    (key : Text) (given : body.idempotency_key ≡ some (c ∷ key)) (s : ℕ → Moment)
    (fine_all : AllFine s) (w : World Q L C)
    (fresh : find_job (s 1).fresh_id w.database.jobs ≡ none) where
  abbrev row : NewJob
  row = job_row body settings (resolve_send_at body.send_at body.delay_seconds (s 0).now)

  pub create_new :
      find_key (c ∷ key) w.database.job_idempotency ≡ none
      → run redis s (create_job body settings) w ≡ (
        ok (created (s 1).fresh_id JobStatus.pending row.send_at),
        record w { database = with_new_job row (c ∷ key) (s 1).fresh_id (s 1).now w.database },
      )
  unfolding create_job perform
  create_new unused =
      run-call redis s Command.read_clock _ w (fine_all 0)
      ∙ run-call redis (next s) (Command.create_job_transaction row body.idempotency_key) _ w
          (fine_all 1)
      ∙ rw given (
          rw
            (transaction_inserts row c key (s 1).fresh_id (s 1).now w.database fresh
              ∙ insert_key-unused row c key (s 1).fresh_id (s 1).now w.database fresh unused)
            (run-pure redis (next (next s)) _ _))

  pub create_duplicate :
      (i : ℕ)
      → find_key (c ∷ key) w.database.job_idempotency ≡ some i
      → run redis s (create_job body settings) w ≡ (ok (duplicate_job (some i)), w)
  unfolding create_job perform select_existing_job_id
  create_duplicate i taken =
      run-call redis s Command.read_clock _ w (fine_all 0)
      ∙ run-call redis (next s) (Command.create_job_transaction row body.idempotency_key) _ w
          (fine_all 1)
      ∙ rw given (
          rw
            (transaction_inserts row c key (s 1).fresh_id (s 1).now w.database fresh
              ∙ insert_key-taken row c key (s 1).fresh_id (s 1).now w.database fresh taken)
            (run-call redis (next (next s)) (Command.select_existing_job_id (some (c ∷ key))) _ w
                (fine_all 2)
              ∙ ap (λ o. run redis (next (next (next s))) (pure (duplicate_job o)) w) taken
              ∙ run-pure redis (next (next (next s))) _ w))

module _ {Q L C : Type 0} (redis : Redis Q L C) where
  -- Of two requests with one idempotency key, whatever else they ask for, the first to come creates its
  -- job, and the second is told the id of that job and changes nothing. Nothing fails, the key is
  -- unused and not empty, and the fresh ids are new.
  pub create_job_once :
      (body again : JobCreate) (settings : Settings) (c : ℕ) (key : Text) (s t : ℕ → Moment)
      (w : World Q L C)
      → body.idempotency_key ≡ some (c ∷ key)
      → again.idempotency_key ≡ some (c ∷ key)
      → AllFine s
      → AllFine t
      → find_job (s 1).fresh_id w.database.jobs ≡ none
      → find_key (c ∷ key) w.database.job_idempotency ≡ none
      → let (r, w') = run redis s (create_job body settings) w in
        find_job (t 1).fresh_id w'.database.jobs ≡ none
        → (r
            ≡ ok (
                created
                  (s 1).fresh_id
                  JobStatus.pending
                  (resolve_send_at body.send_at body.delay_seconds (s 0).now)))
          × (find_job (s 1).fresh_id w'.database.jobs
              ≡ some (
                  new_job
                    (job_row body settings
                      (resolve_send_at body.send_at body.delay_seconds (s 0).now))
                    (s 1).fresh_id
                    (s 1).now))
          × (run redis t (create_job again settings) w'
              ≡ (ok (duplicate_job (some (s 1).fresh_id)), w'))
  unfolding find_job find_key
  create_job_once body again settings c key s t w given given' h h' fresh unused fresh' =
      let first = create_new redis body settings c key given s h w fresh unused in
      (
        ap (λ x. x.0) first,
        ap (λ x. find_job (s 1).fresh_id x.1.database.jobs) first ∙ ground arith,
        create_duplicate redis again settings c key given' t h'
            (run redis s (create_job body settings) w).1 fresh' (s 1).fresh_id
            (ap (λ x. find_key (c ∷ key) x.1.database.job_idempotency) first
              ∙ rw (text_eq_refl (c ∷ key)) refl),
      )
