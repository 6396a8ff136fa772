-- ===== src/Simulation/Submit.antt =====
-- What the API does with the requests of scripts/simulate.py.
mod Steps
use notify_queue.Base.{
  ℕ, zero, suc, ◌+◌, ◌≡◌, ◌≢◌, refl, ap, subst, sym, ◌∙◌, ◌<◌, true, none, some, List, [], ◌∷◌,
  ◌++◌, arith, Text, text_eq_refl, length, All, codes, Bool, length-append,
}
use mathlib.Core.List.{append_assoc}
use notify_queue.Schema.{Job, JobStatus}
use notify_queue.Schema.Table.{find_job}
use notify_queue.Settings.{Settings}
use notify_queue.Redis.{Redis}
use notify_queue.Models.{JobCreate, validate, resolve_send_at}
use notify_queue.Effects.{Result, ok}
use notify_queue.Effects.Run.{Moment, World, run}
use notify_queue.Effects.Fine.{AllFine, next, run-pure}
use notify_queue.Statements.Api.{NewJob, new_job, find_key}
use notify_queue.Api.{job_row}
use notify_queue.Api.Create.{with_new_job}
use notify_queue.Simulation.{
  Simulation, submit, submit_each, submit_delivery_jobs, submit_rate_limit_burst,
  submit_duplicate_pair,
}
use notify_queue.Base.Decimal.{decimal}
use notify_queue.Simulation.Bodies.{delivery_body, duplicate_body, burst_body}
use Steps.{submit-plain, submit-new, submit-taken}

-- The ids to come are new, to the table and to each other.
abbrev pub AllFresh : (ℕ → Moment) → List Job → Type 0
AllFresh s jobs =
    ((n : ℕ) → find_job (s n).fresh_id jobs ≡ none)
    × ((n m : ℕ) → n < m → (s n).fresh_id ≢ (s m).fresh_id)

All-append_one :
    (P : Job → Type 0) (js : List Job) (j : Job) → All P js → P j → All P (js ++ j ∷ [])
All-append_one P [] j h p = (p, tt)
All-append_one P (k ∷ js) j h p = (h.0, All-append_one P js j h.1 p)

find_job-other :
    (i : ℕ) (j : Job) (jobs : List Job) → j.id ≢ i → find_job i (j ∷ jobs) ≡ find_job i jobs
unfolding find_job
find_job-other i j jobs different = ground arith

AllFresh-next :
    (s : ℕ → Moment) (jobs : List Job) (n : NewJob) (now : ℕ)
    → AllFresh s jobs
    → AllFresh (next (next s)) (new_job n (s 1).fresh_id now ∷ jobs)
AllFresh-next s jobs n now h = (
  λ k.
      find_job-other (s (suc (suc k))).fresh_id (new_job n (s 1).fresh_id now) jobs
        (h.1 1 (suc (suc k)) (omega arith))
      ∙ h.0 (suc (suc k)),
  λ k m lt. h.1 (suc (suc k)) (suc (suc m)) (omega arith),
)

module _ {Q L C : Type 0} (redis : Redis Q L C) (settings : Settings) where
  -- The rows that `n` accepted requests add.
  abbrev pub Adds : ℕ → World Q L C → Result Bool × World Q L C → Type 0
  Adds n w r =
      (added : List Job) × (r
        ≡ (ok true, record w { database = record w.database { jobs = added ++ w.database.jobs } }))
      × (length added ≡ n)
      × All (λ j. j.status ≡ JobStatus.pending) added

  Adds-suc :
      (n : ℕ) (w : World Q L C) (j : Job) (r : Result Bool × World Q L C)
      → j.status ≡ JobStatus.pending
      → Adds n (record w { database = record w.database { jobs = j ∷ w.database.jobs } }) r
      → Adds (suc n) w r
  Adds-suc n w j r pending (added, e, len, all) = (
    added ++ j ∷ [],
    e
        ∙ ap (λ l. (ok true, record w { database = record w.database { jobs = l } }))
            (sym (append_assoc added (j ∷ []) w.database.jobs)),
    length-append added (j ∷ []) ∙ omega arith,
    All-append_one (λ k. k.status ≡ JobStatus.pending) added j all pending,
  )

  module _ (body : ℕ → JobCreate) (valid : (i : ℕ) → validate (body i) ≡ some (body i))
      (plain : (i : ℕ) → (body i).idempotency_key ≡ none) where
    submit_each-Adds :
        (n i : ℕ) (s : ℕ → Moment) (w : World Q L C)
        → AllFine s
        → AllFresh s w.database.jobs
        → Adds n w (run redis s (submit_each settings body n i) w)
    unfolding submit_each run
    submit_each-Adds zero i s w h fresh = ([], refl, refl, tt)
    submit_each-Adds (suc n) i s w h fresh =
        let row =
          job_row (body i) settings
            (resolve_send_at (body i).send_at (body i).delay_seconds (s 0).now) in
        subst (Adds (suc n) w)
          (sym (submit-plain redis settings (body i) (valid i) s h w (fresh.0 1) _ (plain i)))
          (Adds-suc n w (new_job row (s 1).fresh_id (s 1).now) _ refl (
            submit_each-Adds n (i + 1) (next (next s)) _ (λ k. h (suc (suc k)))
              (AllFresh-next s w.database.jobs row (s 1).now fresh)))

delivery_body-valid :
    (api : Text) (i : ℕ) → validate (delivery_body api i) ≡ some (delivery_body api i)
unfolding validate
delivery_body-valid api i = ground arith

burst_body-valid :
    (c : ℕ) (recipient : Text)
    → validate (burst_body (c ∷ recipient)) ≡ some (burst_body (c ∷ recipient))
unfolding validate
burst_body-valid c recipient = refl

module _ {Q L C : Type 0} (redis : Redis Q L C) (settings : Settings) where
  -- Nothing fails and the ids are fresh: every request of the delivery test is accepted, and the table
  -- gains a pending row for each of them and nothing else.
  pub submit_delivery_jobs-Adds :
      (sim : Simulation) (s : ℕ → Moment) (w : World Q L C)
      → AllFine s
      → AllFresh s w.database.jobs
      → Adds redis settings sim.jobs w (run redis s (submit_delivery_jobs settings sim) w)
  unfolding submit_delivery_jobs
  submit_delivery_jobs-Adds sim =
      submit_each-Adds redis settings (delivery_body sim.api) (delivery_body-valid sim.api)
        (λ _. refl) sim.jobs 0

  -- So is every request of the burst, if the recipient is not empty.
  pub submit_rate_limit_burst-Adds :
      (sim : Simulation) (c : ℕ) (recipient : Text) (s : ℕ → Moment) (w : World Q L C)
      → sim.burst_recipient ≡ c ∷ recipient
      → AllFine s
      → AllFresh s w.database.jobs
      → Adds redis settings sim.burst w (run redis s (submit_rate_limit_burst settings sim) w)
  unfolding submit_rate_limit_burst
  submit_rate_limit_burst-Adds sim c recipient s w given h fresh = rw given (
      submit_each-Adds redis settings (λ _. burst_body (c ∷ recipient))
        (λ _. burst_body-valid c recipient) (λ _. refl) sim.burst 0 s w h fresh)

  -- Nothing fails, the ids are fresh and the key is not in use: the idempotency test passes, and of its
  -- two requests only the first adds a row, with its key.
  pub submit_duplicate_pair_passes :
      (stamp : ℕ) (s : ℕ → Moment) (w : World Q L C)
      → AllFine s
      → AllFresh s w.database.jobs
      → find_key (codes "sim-dup-" ++ decimal stamp) w.database.job_idempotency ≡ none
      → run redis s (submit_duplicate_pair settings stamp) w ≡ (
        ok true,
        record w {
          database =
              with_new_job
                (job_row (duplicate_body stamp) settings (s 0).now)
                (codes "sim-dup-" ++ decimal stamp)
                (s 1).fresh_id
                (s 1).now
                w.database;
        },
      )
  unfolding submit_duplicate_pair validate resolve_send_at find_key
  submit_duplicate_pair_passes stamp s w h fresh unused =
      let row = job_row (duplicate_body stamp) settings ((s 0).now + 0) in
      let key = codes "sim-dup-" ++ decimal stamp in
      submit-new redis settings (duplicate_body stamp) refl s h w (fresh.0 1) _ _ _ refl unused
      ∙ submit-taken redis settings (duplicate_body stamp) refl (next (next s))
          (λ n. h (suc (suc n)))
          (record w { database = with_new_job row key (s 1).fresh_id (s 1).now w.database })
          ((AllFresh-next s w.database.jobs row (s 1).now fresh).0 1) _ _ _ refl
          {i = (s 1).fresh_id} (rw (text_eq_refl key) refl)
      ∙ run-pure redis (next (next (next (next (next s))))) true _
      ∙ ap
          (λ at. (
            ok true,
            record w {
              database =
                  with_new_job (job_row (duplicate_body stamp) settings at) key (s 1).fresh_id
                    (s 1).now w.database;
            },
          ))
          (now_lem (s 0).now)
    where
      now_lem : (now : ℕ) → now + 0 ≡ now
      now_lem now = omega arith
