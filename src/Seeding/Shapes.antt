-- ===== src/Seeding/Shapes.antt =====
-- Which jobs of scripts/seed.py look like jobs of the program.
use notify_queue.Base.{
  ℕ, ◌≡◌, ◌≢◌, ◌↔◌, refl, ap, subst, sym, ◌∙◌, false, none, ◌∷◌, Text, arith, Option-cases, inl,
  inr, codes, if_both, All, All-map, any,
}
use mathlib.Core.Bool.{false≢true}
use notify_queue.Schema.{Job, JobStatus, status_eq, Database}
use notify_queue.Schema.Table.{find_job}
use notify_queue.Statements.Api.{find_key}
use notify_queue.Statements.Audit.{insert_dead_letter}
use notify_queue.Consistency.{Shape, Refers, IsConsistent}
use notify_queue.Consistency.Update.{insert-IsConsistent, Refers-insert}
use notify_queue.Consistency.Commands.{insert_webhook_log-IsConsistent}
use notify_queue.Seeding.Rows.{
  Draw, Kind, base_job, sent_row, pending_future_row, retrying_row, queued_row, claimed_row,
  dead_lettered_row, seeded_letter, sent_time,
}
use notify_queue.Seeding.{insert, log_webhook, letter_and_log, seed}
use notify_queue.Seeding.Added.{
  IsNew, keys_after, key_of, with_row, insert-new, log_webhook-SameJobs,
}

-- A new key of a job in the table.
with_key :
    (d : Draw) (db : Database)
    → IsConsistent db
    → Refers db.jobs d.id
    → find_key (key_of d) db.job_idempotency ≡ none
    → IsConsistent (record db { job_idempotency = keys_after d db })
with_key d db c refers new =
    if_both (λ keys. IsConsistent (record db { job_idempotency = keys })) d.keyed
      (record { idempotency_key = key_of d; job_id = d.id; created_at = d.clock }
        ∷ db.job_idempotency)
      db.job_idempotency
      (λ _. record {
        unique = c.unique;
        shaped = c.shaped;
        lettered = c.lettered;
        keys = (new, c.keys);
        key_jobs = (refers, c.key_jobs);
        letter_jobs = c.letter_jobs;
      })
      (λ _. c)

module _ (d : Draw) (job : Job) (db : Database) (same : job.id ≡ d.id) (new : IsNew d db)
    (c : IsConsistent db) where
  fresh : find_job job.id db.jobs ≡ none
  fresh = ap (λ i. find_job i db.jobs) same ∙ new.0

  refers : Refers (job ∷ db.jobs) d.id
  unfolding find_job
  refers = ground (arith, same)

  -- A job of any other status than dead-lettered.
  alive :
      Shape job
      → status_eq job.status JobStatus.dead_lettered ≡ false
      → IsConsistent (insert d job db).1
  alive shape not_dead =
      subst (λ r. IsConsistent r.1) (sym (insert-new d job db same new))
        (with_key d (record db { jobs = job ∷ db.jobs })
          (insert-IsConsistent db job fresh shape not_dead c) refers new.1)

  -- A dead-lettered job, with its letter.
  dead : Shape job → IsConsistent (insert_dead_letter (seeded_letter d job) (with_row d job db))
  unfolding insert_dead_letter find_job any
  dead shape =
      with_key d
        (record db {
          jobs = job ∷ db.jobs;
          dead_letter_queue = seeded_letter d job ∷ db.dead_letter_queue;
        })
        (record {
          unique = (fresh, c.unique);
          shaped = (shape, c.shaped);
          lettered = (ground (arith, same), All-map db.jobs (λ j l. ground arith) c.lettered);
          keys = c.keys;
          key_jobs =
              All-map db.job_idempotency (λ r. Refers-insert job db.jobs fresh r.job_id) c.key_jobs;
          letter_jobs = (
            refers,
            All-map db.dead_letter_queue (λ l. Refers-insert job db.jobs fresh l.job_id)
                c.letter_jobs,
          );
        })
        refers new.1

log_webhook-IsConsistent :
    (job : Job) (status : Text) (at : ℕ) (db : Database)
    → IsConsistent db
    → IsConsistent (log_webhook job status at db).1
unfolding log_webhook
log_webhook-IsConsistent job status at db c = elim (Option-cases job.callback_url) [
  | inl e ↦ rw e c
  | inr (url, e) ↦ rw e (insert_webhook_log-IsConsistent db c _)
]

module _ (now sequence : ℕ) (d : Draw) (db : Database) (new : IsNew d db)
    (c : IsConsistent db) where
  keeps : (kind : Kind) → kind ≢ Kind.sent → IsConsistent (seed kind now sequence d db).1
  unfolding seed letter_and_log pending_future_row retrying_row queued_row claimed_row
      dead_lettered_row base_job
  keeps Kind.sent other = absurd (other refl)
  keeps Kind.pending_future other =
      alive d (pending_future_row now sequence d) db refl new c ((refl, refl, refl), refl) refl
  keeps Kind.retrying other =
      alive d (retrying_row now sequence d) db refl new c ((refl, refl, refl), refl) refl
  keeps Kind.queued other =
      alive d (queued_row now sequence d) db refl new c ((refl, refl, refl), refl) refl
  keeps Kind.claimed other =
      alive d (claimed_row now sequence d) db refl new c ((refl, refl, refl), refl) refl
  keeps Kind.dead_lettered other =
      let job = dead_lettered_row now sequence d in
      rw (insert-new d job db refl new)
        (log_webhook-IsConsistent job _ _ _ (dead d job db refl new c ((refl, refl, refl), refl)))

  sent_first : (seed Kind.sent now sequence d db).1.jobs ≡ sent_row now sequence d ∷ db.jobs
  unfolding seed sent_row base_job
  sent_first =
      let job = sent_row now sequence d in
      rw (insert-new d job db refl new) (
        let (done, jobs, keys) =
          log_webhook-SameJobs job (codes "sent") (sent_time now d) (with_row d job db) in
        jobs)

  -- A seeded job that is sent has no worker.
  breaks : (kind : Kind) → kind ≡ Kind.sent → IsConsistent (seed kind now sequence d db).1 → ⊥
  unfolding sent_row base_job
  breaks kind e bad =
      let shapes =
        subst (All Shape) sent_first
          (subst (λ k. All Shape (seed k now sequence d db).1.jobs) e bad.shaped) in
      absurd (false≢true shapes.0.0.0)

  -- With an id and a key that are new, one seeded job leaves the tables as consistent as they were,
  -- unless it is seeded as sent: such a job has no worker, and a job that the program has sent has one.
  pub seed-IsConsistent :
      (kind : Kind) → IsConsistent (seed kind now sequence d db).1 ↔ (kind ≢ Kind.sent)
  seed-IsConsistent kind = (λ good e. breaks kind e good, keeps kind)
