-- ===== src/Tests/Requests.antt =====
-- Requests to the API, and a webhook.
use notify_queue.Base.{
  pos, ℕ, ◌+◌, ◌≤◌, ◌≡◌, refl, none, some, [], ◌∷◌, codes, map, false, length, All, any, ◌==◌, leb,
}
use notify_queue.Base.Sorted.{Sorted}
use notify_queue.Schema.{Channel, Priority, JobStatus, Job}
use notify_queue.Schema.Table.{find_job, Unique, IsRow}
use notify_queue.Settings.{defaults}
use notify_queue.Redis.Memory.{Entries, Locks, Counters, memory}
use notify_queue.Models.{JobCreate, resolve_send_at}
use notify_queue.Effects.{ok, response}
use notify_queue.Effects.Run.{Moment, World, run, perform, execute}
use notify_queue.Statements.Api.{
  insert_job, insert_key_if_given, create_job_transaction, insert_idempotency_key, new_job,
  find_key, count_status, select_recent_jobs,
}
use notify_queue.Api.{
  created, duplicate_job, job_row, create_job, retry_dead_lettered_job, job_statuses, metrics,
}
use notify_queue.Api.Create.{create_job_once}
use notify_queue.Api.Replay.{replay_answer, with_replay, replay_answers}
use notify_queue.Api.Metrics.{sum, metrics_count}
use notify_queue.Api.Recent.{select_recent_jobs_newest}
use notify_queue.Webhooks.{fire_webhook}
use notify_queue.Webhooks.Log.{Logged, fire_webhook-Logged}
use notify_queue.Tests.Rows.{noon, moments, pending_job, queued, servers}
use notify_queue.Schema.{JobStatus}

abbrev body : JobCreate
body = record {
  recipient = codes "ann@example.org";
  channel = Channel.email;
  payload = codes "{}";
  send_at = none;
  delay_seconds = some (pos 60);
  priority = Priority.medium;
  callback_url = none;
  idempotency_key = some (codes "k1");
}

abbrev empty : World Entries Locks Counters
empty = servers [] []

-- The second request comes later, and finds another fresh id.
abbrev later_moments : ℕ → Moment
later_moments n = moments (n + 10)

abbrev first : World Entries Locks Counters
first = (run memory moments (create_job body defaults) empty).1

fresh_again : find_job 111 first.database.jobs ≡ none
unfolding find_job find_key run execute perform create_job create_job_transaction insert_job
    insert_key_if_given insert_idempotency_key
fresh_again = refl

create_job_once_example :
    ((run memory moments (create_job body defaults) empty).0
      ≡ ok (created 101 JobStatus.pending (noon + 60_000_000)))
    × (find_job 101 first.database.jobs
        ≡ some (new_job (job_row body defaults (noon + 60_000_000)) 101 (noon + 1)))
    × (run memory later_moments
          (create_job (record body { recipient = codes "bob" }) defaults)
          first
        ≡ (ok (duplicate_job (some 101)), first))
unfolding find_job find_key resolve_send_at
create_job_once_example =
    create_job_once memory body (record body { recipient = codes "bob" }) defaults b'k' (codes "1")
      moments later_moments empty refl refl (λ n. refl) (λ n. refl) refl refl fresh_again

abbrev dead : Job
dead = record (pending_job 1 Priority.high noon) {
  status = JobStatus.dead_lettered;
  failed_at = some noon;
}

abbrev one_dead : World Entries Locks Counters
one_dead = servers (dead ∷ queued 2 Priority.low ∷ []) []

one_dead-Unique : Unique one_dead.database.jobs
unfolding find_job
one_dead-Unique = (refl, (refl, tt))

replay_answers_example : run memory moments (retry_dead_lettered_job 1) one_dead ≡ (
  ok (replay_answer 1 (find_job 1 one_dead.database.jobs)),
  record one_dead { database = with_replay 1 noon one_dead.database },
)
replay_answers_example = replay_answers memory 1 moments one_dead one_dead-Unique refl refl

metrics_count_example :
    (run memory moments metrics one_dead
      ≡ (ok (map (λ t. (t, count_status t one_dead.database.jobs)) job_statuses), one_dead))
    × (sum (map (λ t. count_status t one_dead.database.jobs) job_statuses) ≡ 2)
metrics_count_example = metrics_count memory moments one_dead refl

select_recent_jobs_newest_example :
    (All
      (λ j. IsRow one_dead.database.jobs j × (j.status ≡ JobStatus.dead_lettered))
      (select_recent_jobs (some JobStatus.dead_lettered) 1 one_dead.database))
    × Sorted
        (λ a b. leb b.updated_at a.updated_at)
        (select_recent_jobs (some JobStatus.dead_lettered) 1 one_dead.database)
    × (length (select_recent_jobs (some JobStatus.dead_lettered) 1 one_dead.database) ≤ 1)
    × ((j : Job)
        → IsRow one_dead.database.jobs j
        → j.status ≡ JobStatus.dead_lettered
        → any
            (λ b. b.id == j.id)
            (select_recent_jobs (some JobStatus.dead_lettered) 1 one_dead.database)
          ≡ false
        → (length (select_recent_jobs (some JobStatus.dead_lettered) 1 one_dead.database) ≡ 1)
          × All
              (λ b. j.updated_at ≤ b.updated_at)
              (select_recent_jobs (some JobStatus.dead_lettered) 1 one_dead.database))
select_recent_jobs_newest_example =
    select_recent_jobs_newest (some JobStatus.dead_lettered) 1 one_dead.database one_dead-Unique

fire_webhook-Logged_example :
    Logged 1
      (codes "http://example.org")
      (codes "sent")
      []
      (λ n. response 500)
      3
      (run memory moments
        (fire_webhook 1 (some (codes "http://example.org")) (codes "sent") 3)
        one_dead).1.database.webhook_log
fire_webhook-Logged_example =
    fire_webhook-Logged memory 1 b'h' (codes "ttp://example.org") (codes "sent") 3
      (λ n. response 500) moments one_dead (λ n. refl) (λ n below. refl)
