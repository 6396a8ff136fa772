-- ===== src/Worker/Heartbeat/Beats.antt =====
-- `heartbeat_loop` of src/notify_queue/worker/heartbeat.py over some rounds.
use notify_queue.Base.{ℕ, zero, suc, ◌*◌, ◌≡◌, refl, ap, ◌∙◌, true, some, arith}
use notify_queue.Schema.{Job}
use notify_queue.Schema.Table.{find_job, IsRow, keyed, updated, find_job-update_rows}
use notify_queue.Redis.{Redis}
use notify_queue.Statements.Worker.{update_heartbeat, update_job}
use notify_queue.Effects.{Command}
use notify_queue.Effects.Run.{Moment, World, run, perform}
use notify_queue.Effects.Fine.{AllFine, next, run-call}
use notify_queue.Lifecycle.Outcomes.{is_held_by, Owns, Owns→is_held_by}
use notify_queue.Worker.Heartbeat.{heartbeat_loop}

-- The row with its last beat at `t`.
abbrev pub beating : ℕ → Job → Job
beating t j = record {
  id = j.id;
  recipient = j.recipient;
  channel = j.channel;
  payload = j.payload;
  send_at = j.send_at;
  priority = j.priority;
  status = j.status;
  attempt_count = j.attempt_count;
  max_attempts = j.max_attempts;
  next_retry_at = j.next_retry_at;
  worker_id = j.worker_id;
  claimed_at = j.claimed_at;
  heartbeat_at = some t;
  sent_at = j.sent_at;
  failed_at = j.failed_at;
  error_message = j.error_message;
  callback_url = j.callback_url;
  created_at = j.created_at;
  updated_at = t;
}

module _ {Q L C : Type 0} (redis : Redis Q L C) (worker interval : ℕ) where
  -- The servers after one round of the loop.
  abbrev after_beat : ℕ → (ℕ → Moment) → World Q L C → World Q L C
  after_beat i s w = record w { database = update_heartbeat i worker (s 0).now w.database }

  one_beat :
      (s : ℕ → Moment) (w : World Q L C) (j : Job)
      → IsRow w.database.jobs j
      → is_held_by (some worker) j ≡ true
      → IsRow (after_beat j.id s w).database.jobs (beating (s 0).now j)
  unfolding update_heartbeat update_job
  one_beat s w j row owned =
      find_job-update_rows (keyed j.id (is_held_by (some worker))) (beating (s 0).now) (λ j. refl)
        j.id w.database.jobs
      ∙ ap (updated (keyed j.id (is_held_by (some worker))) (beating (s 0).now)) row
      ∙ ground (arith, owned)

  one_round :
      (n : ℕ) (i : ℕ) (s : ℕ → Moment) (w : World Q L C)
      → AllFine s
      → run redis s (heartbeat_loop (suc n) i worker interval) w
        ≡ run redis (next (next s)) (heartbeat_loop n i worker interval) (after_beat i s w)
  unfolding heartbeat_loop perform
  one_round n i s w h =
      run-call redis s (Command.update_heartbeat i worker) _ w (h 0)
      ∙ run-call redis (next s) (Command.sleep interval) _ (after_beat i s w) (h 1)

  -- The loop over one round and `rounds` more, with nothing failing and nothing else running, for a job
  -- that is claimed in the worker's name: the job's row shows the beat of the last round, two commands to a round, and is else
  -- as it was.
  pub heartbeat_loop-beats :
      (rounds : ℕ) (s : ℕ → Moment) (w : World Q L C) (j : Job)
      → AllFine s
      → IsRow w.database.jobs j
      → Owns (some worker) j
      → find_job j.id
          (run redis s (heartbeat_loop (suc rounds) j.id worker interval) w).1.database.jobs
        ≡ some (beating (s (2 * rounds)).now j)
  unfolding heartbeat_loop run
  heartbeat_loop-beats zero s w j h row owned =
      ap (λ r. find_job j.id r.1.database.jobs) (one_round 0 j.id s w h)
      ∙ one_beat s w j row (Owns→is_held_by (some worker) j owned)
  heartbeat_loop-beats (suc rounds) s w j h row owned =
      ap (λ r. find_job j.id r.1.database.jobs) (one_round (suc rounds) j.id s w h)
      ∙ heartbeat_loop-beats rounds (next (next s)) (after_beat j.id s w) (beating (s 0).now j)
          (λ n. h (suc (suc n))) (one_beat s w j row (Owns→is_held_by (some worker) j owned)) owned
      ∙ ap (λ n. some (beating (s n).now j)) (omega arith)
