-- ===== src/Seeding/Rows.antt =====
-- The rows that scripts/seed.py makes. A UUID is a number with the text that `str` gives it, and a
-- payload is the text of its JSON. The clock is past the year 1, so an age can be taken from it.
use notify_queue.Base.{
  ℕ, zero, suc, ◌+◌, ◌-◌, ◌*◌, ◌^◌, Bool, none, some, List, [], ◌∷◌, ◌++◌, Text, codes,
  if◌then◌else◌,
}
use notify_queue.Schema.{Job, JobStatus, Channel, Priority, DeadLetter, WebhookLog, microseconds}
use notify_queue.Base.Decimal.{decimal}

-- What the random numbers choose for one job: places in the lists of texts, ages and delays in their
-- ranges; and the id and the clock of the server.
pub record Draw : Type 0 where
  pub channel : Channel
  pub recipient : ℕ
  pub priority : Priority
  pub has_callback : Bool
  pub age_minutes : ℕ
  pub keyed : Bool
  pub sent_seconds : ℕ
  pub sent_attempts : ℕ
  pub ahead_minutes : ℕ
  pub attempt : ℕ
  pub error : ℕ
  pub worker : ℕ
  pub failed_minutes : ℕ
  pub id : ℕ
  pub id_text : Text
  pub clock : ℕ

pub data Kind : Type 0 where
  sent pending_future retrying queued claimed dead_lettered : Kind

-- `rng.choice` of a tuple, by a place in it.
unfoldable pub choice : List Text → ℕ → Text
choice [] n = []
choice (t ∷ ts) zero = t
choice (t ∷ ts) (suc n) = choice ts n

abbrev pub recipients : List Text
recipients =
    codes "ada@example.com"
    ∷ codes "grace@example.com"
    ∷ codes "linus@example.com"
    ∷ codes "margaret@example.com"
    ∷ codes "alan@example.com"
    ∷ codes "barbara@example.com"
    ∷ codes "dennis@example.com"
    ∷ codes "katherine@example.com"
    ∷ codes "+2348012345670"
    ∷ codes "+2348012345671"
    ∷ []

abbrev pub errors : List Text
errors =
    codes "simulated delivery failure on channel email"
    ∷ codes "provider timeout after 5s"
    ∷ codes "recipient mailbox unavailable"
    ∷ codes "connection reset by provider"
    ∷ []

abbrev pub quoted : Text → Text
quoted t = b'"' ∷ t ++ b'"' ∷ []

-- An object of two texts, and of one.
abbrev pub object_of : Text → Text → Text → Text → Text
object_of k t l u =
    b'{' ∷ quoted k
    ++ codes ": "
    ++ quoted t
    ++ codes ", "
    ++ quoted l
    ++ codes ": "
    ++ quoted u
    ++ codes "}"

abbrev pub object_of_one : Text → Text → Text
object_of_one k t = b'{' ∷ quoted k ++ codes ": " ++ quoted t ++ codes "}"

unfoldable pub payload_for : Channel → ℕ → Text
payload_for Channel.email n =
    object_of (codes "subject") (codes "Order #" ++ decimal (1000 + n) ++ codes " confirmed")
      (codes "body") (codes "Thanks for your order.")
payload_for Channel.sms n =
    object_of_one (codes "message") (codes "Your verification code is " ++ decimal (100_000 + n))
payload_for Channel.push n =
    object_of (codes "title") (codes "Package update") (codes "body")
      (codes "Shipment #" ++ decimal (1000 + n) ++ codes " is out for delivery")

abbrev pub minutes : ℕ → ℕ
minutes n = microseconds (n * 60)

abbrev pub created_time : ℕ → Draw → ℕ
created_time now d = now - minutes d.age_minutes

-- `base_job` with what `insert` puts into the other columns.
unfoldable pub base_job : ℕ → ℕ → Draw → Job
unfolding choice payload_for
base_job now sequence d = record {
  id = d.id;
  recipient = choice recipients d.recipient;
  channel = d.channel;
  payload = payload_for d.channel sequence;
  send_at = created_time now d;
  priority = d.priority;
  status = JobStatus.pending;
  attempt_count = 0;
  max_attempts = 5;
  next_retry_at = none;
  worker_id = none;
  claimed_at = none;
  heartbeat_at = none;
  sent_at = none;
  failed_at = none;
  error_message = none;
  callback_url = if d.has_callback then some (codes "https://example.com/hooks/notify") else none;
  created_at = created_time now d;
  updated_at = created_time now d;
}

abbrev pub sent_time : ℕ → Draw → ℕ
sent_time now d = created_time now d + microseconds d.sent_seconds

unfoldable pub sent_row : ℕ → ℕ → Draw → Job
unfolding base_job
sent_row now sequence d = record (base_job now sequence d) {
  status = JobStatus.sent;
  attempt_count = d.sent_attempts;
  sent_at = some (sent_time now d);
}

unfoldable pub pending_future_row : ℕ → ℕ → Draw → Job
unfolding base_job
pending_future_row now sequence d = record (base_job now sequence d) {
  send_at = now + minutes d.ahead_minutes;
}

unfoldable pub retrying_row : ℕ → ℕ → Draw → Job
unfolding base_job
retrying_row now sequence d =
    let next_retry = now + microseconds (30 * 2 ^ (d.attempt - 1)) in
    record (base_job now sequence d) {
      attempt_count = d.attempt;
      send_at = next_retry;
      next_retry_at = some next_retry;
      error_message = some (choice errors d.error);
    }

unfoldable pub queued_row : ℕ → ℕ → Draw → Job
unfolding base_job
queued_row now sequence d = record (base_job now sequence d) {
  status = JobStatus.queued;
  send_at = now;
}

unfoldable pub claimed_row : ℕ → ℕ → Draw → Job
unfolding base_job
claimed_row now sequence d = record (base_job now sequence d) {
  status = JobStatus.claimed;
  send_at = now - microseconds 5;
  worker_id = some d.worker;
  claimed_at = some now;
  heartbeat_at = some now;
}

abbrev pub failed_time : ℕ → Draw → ℕ
failed_time now d = created_time now d + minutes d.failed_minutes

unfoldable pub dead_lettered_row : ℕ → ℕ → Draw → Job
unfolding base_job
dead_lettered_row now sequence d = record (base_job now sequence d) {
  status = JobStatus.dead_lettered;
  attempt_count = 5;
  failed_at = some (failed_time now d);
  error_message = some (choice errors d.error);
}

-- INSERT_DEAD_LETTER
abbrev pub seeded_letter : Draw → Job → DeadLetter
seeded_letter d job = record {
  job_id = d.id;
  recipient = job.recipient;
  channel = job.channel;
  payload = job.payload;
  attempt_count = 5;
  last_error = some (choice errors d.error);
  dead_lettered_at = d.clock;
}

-- INSERT_WEBHOOK_LOG; the table numbers the attempt 1.
abbrev pub seeded_log : ℕ → Text → Text → ℕ → WebhookLog
seeded_log job_id url status at = record {
  job_id = job_id;
  callback_url = url;
  status_change = status;
  payload = record { job_id = job_id; status = status; timestamp = at };
  http_status = some 200;
  attempt = 1;
  fired_at = at;
}
