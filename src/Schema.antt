-- ===== src/Schema.antt =====
-- The tables of migrations/001_initial.sql and the enumerations of src/notify_queue/models.py.
-- An instant is a number of microseconds since 0001-01-01T00:00Z, the least `datetime`, so every
-- `datetime` is one. UUIDs and worker ids are only compared, so they are numbers. A JSONB payload
-- is only copied, and is kept as its text.
pub mod Table
use notify_queue.Base.{ℕ, ◌*◌, ◌≡◌, Bool, Option, List, Text, arith, ◌==◌}

pub data Channel : Type 0 where
  email sms push : Channel

pub data Priority : Type 0 where
  high medium low : Priority

pub data JobStatus : Type 0 where
  pending queued claimed sent failed dead_lettered : JobStatus

-- The place of a value in its enumeration, by which PostgreSQL compares.
abbrev pub priority_rank : Priority → ℕ
priority_rank Priority.high = 0
priority_rank Priority.medium = 1
priority_rank Priority.low = 2

abbrev pub status_rank : JobStatus → ℕ
status_rank JobStatus.pending = 0
status_rank JobStatus.queued = 1
status_rank JobStatus.claimed = 2
status_rank JobStatus.sent = 3
status_rank JobStatus.failed = 4
status_rank JobStatus.dead_lettered = 5

abbrev pub status_eq : JobStatus → JobStatus → Bool
status_eq s t = status_rank s == status_rank t

pub status_eq→eq : (s t : JobStatus) → status_eq s t ≡ Bool.true → s ≡ t
status_eq→eq s t h = ground arith

abbrev pub microseconds : ℕ → ℕ
microseconds seconds = seconds * 1_000_000

-- A row of `jobs`.
pub record Job : Type 0 where
  pub id : ℕ
  pub recipient : Text
  pub channel : Channel
  pub payload : Text
  pub send_at : ℕ
  pub priority : Priority
  pub status : JobStatus
  pub attempt_count : ℕ
  pub max_attempts : ℕ
  pub next_retry_at : Option ℕ
  pub worker_id : Option ℕ
  pub claimed_at : Option ℕ
  pub heartbeat_at : Option ℕ
  pub sent_at : Option ℕ
  pub failed_at : Option ℕ
  pub error_message : Option Text
  pub callback_url : Option Text
  pub created_at : ℕ
  pub updated_at : ℕ

-- A row of `job_idempotency`.
pub record IdempotencyKey : Type 0 where
  pub idempotency_key : Text
  pub job_id : ℕ
  pub created_at : ℕ

-- A row of `dead_letter_queue`.
pub record DeadLetter : Type 0 where
  pub job_id : ℕ
  pub recipient : Text
  pub channel : Channel
  pub payload : Text
  pub attempt_count : ℕ
  pub last_error : Option Text
  pub dead_lettered_at : ℕ

-- The body that `fire_webhook` posts and logs.
pub record WebhookPayload : Type 0 where
  pub job_id : ℕ
  pub status : Text
  pub timestamp : ℕ

-- A row of `webhook_log`.
pub record WebhookLog : Type 0 where
  pub job_id : ℕ
  pub callback_url : Text
  pub status_change : Text
  pub payload : WebhookPayload
  pub http_status : Option ℕ
  pub attempt : ℕ
  pub fired_at : ℕ

pub record Database : Type 0 where
  pub jobs : List Job
  pub job_idempotency : List IdempotencyKey
  pub dead_letter_queue : List DeadLetter
  pub webhook_log : List WebhookLog
