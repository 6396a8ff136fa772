-- ===== src/Settings.antt =====
-- src/notify_queue/config.py. Durations are in microseconds, like instants; the fields that the
-- source gives in seconds or milliseconds keep their names without the unit.
use notify_queue.Base.{ℕ}
use notify_queue.Schema.{microseconds}

-- The failure rate counts the draws of `random.random()`, k / 2^53, that lie below it.
pub record Settings : Type 0 where
  pub rate_limit_per_hour : ℕ
  pub delivery_failure_rate : ℕ
  pub max_attempts : ℕ
  pub base_retry_delay : ℕ
  pub scheduler_poll_interval : ℕ
  pub scheduler_lookahead : ℕ
  pub scheduler_batch_size : ℕ
  pub queued_requeue : ℕ
  pub heartbeat_interval : ℕ
  pub heartbeat_timeout : ℕ
  pub worker_count : ℕ
  pub worker_idle_sleep : ℕ
  pub error_backoff : ℕ
  pub job_lock_ttl : ℕ
  pub webhook_timeout : ℕ
  pub webhook_max_attempts : ℕ

abbrev pub defaults : Settings
defaults = record {
  rate_limit_per_hour = 10;
  delivery_failure_rate = 900_719_925_474_100;
  max_attempts = 5;
  base_retry_delay = microseconds 30;
  scheduler_poll_interval = 500_000;
  scheduler_lookahead = microseconds 5;
  scheduler_batch_size = 500;
  queued_requeue = microseconds 30;
  heartbeat_interval = microseconds 10;
  heartbeat_timeout = microseconds 30;
  worker_count = 4;
  worker_idle_sleep = 100_000;
  error_backoff = microseconds 1;
  job_lock_ttl = microseconds 60;
  webhook_timeout = microseconds 5;
  webhook_max_attempts = 3;
}
