-- ===== src/Tests/Rows.antt =====
-- Rows, moments and servers for the tests.
use notify_queue.Base.{ℕ, ◌+◌, ◌*◌, none, some, List, [], false, codes}
use notify_queue.Schema.{Channel, Priority, JobStatus, Job, Database, microseconds}
use notify_queue.Redis.Memory.{Entries, Locks, Counters}
use notify_queue.Effects.{ok, response}
use notify_queue.Effects.Run.{fine, Moment, World}

-- The beginning of an hour in 2025.
abbrev pub noon : ℕ
noon = microseconds (17_750_000 * 3600)

abbrev pub moments : ℕ → Moment
moments n = record {
  now = noon + n;
  fault = fine;
  answer = ok (response 500);
  draw = 4_000_000_000_000_000;
  fresh_id = 100 + n;
  locked = λ _. false;
}

abbrev pub pending_job : ℕ → Priority → ℕ → Job
pending_job i p send_at = record {
  id = i;
  recipient = codes "ann@example.org";
  channel = Channel.email;
  payload = codes "{}";
  send_at = send_at;
  priority = p;
  status = JobStatus.pending;
  attempt_count = 4;
  max_attempts = 5;
  next_retry_at = none;
  worker_id = none;
  claimed_at = none;
  heartbeat_at = none;
  sent_at = none;
  failed_at = none;
  error_message = none;
  callback_url = some (codes "https://example.org/hook");
  created_at = 0;
  updated_at = 0;
}

abbrev pub queued : ℕ → Priority → Job
queued i p = record (pending_job i p noon) { status = JobStatus.queued }

abbrev pub claimed : ℕ → ℕ → Job
claimed i worker = record (pending_job i Priority.high noon) {
  status = JobStatus.claimed;
  worker_id = some worker;
  claimed_at = some noon;
  heartbeat_at = some noon;
}

abbrev pub tables : List Job → Database
tables jobs = record { jobs = jobs; job_idempotency = []; dead_letter_queue = []; webhook_log = [] }

abbrev pub servers : List Job → Entries → World Entries Locks Counters
servers jobs entries = record {
  database = tables jobs;
  queues = entries;
  locks = [];
  counters = [];
}
