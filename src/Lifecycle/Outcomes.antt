-- ===== src/Lifecycle/Outcomes.antt =====
-- What README.md and docs/DESIGN.md ask of a job's row after each step of its life, column by column,
-- and of the worker that may write it.
use notify_queue.Base.{
  ℕ, ◌≡◌, refl, subst, Bool, true, false, Option, none, some, Text, codes, ◌+◌, ◌==◌, ◌&&◌, arith,
}
use notify_queue.Schema.{Job, JobStatus, status_eq, status_eq→eq, DeadLetter}

-- Whether two columns name the same worker, or none both.
abbrev pub same_worker : Option ℕ → Option ℕ → Bool
same_worker none none = true
same_worker (some a) (some b) = a == b
same_worker _ _ = false

-- Whether a column names the worker: a missing name is nobody's.
abbrev pub names_worker : Option ℕ → Option ℕ → Bool
names_worker (some a) (some b) = a == b
names_worker _ _ = false

abbrev pub is_given_up : Job → Bool
is_given_up j = status_eq j.status JobStatus.dead_lettered

abbrev pub is_of : Option ℕ → Job → Bool
is_of w j = same_worker j.worker_id w

abbrev pub is_held_by : Option ℕ → Job → Bool
is_held_by w j = names_worker j.worker_id w && status_eq j.status JobStatus.claimed

-- Waiting in a queue.
abbrev pub waiting : ℕ → Job → Job
waiting now j = record {
  id = j.id;
  recipient = j.recipient;
  channel = j.channel;
  payload = j.payload;
  send_at = j.send_at;
  priority = j.priority;
  status = JobStatus.queued;
  attempt_count = j.attempt_count;
  max_attempts = j.max_attempts;
  next_retry_at = j.next_retry_at;
  worker_id = j.worker_id;
  claimed_at = j.claimed_at;
  heartbeat_at = j.heartbeat_at;
  sent_at = j.sent_at;
  failed_at = j.failed_at;
  error_message = j.error_message;
  callback_url = j.callback_url;
  created_at = j.created_at;
  updated_at = now;
}

-- In the hands of a worker.
abbrev pub taken : ℕ → ℕ → Job → Job
taken worker now j = record {
  id = j.id;
  recipient = j.recipient;
  channel = j.channel;
  payload = j.payload;
  send_at = j.send_at;
  priority = j.priority;
  status = JobStatus.claimed;
  attempt_count = j.attempt_count;
  max_attempts = j.max_attempts;
  next_retry_at = j.next_retry_at;
  worker_id = some worker;
  claimed_at = some now;
  heartbeat_at = some now;
  sent_at = j.sent_at;
  failed_at = j.failed_at;
  error_message = j.error_message;
  callback_url = j.callback_url;
  created_at = j.created_at;
  updated_at = now;
}

-- Delivered.
abbrev pub delivered_at : ℕ → Job → Job
delivered_at now j = record {
  id = j.id;
  recipient = j.recipient;
  channel = j.channel;
  payload = j.payload;
  send_at = j.send_at;
  priority = j.priority;
  status = JobStatus.sent;
  attempt_count = j.attempt_count;
  max_attempts = j.max_attempts;
  next_retry_at = j.next_retry_at;
  worker_id = j.worker_id;
  claimed_at = j.claimed_at;
  heartbeat_at = j.heartbeat_at;
  sent_at = some now;
  failed_at = j.failed_at;
  error_message = j.error_message;
  callback_url = j.callback_url;
  created_at = j.created_at;
  updated_at = now;
}

-- Pending again after a failure: due at `next`, with `attempts` of them made.
abbrev pub retry_due : ℕ → ℕ → Text → ℕ → Job → Job
retry_due attempts next error now j = record {
  id = j.id;
  recipient = j.recipient;
  channel = j.channel;
  payload = j.payload;
  send_at = next;
  priority = j.priority;
  status = JobStatus.pending;
  attempt_count = attempts;
  max_attempts = j.max_attempts;
  next_retry_at = some next;
  worker_id = none;
  claimed_at = none;
  heartbeat_at = none;
  sent_at = j.sent_at;
  failed_at = j.failed_at;
  error_message = some error;
  callback_url = j.callback_url;
  created_at = j.created_at;
  updated_at = now;
}

-- Pending again for the next window: due at `at`, no attempt spent.
abbrev pub postponed : ℕ → ℕ → Job → Job
postponed at now j = record {
  id = j.id;
  recipient = j.recipient;
  channel = j.channel;
  payload = j.payload;
  send_at = at;
  priority = j.priority;
  status = JobStatus.pending;
  attempt_count = j.attempt_count;
  max_attempts = j.max_attempts;
  next_retry_at = j.next_retry_at;
  worker_id = none;
  claimed_at = none;
  heartbeat_at = none;
  sent_at = j.sent_at;
  failed_at = j.failed_at;
  error_message = j.error_message;
  callback_url = j.callback_url;
  created_at = j.created_at;
  updated_at = now;
}

-- Pending again since its worker fell silent, which counts as an attempt.
abbrev pub recovered : ℕ → Job → Job
recovered now j = record {
  id = j.id;
  recipient = j.recipient;
  channel = j.channel;
  payload = j.payload;
  send_at = j.send_at;
  priority = j.priority;
  status = JobStatus.pending;
  attempt_count = j.attempt_count + 1;
  max_attempts = j.max_attempts;
  next_retry_at = j.next_retry_at;
  worker_id = none;
  claimed_at = none;
  heartbeat_at = none;
  sent_at = j.sent_at;
  failed_at = j.failed_at;
  error_message = some (codes "worker died mid-processing (heartbeat timeout)");
  callback_url = j.callback_url;
  created_at = j.created_at;
  updated_at = now;
}

-- Given up after `attempts`.
abbrev pub given_up : Text → ℕ → ℕ → Job → Job
given_up error attempts now j = record {
  id = j.id;
  recipient = j.recipient;
  channel = j.channel;
  payload = j.payload;
  send_at = j.send_at;
  priority = j.priority;
  status = JobStatus.dead_lettered;
  attempt_count = attempts;
  max_attempts = j.max_attempts;
  next_retry_at = j.next_retry_at;
  worker_id = none;
  claimed_at = none;
  heartbeat_at = none;
  sent_at = j.sent_at;
  failed_at = some now;
  error_message = some error;
  callback_url = j.callback_url;
  created_at = j.created_at;
  updated_at = now;
}

-- Pending afresh by an operator: due at once, with no attempt made and no trace of the failure.
abbrev pub afresh : ℕ → Job → Job
afresh now j = record {
  id = j.id;
  recipient = j.recipient;
  channel = j.channel;
  payload = j.payload;
  send_at = now;
  priority = j.priority;
  status = JobStatus.pending;
  attempt_count = 0;
  max_attempts = j.max_attempts;
  next_retry_at = none;
  worker_id = none;
  claimed_at = none;
  heartbeat_at = none;
  sent_at = j.sent_at;
  failed_at = none;
  error_message = none;
  callback_url = j.callback_url;
  created_at = j.created_at;
  updated_at = now;
}

-- The letter of a job that was given up.
abbrev pub letter_of : Job → ℕ → Text → ℕ → DeadLetter
letter_of j attempts error now = record {
  job_id = j.id;
  recipient = j.recipient;
  channel = j.channel;
  payload = j.payload;
  attempt_count = attempts;
  last_error = some error;
  dead_lettered_at = now;
}

pub same_worker→eq : (a b : Option ℕ) → same_worker a b ≡ true → a ≡ b
same_worker→eq none none h = refl
same_worker→eq none (some b) h = ground arith
same_worker→eq (some a) none h = ground arith
same_worker→eq (some a) (some b) h = ground arith

pub same_worker_self : (a : Option ℕ) → same_worker a a ≡ true
same_worker_self none = refl
same_worker_self (some a) = ground arith

pub eq→same_worker : (a b : Option ℕ) → a ≡ b → same_worker a b ≡ true
eq→same_worker a b e = subst (λ c. same_worker a c ≡ true) e (same_worker_self a)

-- The worker owns the row: it is claimed, in that worker's name.
abbrev pub Owns : Option ℕ → Job → Type 0
Owns w j = (v : ℕ) × (w ≡ some v) × (j.worker_id ≡ some v) × (j.status ≡ JobStatus.claimed)

names_worker→eq : (a b : Option ℕ) → names_worker a b ≡ true → (v : ℕ) × (b ≡ some v) × (a ≡ some v)
names_worker→eq none none h = ground arith
names_worker→eq none (some b) h = ground arith
names_worker→eq (some a) none h = ground arith
names_worker→eq (some a) (some b) h = (b, refl, ground arith)

pub is_held_by→Owns : (w : Option ℕ) (j : Job) → is_held_by w j ≡ true → Owns w j
is_held_by→Owns w j h =
    let (v, e, e') = names_worker→eq j.worker_id w (ground arith) in
    (v, e, e', status_eq→eq j.status JobStatus.claimed (ground arith))

pub Owns→is_held_by : (w : Option ℕ) (j : Job) → Owns w j → is_held_by w j ≡ true
Owns→is_held_by w j (v, e, e', e'') = rw (e, e', e'') (ground arith)
