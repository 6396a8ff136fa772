-- ===== src/Statements/Audit.antt =====
-- MARK_DEAD_LETTERED and INSERT_DEAD_LETTER of src/notify_queue/dlq.py in their transaction, and
-- INSERT_WEBHOOK_LOG of webhooks.py. Rows are inserted at the front of a table.
pub mod Transaction
use notify_queue.Base.{ℕ, Bool, true, false, Option, none, some, ◌∷◌, Text, ◌==◌}
use notify_queue.Schema.{Job, JobStatus, Database, DeadLetter, WebhookLog}
use notify_queue.Statements.Worker.{update_job, released_job}

-- `IS NOT DISTINCT FROM`: two NULLs pass.
abbrev pub not_distinct : Option ℕ → Option ℕ → Bool
not_distinct none none = true
not_distinct (some a) (some b) = a == b
not_distinct _ _ = false

abbrev pub is_expected : Option ℕ → Job → Bool
is_expected w j = not_distinct j.worker_id w

abbrev pub dead_job : Text → ℕ → ℕ → Job → Job
dead_job error attempt now j = record (released_job now j) {
  status = JobStatus.dead_lettered;
  error_message = some error;
  attempt_count = attempt;
  failed_at = some now;
}

unfoldable pub mark_dead_lettered : Text → ℕ → ℕ → Option ℕ → ℕ → Database → Option Job × Database
unfolding update_job
mark_dead_lettered error i attempt w now = update_job i (is_expected w) (dead_job error attempt now)

unfoldable pub insert_dead_letter : DeadLetter → Database → Database
insert_dead_letter row db = record db { dead_letter_queue = row ∷ db.dead_letter_queue }

-- What `dead_letter` hands on from the row that its caller fetched.
abbrev pub dead_letter_row : Job → ℕ → Text → ℕ → DeadLetter
dead_letter_row job attempt error now = record {
  job_id = job.id;
  recipient = job.recipient;
  channel = job.channel;
  payload = job.payload;
  attempt_count = attempt;
  last_error = some error;
  dead_lettered_at = now;
}

unfoldable pub insert_if_marked : Option Job → DeadLetter → Database → Bool × Database
unfolding insert_dead_letter
insert_if_marked none row db = (false, db)
insert_if_marked (some _) row db = (true, insert_dead_letter row db)

-- The transaction: was the row marked, and the tables at its commit.
unfoldable pub dead_letter_transaction : Text → Job → ℕ → Option ℕ → ℕ → Database → Bool × Database
dead_letter_transaction error job attempt w now db =
    let (marked, db') = mark_dead_lettered error job.id attempt w now db in
    insert_if_marked marked (dead_letter_row job attempt error now) db'

unfoldable pub insert_webhook_log : WebhookLog → Database → Database
insert_webhook_log row db = record db { webhook_log = row ∷ db.webhook_log }
