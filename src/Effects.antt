-- ===== src/Effects.antt =====
-- The program as it meets its servers: every `await` of the source is one command, and a coroutine
-- is a tree of commands. Between two commands of a coroutine the others of the system run.
pub mod Run
pub mod Fine
pub mod Keeps
pub mod Rules
pub mod Clean
pub mod Survives
pub mod Left
use notify_queue.Base.{ℕ, Bool, Option, List, Text, ℤ}
use notify_queue.Schema.{Job, JobStatus, Priority, WebhookPayload}
use notify_queue.Statements.Api.{NewJob}

-- What a command may raise: a violated key, a failure to reach a server, or an error of the HTTP
-- client that is no `httpx.HTTPError` (an invalid URL), or the use of a row that is not there.
pub data Error : Type 0 where
  unique_violation connection_error client_error type_error : Error

pub data Result (A : Type 0) : Type 0 where
  ok : A → Result A
  err : Error → Result A

-- A response with its status code, or an `httpx.HTTPError`.
pub data Posted : Type 0 where
  response : ℕ → Posted
  http_error : Posted

pub data Command : Type 0 where
  fetch_job : ℕ → Command
  claim_queued_job : ℕ → ℕ → Command
  mark_sent : ℕ → Option ℕ → Command
  schedule_retry : ℕ → ℕ → Text → ℕ → Option ℕ → Command
  defer_to_next_window : ℕ → ℕ → Option ℕ → Command
  update_heartbeat : ℕ → ℕ → Command
  dead_letter_transaction : Text → Job → ℕ → Option ℕ → Command
  insert_webhook_log : ℕ → Text → Text → WebhookPayload → Option ℕ → ℕ → Command
  promote_due : ℕ → ℕ → Command
  recover_stale_claimed : ℕ → Command
  requeue_stale_queued : ℕ → ℕ → Command
  create_job_transaction : NewJob → Option Text → Command
  select_existing_job_id : Option Text → Command
  select_job : ℕ → Command
  select_metrics : Command
  select_recent_jobs : Option JobStatus → ℕ → Command
  retry_dead_lettered : ℕ → Command
  select_exists : ℕ → Command
  zpopmin : Priority → Command
  set_lock : ℕ → ℕ → ℕ → Command
  delete_lock : ℕ → Command
  zadd_all : List (Priority × ℕ × ℕ) → Command
  incr_with_ttl : Text → ℕ → Command
  decr : Text → Command
  read_clock : Command
  random : Command
  post : Text → WebhookPayload → Command
  sleep : ℕ → Command

abbrev pub Reply : Command → Type 0
Reply (Command.fetch_job _) = Option Job
Reply (Command.claim_queued_job _ _) = Option Job
Reply (Command.mark_sent _ _) = Option Job
Reply (Command.schedule_retry _ _ _ _ _) = Option Job
Reply (Command.defer_to_next_window _ _ _) = Option Job
Reply (Command.dead_letter_transaction _ _ _ _) = Bool
Reply (Command.promote_due _ _) = List Job
Reply (Command.recover_stale_claimed _) = List Job
Reply (Command.requeue_stale_queued _ _) = List Job
Reply (Command.create_job_transaction _ _) = Job
Reply (Command.select_existing_job_id _) = Option ℕ
Reply (Command.select_job _) = Option Job
Reply Command.select_metrics = List (JobStatus × ℕ)
Reply (Command.select_recent_jobs _ _) = List Job
Reply (Command.retry_dead_lettered _) = Option Job
Reply (Command.select_exists _) = Bool
Reply (Command.zpopmin _) = Option ℕ
Reply (Command.set_lock _ _ _) = Bool
Reply (Command.incr_with_ttl _ _) = ℤ
Reply Command.read_clock = ℕ
Reply Command.random = ℕ
Reply (Command.post _ _) = Posted
Reply _ = Unit

pub data Program (A : Type 0) : Type 0 where
  pure : A → Program A
  raise : Error → Program A
  call : (c : Command) → (Result (Reply c) → Program A) → Program A

infixl 5 ◌>>=◌ ◌>>◌
abbrev pub ◌>>=◌ : {A B : Type 0} → Program A → (A → Program B) → Program B
pure a >>= f = f a
raise e >>= f = raise e
call c k >>= f = call c (λ r. k r >>= f)

abbrev pub ◌>>◌ : {A B : Type 0} → Program A → Program B → Program B
m >> n = m >>= λ _. n

-- `try` … `except`, the handler choosing by the exception whether to raise again.
abbrev pub catch : {A : Type 0} → Program A → (Error → Program A) → Program A
catch (pure a) h = pure a
catch (raise e) h = h e
catch (call c k) h = call c (λ r. catch (k r) h)

abbrev pub reply_or_raise : {A : Type 0} → Result A → Program A
reply_or_raise (ok a) = pure a
reply_or_raise (err e) = raise e

abbrev pub await : (c : Command) → Program (Reply c)
await c = call c reply_or_raise
