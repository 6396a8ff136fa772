-- ===== src/Webhooks.antt =====
-- src/notify_queue/webhooks.py. The timeout is the HTTP client's affair.
pub mod Isolation
pub mod Returns
pub mod Log
use notify_queue.Base.{
  ℕ, zero, suc, ◌+◌, ◌^◌, Bool, false, Option, none, some, [], ◌∷◌, Text, if◌then◌else◌, ltb,
}
use notify_queue.Schema.{WebhookPayload, microseconds}
use notify_queue.Effects.{Posted, response, http_error, Command, Program, pure, ◌>>=◌, ◌>>◌, await}

abbrev pub http_status : Posted → Option ℕ
http_status (response n) = some n
http_status http_error = none

-- `http_status is not None and http_status < 500`
abbrev pub is_accepted : Option ℕ → Bool
is_accepted none = false
is_accepted (some n) = ltb n 500

-- The rounds that are left of `for attempt in range(1, max_attempts + 1)`.
unfoldable pub post_attempts : ℕ → ℕ → ℕ → ℕ → Text → Text → WebhookPayload → Program Unit
post_attempts zero attempt max_attempts job_id url status payload = pure tt
post_attempts (suc left) attempt max_attempts job_id url status payload = do
  posted ← await (Command.post url payload)
  await (Command.insert_webhook_log job_id url status payload (http_status posted) attempt)
  let rest = post_attempts left (attempt + 1) max_attempts job_id url status payload
  if is_accepted (http_status posted)
      then pure tt
      else if ltb attempt max_attempts
      then await (Command.sleep (microseconds (2 ^ attempt))) >> rest
      else rest

unfoldable pub fire_webhook : ℕ → Option Text → Text → ℕ → Program Unit
unfolding post_attempts
fire_webhook job_id none status max_attempts = pure tt
fire_webhook job_id (some []) status max_attempts = pure tt
fire_webhook job_id (some (c ∷ url)) status max_attempts = do
  now ← await Command.read_clock
  post_attempts max_attempts 1 max_attempts job_id (c ∷ url) status
      (record { job_id = job_id; status = status; timestamp = now })
