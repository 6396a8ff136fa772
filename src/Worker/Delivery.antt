-- ===== src/Worker/Delivery.antt =====
-- `execute_delivery` of src/notify_queue/worker/delivery.py.
pub mod Jobs
use notify_queue.Base.{
  ℕ, Bool, true, false, Option, none, some, ◌++◌, Text, codes, if◌then◌else◌, ltb,
}
use notify_queue.Schema.{Job, Channel}
use notify_queue.Settings.{Settings}
use notify_queue.Effects.{type_error, Command, Program, raise, ◌>>=◌, await}
use notify_queue.Ratelimit.Check.{check_rate_limit}
use notify_queue.Worker.Outcome.{handle_success, handle_failure, defer_job}

abbrev pub channel_name : Channel → Text
channel_name Channel.email = codes "email"
channel_name Channel.sms = codes "sms"
channel_name Channel.push = codes "push"

abbrev pub failure_text : Job → Text
failure_text job = codes "simulated delivery failure on channel " ++ channel_name job.channel

unfoldable pub attempt_delivery : Job → Settings → Program Unit
attempt_delivery job settings = do
  draw ← await Command.random
  if ltb draw settings.delivery_failure_rate
      then handle_failure job (failure_text job) settings
      else handle_success job settings

unfoldable pub deliver_if_allowed : Job → Settings → Bool × ℕ → Program Unit
unfolding attempt_delivery
deliver_if_allowed job settings (true, _) = attempt_delivery job settings
deliver_if_allowed job settings (false, retry_after_seconds) = defer_job job retry_after_seconds

unfoldable pub deliver_fetched : Settings → Option Job → Program Unit
unfolding deliver_if_allowed
deliver_fetched settings none = raise type_error
deliver_fetched settings (some job) =
    check_rate_limit job.recipient settings.rate_limit_per_hour >>= deliver_if_allowed job settings

unfoldable pub execute_delivery : ℕ → Settings → Program Unit
unfolding deliver_fetched
execute_delivery job_id settings = await (Command.fetch_job job_id) >>= deliver_fetched settings
