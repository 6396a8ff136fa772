-- ===== src/Worker/Outcome.antt =====
-- The outcomes of src/notify_queue/worker/delivery.py: sent, retried or dead-lettered, deferred.
pub mod Jobs
use notify_queue.Base.{ℕ, ◌+◌, ◌-◌, ◌*◌, ◌^◌, Option, none, some, Text, codes, if◌then◌else◌, leb}
use notify_queue.Schema.{Job, microseconds}
use notify_queue.Settings.{Settings}
use notify_queue.Effects.{Command, Program, pure, ◌>>=◌, ◌>>◌, await}
use notify_queue.Webhooks.{fire_webhook}
use notify_queue.Dlq.{dead_letter}

abbrev pub sent_text : Text
sent_text = codes "sent"

abbrev pub failed_text : Text
failed_text = codes "failed"

-- Behind a fenced UPDATE: if it matched, release the lock and report.
unfoldable pub announce : Job → Text → Settings → Option Job → Program Unit
announce job status settings none = pure tt
announce job status settings (some _) =
    await (Command.delete_lock job.id)
    >> fire_webhook job.id job.callback_url status settings.webhook_max_attempts

unfoldable pub handle_success : Job → Settings → Program Unit
unfolding announce
handle_success job settings =
    await (Command.mark_sent job.id job.worker_id) >>= announce job sent_text settings

abbrev pub retry_delay : Settings → ℕ → ℕ
retry_delay settings attempt = settings.base_retry_delay * 2 ^ (attempt - 1)

unfoldable pub retry_later : Job → Text → Settings → ℕ → Program Unit
unfolding announce
retry_later job error settings attempt = do
  now ← await Command.read_clock
  let next_retry_at = now + retry_delay settings attempt
  await (Command.schedule_retry attempt next_retry_at error job.id job.worker_id)
      >>= announce job failed_text settings

unfoldable pub handle_failure : Job → Text → Settings → Program Unit
unfolding retry_later
handle_failure job error settings =
    let attempt = job.attempt_count + 1 in
    if leb job.max_attempts attempt
    then dead_letter job error attempt settings job.worker_id
    else retry_later job error settings attempt

unfoldable pub release_if_deferred : Job → Option Job → Program Unit
release_if_deferred job none = pure tt
release_if_deferred job (some _) = await (Command.delete_lock job.id)

unfoldable pub defer_job : Job → ℕ → Program Unit
unfolding release_if_deferred
defer_job job retry_after_seconds = do
  now ← await Command.read_clock
  let next_window = now + microseconds retry_after_seconds
  await (Command.defer_to_next_window next_window job.id job.worker_id) >>= release_if_deferred job
