-- ===== src/Dlq.antt =====
-- src/notify_queue/dlq.py. The transaction is one command: its UPDATE locks the row until it commits.
pub mod Returns
use notify_queue.Base.{ℕ, Option, Text, codes, if◌then◌else◌}
use notify_queue.Schema.{Job}
use notify_queue.Settings.{Settings}
use notify_queue.Effects.{Command, Program, pure, ◌>>=◌, ◌>>◌, await}
use notify_queue.Webhooks.{fire_webhook}

abbrev pub dead_lettered_text : Text
dead_lettered_text = codes "dead_lettered"

unfoldable pub dead_letter : Job → Text → ℕ → Settings → Option ℕ → Program Unit
dead_letter job error attempt_count settings expected_worker_id = do
  marked ← await (Command.dead_letter_transaction error job attempt_count expected_worker_id)
  if marked
      then await (Command.delete_lock job.id)
        >> fire_webhook job.id job.callback_url dead_lettered_text settings.webhook_max_attempts
      else pure tt
