-- ===== src/Dlq/Returns.antt =====
-- `dead_letter` of src/notify_queue/dlq.py among servers that do not fail.
use notify_queue.Base.{ℕ, Option, Text, Bool, if_both}
use notify_queue.Schema.{Job}
use notify_queue.Settings.{Settings}
use notify_queue.Redis.{Redis}
use notify_queue.Statements.Audit.{dead_letter_transaction}
use notify_queue.Effects.{Command}
use notify_queue.Effects.Run.{Moment, World, perform}
use notify_queue.Effects.Clean.{Returns, From-pure, From-call}
use notify_queue.Webhooks.Returns.{fire_webhook-Returns}
use notify_queue.Dlq.{dead_letter, dead_lettered_text}

module _ {Q L C : Type 0} (redis : Redis Q L C) (settings : Settings) where
  pub dead_letter-Returns :
      (job : Job) (error : Text) (attempt : ℕ) (e : Option ℕ) (w : World Q L C)
      → Returns redis w (dead_letter job error attempt settings e)
  unfolding dead_letter perform
  dead_letter-Returns job error attempt e w =
      From-call redis (λ _ _. Unit) w (Command.dead_letter_transaction error job attempt e) _
        (λ m _.
          if_both
            (Returns redis
              (perform redis m (Command.dead_letter_transaction error job attempt e) w).1)
            (perform_marked m) _ _
            (λ _.
              From-call redis (λ _ _. Unit) _ (Command.delete_lock job.id) _
                (λ _ _.
                  fire_webhook-Returns redis job.id job.callback_url dead_lettered_text
                    settings.webhook_max_attempts _))
            (λ _. From-pure redis (λ _ _. Unit) _ tt tt))
    where
      perform_marked : Moment → Bool
      perform_marked m = (dead_letter_transaction error job attempt e m.now w.database).0
