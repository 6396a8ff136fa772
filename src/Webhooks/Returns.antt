-- ===== src/Webhooks/Returns.antt =====
-- Webhooks among servers that do not fail.
use notify_queue.Base.{ℕ, zero, suc, ◌+◌, ◌^◌, Option, none, some, [], ◌∷◌, Text, if_both, ltb}
use notify_queue.Schema.{WebhookPayload, microseconds}
use notify_queue.Redis.{Redis}
use notify_queue.Effects.{Command}
use notify_queue.Effects.Run.{World, perform}
use notify_queue.Effects.Clean.{Returns, From-pure, From-call}
use notify_queue.Webhooks.{http_status, is_accepted, post_attempts, fire_webhook}

module _ {Q L C : Type 0} (redis : Redis Q L C) where
  post_attempts-Returns :
      (left attempt max_attempts job_id : ℕ) (url status : Text) (payload : WebhookPayload)
      (w : World Q L C)
      → Returns redis w (post_attempts left attempt max_attempts job_id url status payload)
  unfolding post_attempts perform
  post_attempts-Returns zero attempt max_attempts job_id url status payload w =
      From-pure redis (λ _ _. Unit) w tt tt
  post_attempts-Returns (suc left) attempt max_attempts job_id url status payload w =
      From-call redis (λ _ _. Unit) w (Command.post url payload) _
        (λ m (p, e). rw e (
          From-call redis (λ _ _. Unit) w
            (Command.insert_webhook_log job_id url status payload (http_status p) attempt) _
            (λ n _.
              if_both
                (Returns redis
                  (perform redis n
                    (Command.insert_webhook_log job_id url status payload (http_status p) attempt)
                    w).1)
                (is_accepted (http_status p)) _ _ (λ _. From-pure redis (λ _ _. Unit) _ tt tt)
                (λ _.
                  if_both
                    (Returns redis
                      (perform redis n
                        (Command.insert_webhook_log job_id url status payload (http_status p)
                          attempt)
                        w).1)
                    (ltb attempt max_attempts) _ _
                    (λ _.
                      From-call redis (λ _ _. Unit) _ (Command.sleep (microseconds (2 ^ attempt))) _
                        (λ _ _.
                          post_attempts-Returns left (attempt + 1) max_attempts job_id url status
                            payload _))
                    (λ _.
                      post_attempts-Returns left (attempt + 1) max_attempts job_id url status
                        payload _)))))

  pub fire_webhook-Returns :
      (job_id : ℕ) (url : Option Text) (status : Text) (max_attempts : ℕ) (w : World Q L C)
      → Returns redis w (fire_webhook job_id url status max_attempts)
  unfolding fire_webhook perform
  fire_webhook-Returns job_id none status max_attempts w = From-pure redis (λ _ _. Unit) w tt tt
  fire_webhook-Returns job_id (some []) status max_attempts w =
      From-pure redis (λ _ _. Unit) w tt tt
  fire_webhook-Returns job_id (some (c ∷ url)) status max_attempts w =
      From-call redis (λ _ _. Unit) w Command.read_clock _
        (λ m _. post_attempts-Returns max_attempts 1 max_attempts job_id (c ∷ url) status _ w)
