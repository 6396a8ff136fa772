-- ===== src/Webhooks/Isolation.antt =====
-- What a webhook of src/notify_queue/webhooks.py touches.
use notify_queue.Base.{
  ℕ, zero, suc, ◌+◌, ◌≡◌, refl, Option, none, some, [], ◌∷◌, Text, if_both, ltb, ◌^◌,
}
use notify_queue.Schema.{WebhookPayload, microseconds}
use notify_queue.Redis.{Redis}
use notify_queue.Effects.{Program, Command}
use notify_queue.Effects.Keeps.{Keeps, run-Keeps, Keeps-then}
use notify_queue.Effects.Run.{Moment, World, run, perform}
use notify_queue.Statements.Audit.{insert_webhook_log}
use notify_queue.Webhooks.{http_status, is_accepted, post_attempts, fire_webhook}

-- The state of the servers, less the webhook log.
abbrev pub without_log : {Q L C : Type 0} → World Q L C → World Q L C
without_log w = record w { database = record w.database { webhook_log = [] } }

module _ {Q L C : Type 0} (redis : Redis Q L C) where
  abbrev pub Isolated : {A : Type 0} → Program A → Type 0
  Isolated = Keeps redis without_log

  post_attempts-Isolated :
      (left attempt max_attempts job_id : ℕ) (url status : Text) (payload : WebhookPayload)
      → Isolated (post_attempts left attempt max_attempts job_id url status payload)
  unfolding post_attempts perform insert_webhook_log
  post_attempts-Isolated zero attempt max_attempts job_id url status payload = tt
  post_attempts-Isolated (suc left) attempt max_attempts job_id url status payload =
      let rest = post_attempts-Isolated left (attempt + 1) max_attempts job_id url status payload in
      Keeps-then redis without_log (Command.post url payload) _ (λ m w. refl)
        λ posted.
          Keeps-then redis without_log
            (Command.insert_webhook_log job_id url status payload (http_status posted) attempt) _
            (λ m w. refl)
            λ _.
              if_both Isolated (is_accepted (http_status posted)) _ _ (λ _. tt)
                λ _.
                  if_both Isolated (ltb attempt max_attempts) _ _
                    (λ _.
                      Keeps-then redis without_log (Command.sleep (microseconds (2 ^ attempt))) _
                        (λ m w. refl) (λ _. rest))
                    (λ _. rest)

  pub fire_webhook-Isolated :
      (job_id : ℕ) (url : Option Text) (status : Text) (max_attempts : ℕ)
      → Isolated (fire_webhook job_id url status max_attempts)
  unfolding fire_webhook perform
  fire_webhook-Isolated job_id none status max_attempts = tt
  fire_webhook-Isolated job_id (some []) status max_attempts = tt
  fire_webhook-Isolated job_id (some (c ∷ url)) status max_attempts =
      Keeps-then redis without_log Command.read_clock _ (λ m w. refl)
        λ now. post_attempts-Isolated max_attempts 1 max_attempts job_id (c ∷ url) status _

  -- Whatever the receiver answers and whatever fails, firing a webhook changes no job, key, letter,
  -- queue, lock or counter: only `webhook_log`.
  pub fire_webhook-without_log :
      (job_id : ℕ) (url : Option Text) (status : Text) (max_attempts : ℕ) (s : ℕ → Moment)
      (w : World Q L C)
      → without_log (run redis s (fire_webhook job_id url status max_attempts) w).1 ≡ without_log w
  fire_webhook-without_log job_id url status max_attempts =
      run-Keeps redis without_log _ (fire_webhook-Isolated job_id url status max_attempts)
