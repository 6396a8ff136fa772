-- ===== src/Worker/Process/Alike/Unaware.antt =====
-- The parts of a delivery that do not look at the jobs: the rate limit, the lock, the webhook.
use notify_queue.Base.{
  ℕ, zero, suc, ◌+◌, ◌^◌, refl, true, false, Option, none, some, [], ◌∷◌, Text, ltb, above,
}
use notify_queue.Schema.{WebhookPayload, microseconds}
use notify_queue.Redis.{Redis}
use notify_queue.Ratelimit.{window_key, window_ttl, seconds_until_next_window}
use notify_queue.Ratelimit.Check.{check_rate_limit}
use notify_queue.Statements.Audit.{insert_webhook_log}
use notify_queue.Webhooks.{http_status, is_accepted, post_attempts, fire_webhook}
use notify_queue.Effects.{ok, err, Command, Program, ◌>>=◌, reply_or_raise, await}
use notify_queue.Effects.Run.{perform}
use notify_queue.Worker.Process.Blur.{IsBlind, world_twice}
use notify_queue.Worker.Process.Alike.{Alike, done, raised}
use notify_queue.Worker.Process.Alike.Rules.{Alike-call, Alike-plain, Alike-if}

module _ {Q L C : Type 0} (redis : Redis Q L C) where
  -- Commands that do not look at the jobs at all.
  log-IsBlind :
      (i : ℕ) (url status : Text) (payload : WebhookPayload) (http_status : Option ℕ) (attempt : ℕ)
      → IsBlind redis (Command.insert_webhook_log i url status payload http_status attempt)
  unfolding perform insert_webhook_log
  log-IsBlind i url status payload http_status attempt m w = (
    refl,
    world_twice redis
        (perform redis m (Command.insert_webhook_log i url status payload http_status attempt) w).1,
  )

  post_attempts-Alike :
      (left attempt max_attempts job_id : ℕ) (url status : Text) (payload : WebhookPayload)
      → let p = post_attempts left attempt max_attempts job_id url status payload in Alike redis p p
  unfolding post_attempts perform
  post_attempts-Alike zero attempt max_attempts job_id url status payload = done tt
  post_attempts-Alike (suc left) attempt max_attempts job_id url status payload =
      let rest = post_attempts-Alike left (attempt + 1) max_attempts job_id url status payload in
      Alike-plain redis (Command.post url payload) (λ m w. (refl, world_twice redis w)) (λ a. refl)
        λ posted.
          Alike-plain redis
            (Command.insert_webhook_log job_id url status payload (http_status posted) attempt)
            (log-IsBlind job_id url status payload (http_status posted) attempt) (λ a. refl)
            λ _. Alike-if redis (is_accepted (http_status posted)) (done tt) (
              Alike-if redis (ltb attempt max_attempts)
                (Alike-plain redis (Command.sleep (microseconds (2 ^ attempt)))
                  (λ m w. (refl, world_twice redis w)) (λ a. refl) (λ _. rest))
                rest)

  pub fire_webhook-Alike :
      (job_id : ℕ) (url : Option Text) (status : Text) (max_attempts : ℕ)
      → let p = fire_webhook job_id url status max_attempts in Alike redis p p
  unfolding fire_webhook perform
  fire_webhook-Alike job_id none status max_attempts = done tt
  fire_webhook-Alike job_id (some []) status max_attempts = done tt
  fire_webhook-Alike job_id (some (c ∷ url)) status max_attempts =
      Alike-plain redis Command.read_clock (λ m w. (refl, world_twice redis w)) (λ a. refl)
        λ now. post_attempts-Alike max_attempts 1 max_attempts job_id (c ∷ url) status _

  pub check_rate_limit-Alike :
      (recipient : Text) (limit : ℕ) → let p = check_rate_limit recipient limit in Alike redis p p
  unfolding check_rate_limit perform
  check_rate_limit-Alike recipient limit =
      Alike-plain redis Command.read_clock (λ m w. (refl, world_twice redis w)) (λ a. refl)
        λ now.
          Alike-plain redis (Command.incr_with_ttl (window_key recipient now) window_ttl)
            (λ m w. (refl, world_twice redis _)) (λ a. refl)
            λ count.
              Alike-if redis (above limit count)
                (Alike-plain redis (Command.decr (window_key recipient now))
                  (λ m w. (refl, world_twice redis _)) (λ a. refl)
                  (λ _. done (false, seconds_until_next_window now)))
                (done (true, 0))

  pub delete_lock-Alike :
      {A : Type 0} (i : ℕ) {p p' : Program A}
      → Alike redis p p'
      → Alike redis
          (await (Command.delete_lock i) >>= λ _. p)
          (await (Command.delete_lock i) >>= λ _. p')
  unfolding perform
  delete_lock-Alike i a =
      Alike-plain redis (Command.delete_lock i) (λ m w. (refl, world_twice redis _)) (λ _. refl)
        (λ _. a)

  pub release-Alike :
      (i : ℕ) → Alike redis (await (Command.delete_lock i)) (await (Command.delete_lock i))
  unfolding perform
  release-Alike i =
      Alike-call redis (Command.delete_lock i) (λ m w. (refl, world_twice redis _)) (λ _. refl)
        λ r. elim r as (λ x. Alike redis (reply_or_raise x) (reply_or_raise x)) [
          | ok a ↦ done a
          | err x ↦ raised x
        ]
