-- ===== src/Worker/Process/Delivers.antt =====
-- The delivery inside `process_job` of src/notify_queue/worker/delivery.py, and one that runs alone.
use notify_queue.Base.{
  ℕ, ◌+◌, ◌≡◌, refl, Bool, true, false, Option, none, some, List, Text, ap, subst, if◌then◌else◌,
  ltb, leb,
}
use notify_queue.Schema.{Job, microseconds}
use notify_queue.Settings.{Settings}
use notify_queue.Redis.{Redis}
use notify_queue.Webhooks.{fire_webhook}
use notify_queue.Dlq.{dead_letter, dead_lettered_text}
use notify_queue.Effects.{
  Result, ok, err, Command, Program, pure, type_error, ◌>>=◌, ◌>>◌, reply_or_raise, await,
}
use notify_queue.Effects.Run.{Moment, World, perform, run}
use notify_queue.Worker.Outcome.{
  announce, handle_success, retry_later, retry_delay, handle_failure, release_if_deferred,
  defer_job, sent_text, failed_text,
}
use notify_queue.Worker.Delivery.{
  failure_text, attempt_delivery, deliver_if_allowed, deliver_fetched, execute_delivery,
}
use notify_queue.Worker.Process.{process_job}
use notify_queue.Worker.Process.Blur.{
  blur, blur_row, world_twice, fetch_job-IsBlind, mark_sent-IsBlind, schedule_retry-IsBlind,
  defer_to_next_window-IsBlind,
}
use notify_queue.Worker.Process.Alike.{
  Alike, done, raised, letter, Same, own, BeatsFine, run-beside_heartbeat,
}
use notify_queue.Worker.Process.Alike.Rules.{Alike-then, Alike-plain, Alike-bind, Alike-if}
use notify_queue.Worker.Process.Alike.Unaware.{
  fire_webhook-Alike, check_rate_limit-Alike, delete_lock-Alike, release-Alike,
}

module _ {Q L C : Type 0} (redis : Redis Q L C) where
  -- A row, and what it is after beats that were committed behind its reader's back.
  module _ (job : Job) (at : Option ℕ) (up : ℕ) (settings : Settings) where
    abbrev later : Job
    later = record job { heartbeat_at = at; updated_at = up }

    announce-Alike :
        (status : Text) (o o' : Option Job)
        → blur_row o ≡ blur_row o'
        → Alike redis (announce job status settings o) (announce later status settings o')
    unfolding announce
    announce-Alike status none none e = done tt
    announce-Alike status none (some j) e = absurd (cc)
    announce-Alike status (some j) none e = absurd (cc)
    announce-Alike status (some j) (some j') e =
        delete_lock-Alike redis job.id
          (fire_webhook-Alike redis job.id job.callback_url status settings.webhook_max_attempts)

    handle_success-Alike : Alike redis (handle_success job settings) (handle_success later settings)
    unfolding handle_success
    handle_success-Alike =
        Alike-then redis (Command.mark_sent job.id job.worker_id)
          (mark_sent-IsBlind redis job.id job.worker_id) (announce-Alike sent_text)

    retry_later-Alike :
        (error : Text) (attempt : ℕ)
        → Alike redis
            (retry_later job error settings attempt)
            (retry_later later error settings attempt)
    unfolding retry_later perform
    retry_later-Alike error attempt =
        Alike-plain redis Command.read_clock (λ m w. (refl, world_twice redis w)) (λ _. refl)
          λ now.
            let next = now + retry_delay settings attempt in
            Alike-then redis (Command.schedule_retry attempt next error job.id job.worker_id)
              (schedule_retry-IsBlind redis attempt next error job.id job.worker_id)
              (announce-Alike failed_text)

    dead_letter-Alike :
        (error : Text) (attempt : ℕ)
        → Alike redis
            (dead_letter job error attempt settings job.worker_id)
            (dead_letter later error attempt settings job.worker_id)
    unfolding dead_letter
    dead_letter-Alike error attempt = letter error job at up attempt job.worker_id _ _ by_result
      where
        follows : Bool → Program Unit
        follows marked =
            if marked
            then await (Command.delete_lock job.id)
              >> fire_webhook job.id job.callback_url dead_lettered_text
                  settings.webhook_max_attempts
            else pure tt

        by_result :
            (r : Result Bool)
            → Alike redis (reply_or_raise r >>= follows) (reply_or_raise r >>= follows)
        by_result (ok marked) =
            Alike-if redis marked
              (delete_lock-Alike redis job.id (
                fire_webhook-Alike redis job.id job.callback_url dead_lettered_text
                  settings.webhook_max_attempts))
              (done tt)
        by_result (err x) = raised x

    handle_failure-Alike :
        (error : Text)
        → Alike redis (handle_failure job error settings) (handle_failure later error settings)
    unfolding handle_failure
    handle_failure-Alike error =
        let attempt = job.attempt_count + 1 in
        Alike-if redis (leb job.max_attempts attempt) (dead_letter-Alike error attempt)
          (retry_later-Alike error attempt)

    defer_job-Alike :
        (retry_after_seconds : ℕ)
        → Alike redis (defer_job job retry_after_seconds) (defer_job later retry_after_seconds)
    unfolding defer_job release_if_deferred perform
    defer_job-Alike retry_after_seconds =
        Alike-plain redis Command.read_clock (λ m w. (refl, world_twice redis w)) (λ _. refl)
          λ now.
            let window = now + microseconds retry_after_seconds in
            Alike-then redis (Command.defer_to_next_window window job.id job.worker_id)
              (defer_to_next_window-IsBlind redis window job.id job.worker_id) released
      where
        released :
            (o o' : Option Job)
            → blur_row o ≡ blur_row o'
            → Alike redis (release_if_deferred job o) (release_if_deferred later o')
        released none none e = done tt
        released none (some j) e = absurd (cc)
        released (some j) none e = absurd (cc)
        released (some j) (some j') e = release-Alike redis job.id

    attempt_delivery-Alike :
        Alike redis (attempt_delivery job settings) (attempt_delivery later settings)
    unfolding attempt_delivery perform
    attempt_delivery-Alike =
        Alike-plain redis Command.random (λ m w. (refl, world_twice redis w)) (λ _. refl)
          λ draw.
            Alike-if redis (ltb draw settings.delivery_failure_rate)
              (handle_failure-Alike (failure_text job)) handle_success-Alike

    deliver_fetched-Alike :
        Alike redis (deliver_fetched settings (some job)) (deliver_fetched settings (some later))
    unfolding deliver_fetched deliver_if_allowed
    deliver_fetched-Alike =
        Alike-bind redis (check_rate_limit-Alike redis job.recipient settings.rate_limit_per_hour)
          by_admission
      where
        by_admission :
            (a : Bool × ℕ)
            → Alike redis (deliver_if_allowed job settings a) (deliver_if_allowed later settings a)
        by_admission (true, _) = attempt_delivery-Alike
        by_admission (false, retry_after_seconds) = defer_job-Alike retry_after_seconds

  execute_delivery-Alike :
      (job_id : ℕ) (settings : Settings)
      → let p = execute_delivery job_id settings in Alike redis p p
  unfolding execute_delivery deliver_fetched
  execute_delivery-Alike job_id settings =
      Alike-then redis (Command.fetch_job job_id) (fetch_job-IsBlind redis job_id) by_row
    where
      by_row :
          (o o' : Option Job)
          → blur_row o ≡ blur_row o'
          → Alike redis (deliver_fetched settings o) (deliver_fetched settings o')
      by_row none none e = raised type_error
      by_row none (some j) e = absurd (cc)
      by_row (some j) none e = absurd (cc)
      by_row (some j) (some j') e =
          let blurred : blur j ≡ blur j' = cc in
          subst
            (λ k.
              Alike redis (deliver_fetched settings (some j)) (deliver_fetched settings (some k)))
            (ap
              (λ (b : Job). record b { heartbeat_at = j'.heartbeat_at; updated_at = j'.updated_at })
              blurred)
            (deliver_fetched-Alike j j'.heartbeat_at j'.updated_at settings)

  -- Heartbeats that do not fail change nothing of a delivery. However they fall between its commands,
  -- and whatever fails of the delivery itself, `process_job` ends as `execute_delivery` alone would
  -- at the moments that are its own: with the same result, and with the same tables, queues, locks and
  -- counters but for `heartbeat_at` and `updated_at`.
  pub process_job-execute_delivery :
      (turns : List Bool) (job_id worker_id : ℕ) (settings : Settings) (s : ℕ → Moment)
      (w : World Q L C)
      → BeatsFine turns s
      → Same redis
          (run redis s (process_job turns job_id worker_id settings) w)
          (run redis (own turns s) (execute_delivery job_id settings) w)
  unfolding process_job
  process_job-execute_delivery turns job_id worker_id settings s w h =
      run-beside_heartbeat redis job_id worker_id turns (execute_delivery-Alike job_id settings) s w
        w h refl
