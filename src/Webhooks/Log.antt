-- ===== src/Webhooks/Log.antt =====
-- The rows that one webhook of src/notify_queue/webhooks.py leaves in `webhook_log`.
use notify_queue.Base.{
  Option, none, ◌*◌, ◌≤◌, ℕ, zero, suc, ◌+◌, ◌^◌, ◌<◌, ◌≡◌, refl, sym, subst, ◌⊎◌, inl, inr, true,
  false, some, List, ◌∷◌, Text, arith, if_both, ltb,
}
use notify_queue.Schema.{WebhookPayload, WebhookLog, microseconds}
use notify_queue.Redis.{Redis}
use notify_queue.Effects.{
  Posted, response, http_error, ok, Program, Command, Result, Reply, pure, call,
}
use notify_queue.Effects.Run.{Moment, World, run, perform}
use notify_queue.Effects.Fine.{AllFine, next, run-call}
use notify_queue.Statements.Audit.{insert_webhook_log}
use notify_queue.Webhooks.{http_status, is_accepted, post_attempts, fire_webhook}

-- What the log holds of an answer: its status, or none if there was none.
abbrev pub Shows : Posted → Option ℕ → Type 0
Shows (response n) o = o ≡ some n
Shows http_error o = o ≡ none

-- The receiver took the notification: it answered, and not with a server error.
abbrev pub Accepts : Posted → Type 0
Accepts (response n) = n < 500
Accepts http_error = ⊥

abbrev pub Refuses : Posted → Type 0
Refuses (response n) = 500 ≤ n
Refuses http_error = Unit

Shows-http_status : (p : Posted) → Shows p (http_status p)
Shows-http_status (response n) = refl
Shows-http_status http_error = refl

accepted_lem : (p : Posted) → is_accepted (http_status p) ≡ true → Accepts p
accepted_lem (response n) h = ground arith
accepted_lem http_error h = ground arith

refused_lem : (p : Posted) → is_accepted (http_status p) ≡ false → Refuses p
refused_lem (response n) h = ground arith
refused_lem http_error h = tt

module _ (job_id : ℕ) (url status : Text) (base : List WebhookLog) (answers : ℕ → Posted) where
  -- The row of the attempt `n` of this webhook, counted from 0.
  abbrev pub IsAttempt : ℕ → WebhookLog → Type 0
  IsAttempt n row =
      (row.job_id ≡ job_id)
      × (row.callback_url ≡ url)
      × (row.status_change ≡ status)
      × (row.attempt ≡ n + 1)
      × Shows (answers n) row.http_status

  -- The log once `n` attempts have been refused, each with its row.
  pub data Refused : ℕ → List WebhookLog → Type 0 where
    untried : Refused 0 base
    refused :
        {n : ℕ} {rows : List WebhookLog} (row : WebhookLog)
        → IsAttempt n row
        → Refuses (answers n)
        → Refused n rows
        → Refused (n + 1) (row ∷ rows)

  -- All attempts were refused; or some, and the next was accepted.
  abbrev pub Logged : ℕ → List WebhookLog → Type 0
  Logged max_attempts log =
      Refused max_attempts log
      ⊎ ((n : ℕ) × (rows : List WebhookLog) × (row : WebhookLog) × (log ≡ row ∷ rows)
          × (n < max_attempts)
          × IsAttempt n row
          × Accepts (answers n)
          × Refused n rows)

  module _ {Q L C : Type 0} (redis : Redis Q L C) (max_attempts : ℕ)
      (payload : WebhookPayload) where
    abbrev Ends : (ℕ → Moment) → World Q L C → Program Unit → Type 0
    Ends s w p = Logged max_attempts (run redis s p w).1.database.webhook_log

    pure-Ends :
        (s : ℕ → Moment) (w : World Q L C)
        → Logged max_attempts w.database.webhook_log
        → Ends s w (pure tt)
    unfolding run
    pure-Ends s w e = e

    call-Ends :
        (s : ℕ → Moment) (c : Command) (k : Result (Reply c) → Program Unit) (w : World Q L C)
        → AllFine s
        → Ends (next s) (perform redis (s 0) c w).1 (k (perform redis (s 0) c w).0)
        → Ends s w (call c k)
    call-Ends s c k w h e =
        subst (λ r. Logged max_attempts r.1.database.webhook_log)
          (sym (run-call redis s c k w (h 0))) e

    -- Three commands to an attempt: the POST, its row, and the wait for the next.
    post_attempts-Logged :
        (left n : ℕ) (s : ℕ → Moment) (w : World Q L C)
        → AllFine s
        → ((k : ℕ) → k < left → (s (3 * k)).answer ≡ ok (answers (n + k)))
        → n + left ≡ max_attempts
        → Refused n w.database.webhook_log
        → Ends s w (post_attempts left (n + 1) max_attempts job_id url status payload)
    unfolding post_attempts perform insert_webhook_log
    post_attempts-Logged zero n s w h given all so_far =
        pure-Ends s w (inl (subst (λ k. Refused k w.database.webhook_log) (omega arith) so_far))
    post_attempts-Logged (suc left) n s w h given all so_far =
        call-Ends s (Command.post url payload) _ w h (
          rw first_answer (
            call-Ends (next s)
              (Command.insert_webhook_log job_id url status payload (http_status (answers n))
                (n + 1))
              _ w (λ k. h (suc k))
              (if_both (Ends s2 w2) (is_accepted (http_status (answers n))) (pure tt) _
                (λ yes. pure-Ends s2 w2 (
                  inr (
                    n,
                    w.database.webhook_log,
                    row,
                    refl,
                    omega arith,
                    this,
                    accepted_lem (answers n) yes,
                    so_far,
                  )))
                (λ no.
                  if_both (Ends s2 w2) (ltb (n + 1) max_attempts) _ _
                    (λ _.
                      call-Ends s2 (Command.sleep (microseconds (2 ^ (n + 1)))) _ w2
                        (λ k. h (suc (suc k)))
                        (post_attempts-Logged left (n + 1) (next s2) w2 (λ k. h (suc (suc (suc k))))
                          later (omega arith)
                          (refused row this (refused_lem (answers n) no) so_far)))
                    (λ last.
                      post_attempts-Logged left (n + 1) s2 w2 (λ k. h (suc (suc k)))
                        (λ k below. absurd (none_left last k below)) (omega arith)
                        (refused row this (refused_lem (answers n) no) so_far))))))
      where
        s2 : ℕ → Moment
        s2 = next (next s)

        first_answer : (s 0).answer ≡ ok (answers n)
        first_answer =
            subst (λ k. (s 0).answer ≡ ok (answers k)) (omega arith) (given 0 (omega arith))

        later : (k : ℕ) → k < left → (next s2 (3 * k)).answer ≡ ok (answers (n + 1 + k))
        later k below =
            subst (λ i. (s i).answer ≡ ok (answers (n + 1 + k))) (omega arith)
              (subst (λ i. (s (3 * (k + 1))).answer ≡ ok (answers i)) (omega arith)
                (given (k + 1) (omega (arith, below))))

        none_left : ltb (n + 1) max_attempts ≡ false → (k : ℕ) → k < left → ⊥
        none_left last k below = ground arith

        row : WebhookLog
        row = record {
          job_id = job_id;
          callback_url = url;
          status_change = status;
          payload = payload;
          http_status = http_status (answers n);
          attempt = n + 1;
          fired_at = (s 1).now;
        }

        this : IsAttempt n row
        this = (refl, refl, refl, refl, Shows-http_status (answers n))

        w2 : World Q L C
        w2 = record w { database = insert_webhook_log row w.database }

module _ {Q L C : Type 0} (redis : Redis Q L C) where
  -- A webhook with a URL and the log reachable, where the POST of each attempt `k` is answered, or fails
  -- by an HTTP error, as `answers k` says: its attempts are logged one by one, numbered from 1, each for
  -- this job, URL and status and with the status code of its own answer, or none. The first that the
  -- receiver answers with a code below 500 is the last; if there is none, all `max_attempts` were made.
  pub fire_webhook-Logged :
      (job_id c : ℕ) (url status : Text) (max_attempts : ℕ) (answers : ℕ → Posted) (s : ℕ → Moment)
      (w : World Q L C)
      → AllFine s
      → ((k : ℕ) → k < max_attempts → (s (3 * k + 1)).answer ≡ ok (answers k))
      → Logged job_id
          (c ∷ url)
          status
          w.database.webhook_log
          answers
          max_attempts
          (run redis s
            (fire_webhook job_id (some (c ∷ url)) status max_attempts)
            w).1.database.webhook_log
  unfolding fire_webhook perform
  fire_webhook-Logged job_id c url status max_attempts answers s w h given =
      call-Ends job_id (c ∷ url) status w.database.webhook_log answers redis max_attempts payload s
        Command.read_clock _ w h
        (post_attempts-Logged job_id (c ∷ url) status w.database.webhook_log answers redis
          max_attempts payload max_attempts 0 (next s) w (λ k. h (suc k)) given_answers
          (omega arith) untried)
    where
      payload : WebhookPayload
      payload = record { job_id = job_id; status = status; timestamp = (s 0).now }

      given_answers : (k : ℕ) → k < max_attempts → (next s (3 * k)).answer ≡ ok (answers (0 + k))
      given_answers k below =
          subst (λ i. (next s (3 * k)).answer ≡ ok (answers i)) (omega arith)
            (subst (λ i. (s i).answer ≡ ok (answers k)) (omega arith) (given k below))
