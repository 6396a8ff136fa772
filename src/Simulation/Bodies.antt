-- ===== src/Simulation/Bodies.antt =====
-- The requests that scripts/simulate.py submits. A payload is the text of its JSON.
use notify_queue.Base.{pos, ℕ, ◌%◌, none, some, ◌∷◌, ◌++◌, Text, codes, if◌then◌else◌, ◌==◌}
use notify_queue.Base.Decimal.{decimal}
use notify_queue.Schema.{Channel, Priority}
use notify_queue.Models.{JobCreate}

-- `CHANNELS[i % 3]` and `PRIORITIES[i % 3]`
unfoldable pub channel_of : ℕ → Channel
channel_of i =
    if i % 3 == 0 then Channel.email else if i % 3 == 1 then Channel.sms else Channel.push

unfoldable pub priority_of : ℕ → Priority
priority_of i =
    if i % 3 == 0 then Priority.high else if i % 3 == 1 then Priority.medium else Priority.low

abbrev pub delivery_body : Text → ℕ → JobCreate
delivery_body api i = record {
  recipient = codes "user" ++ decimal (i % 10) ++ codes "@example.com";
  channel = channel_of i;
  payload = b'{' ∷ b'"' ∷ codes "seq" ++ b'"' ∷ codes ": " ++ decimal i ++ codes "}";
  send_at = none;
  delay_seconds = some (pos (i % 15));
  priority = priority_of i;
  callback_url = some (api ++ codes "/webhook-mock");
  idempotency_key = none;
}

abbrev pub duplicate_body : ℕ → JobCreate
duplicate_body stamp = record {
  recipient = codes "dup@example.com";
  channel = Channel.email;
  payload = codes "{}";
  send_at = none;
  delay_seconds = some (pos 0);
  priority = Priority.high;
  callback_url = none;
  idempotency_key = some (codes "sim-dup-" ++ decimal stamp);
}

abbrev pub burst_body : Text → JobCreate
burst_body recipient = record {
  recipient = recipient;
  channel = Channel.sms;
  payload = codes "{}";
  send_at = none;
  delay_seconds = some (pos 0);
  priority = Priority.medium;
  callback_url = none;
  idempotency_key = none;
}
