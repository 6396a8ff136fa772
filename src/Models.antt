-- ===== src/Models.antt =====
-- `JobCreate` of src/notify_queue/models.py. What the model's fields and validators
-- refuse is refused by `validate`.
use notify_queue.Base.{
  ℕ, ℤ, pos, negsuc, ◌+◌, ◌-◌, ◌*◌, Bool, true, false, ◌&&◌, Option, none, some, [], ◌∷◌, Text,
  if◌then◌else◌, leb,
}
use notify_queue.Schema.{Channel, Priority, microseconds}

-- A `datetime` as it comes: a naive one holds the wall clock, an aware one an instant.
pub data Datetime : Type 0 where
  naive aware : ℕ → Datetime

pub record JobCreate : Type 0 where
  pub recipient : Text
  pub channel : Channel
  pub payload : Text
  pub send_at : Option Datetime
  pub delay_seconds : Option ℤ
  pub priority : Priority
  pub callback_url : Option Text
  pub idempotency_key : Option Text

abbrev pub max_delay_seconds : ℕ
max_delay_seconds = 366 * 24 * 3600

-- `min_length=1`
abbrev pub is_nonempty : Text → Bool
is_nonempty [] = false
is_nonempty (c ∷ s) = true

abbrev pub is_nonempty_if_given : Option Text → Bool
is_nonempty_if_given none = true
is_nonempty_if_given (some s) = is_nonempty s

abbrev pub is_delay : Option ℤ → Bool
is_delay none = true
is_delay (some (pos n)) = leb n max_delay_seconds
is_delay (some (negsuc n)) = false

-- A naive datetime is taken as UTC, in which the wall clock is the instant.
abbrev pub assume_utc : Option Datetime → Option Datetime
assume_utc none = none
assume_utc (some (naive t)) = some (aware t)
assume_utc (some (aware t)) = some (aware t)

abbrev pub is_exclusive : Option Datetime → Option ℤ → Bool
is_exclusive (some _) (some _) = false
is_exclusive _ _ = true

-- `none` is a validation error, which FastAPI answers by 422.
unfoldable pub validate : JobCreate → Option JobCreate
validate body =
    if is_nonempty body.recipient
      && (is_delay body.delay_seconds
          && (is_nonempty_if_given body.idempotency_key
              && is_exclusive body.send_at body.delay_seconds))
    then some (record body { send_at = assume_utc body.send_at })
    else none

abbrev pub instant : Datetime → ℕ
instant (naive t) = t
instant (aware t) = t

-- `now` is what `datetime.now(UTC)` yields, where the source reads it.
unfoldable pub resolve_send_at : Option Datetime → Option ℤ → ℕ → ℕ
resolve_send_at (some t) delay now = instant t
resolve_send_at none (some (pos delay)) now = now + microseconds delay
resolve_send_at none (some (negsuc n)) now = now - microseconds (n + 1)
resolve_send_at none none now = now
