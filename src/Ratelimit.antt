-- ===== src/Ratelimit.antt =====
-- src/notify_queue/ratelimit.py: the hourly window, its key and the script that counts in it. In UTC
-- an hour begins at a multiple of 3600 seconds, so `replace(minute=0, …)` rounds down to one.
pub mod Calendar
pub mod Check
pub mod Window
pub mod Key
pub mod Counting
pub mod Admission
use notify_queue.Base.{
  ℕ, ◌+◌, ◌-◌, ◌*◌, ◌/◌, Option, none, some, ◌++◌, Text, codes, if◌then◌else◌, ℤ, pos, negsuc, Bool,
  false, ◌==◌,
}
use notify_queue.Schema.{microseconds}
use notify_queue.Redis.{Redis, Counter}
use Calendar.{format_hour}

abbrev pub hour_length : ℕ
hour_length = microseconds 3600

unfoldable pub window_key : Text → ℕ → Text
unfolding format_hour
window_key recipient now =
    codes "ratelimit:" ++ recipient ++ codes ":" ++ format_hour (now / hour_length)

-- `int` drops the microseconds of the difference.
unfoldable pub seconds_until_next_window : ℕ → ℕ
seconds_until_next_window now =
    let next_window = now / hour_length * hour_length + hour_length in
    (next_window - now) / microseconds 1 + 1

abbrev pub window_ttl : ℕ
window_ttl = microseconds 7200

abbrev pub is_one : ℤ → Bool
is_one (pos n) = n == 1
is_one (negsuc n) = false

abbrev pub value_of : Option Counter → ℤ
value_of none = pos 0
value_of (some (n, _)) = n

module _ {Q L C : Type 0} (redis : Redis Q L C) where
  -- INCR_WITH_TTL, one step of the server: the new count, and the counters after it.
  unfoldable pub incr_with_ttl : Text → ℕ → ℕ → C → ℤ × C
  incr_with_ttl key ttl now r =
      let r' = redis.incr key now r in
      let current = value_of (redis.counter key r') in
      (current, if is_one current then redis.expire key ttl now r' else r')
