-- ===== src/Ratelimit/Check.antt =====
-- `check_rate_limit` of src/notify_queue/ratelimit.py.
use notify_queue.Base.{ℕ, Bool, true, false, Text, if◌then◌else◌, above}
use notify_queue.Effects.{Command, Program, pure, ◌>>=◌, ◌>>◌, await}
use notify_queue.Ratelimit.{window_key, window_ttl, seconds_until_next_window}

unfoldable pub check_rate_limit : Text → ℕ → Program (Bool × ℕ)
check_rate_limit recipient limit = do
  now ← await Command.read_clock
  let key = window_key recipient now
  count ← await (Command.incr_with_ttl key window_ttl)
  if above limit count
      then await (Command.decr key) >> pure (false, seconds_until_next_window now)
      else pure (true, 0)
