-- ===== src/Ratelimit/Window.antt =====
-- The wait of a refused delivery, of src/notify_queue/ratelimit.py.
use notify_queue.Base.{ℕ, ◌+◌, ◌*◌, ◌/◌, ◌≤◌, ◌≡◌, arith}
use notify_queue.Schema.{microseconds}
use notify_queue.Ratelimit.{hour_length, seconds_until_next_window}

-- The wait that a refused delivery is given ends in the next hour, and at most a second after it opens.
pub seconds_until_next_window_lem :
    (now : ℕ)
    → ((now + microseconds (seconds_until_next_window now)) / hour_length ≡ now / hour_length + 1)
      × (now + microseconds (seconds_until_next_window now)
          ≤ (now / hour_length + 1) * hour_length + microseconds 1)
unfolding seconds_until_next_window
seconds_until_next_window_lem now = omega arith
