-- ===== src/Base/Float.antt =====
-- The arithmetic of Python's `float`, of the positive numbers from 1 to 2 ^ 64, in units of 2 ^ -52: each
-- such double is a whole number of them. Rounding is to nearest, ties to even.
use notify_queue.Base.{ℕ, zero, suc, ◌+◌, ◌*◌, ◌/◌, ◌%◌, ◌^◌, ◌&&◌, ◌||◌, if◌then◌else◌, ltb, ◌==◌}

-- `n / d` to the nearest integer; `round` of a quotient.
unfoldable pub half_even : ℕ → ℕ → ℕ
half_even n d =
    let up = ltb d (2 * (n % d)) || (2 * (n % d) == d && n / d % 2 == 1) in
    if up then n / d + 1 else n / d

-- How many bits a number has beyond the 53 of a double.
unfoldable excess : ℕ → ℕ → ℕ
excess zero n = 0
excess (suc fuel) n = let more = excess fuel (n / 2) in if ltb n (2 ^ 53) then 0 else more + 1

abbrev pub unit : ℕ
unit = 2 ^ 52

-- The double nearest to `n / d`.
unfoldable pub float_of : ℕ → ℕ → ℕ
unfolding half_even excess
float_of n d = let k = excess 64 (n * unit / d) in half_even (n * unit) (d * 2 ^ k) * 2 ^ k

-- The sum of two doubles.
unfoldable pub float_add : ℕ → ℕ → ℕ
unfolding float_of
float_add a b = float_of (a + b) unit

-- `round` of a double.
unfoldable pub float_round : ℕ → ℕ
unfolding half_even
float_round a = half_even a unit
