-- ===== src/Ratelimit/Key.antt =====
-- Which deliveries share the key of src/notify_queue/ratelimit.py.
use notify_queue.Base.{
  ℕ, ◌*◌, ◌/◌, ◌%◌, ◌<◌, ◌≤◌, ◌≡◌, refl, ap, ◌∙◌, sym, ◌↔◌, [], ◌∷◌, ◌++◌, Text, codes, arith,
  length, length-append,
}
use notify_queue.Schema.{microseconds}
use notify_queue.Ratelimit.{hour_length, window_key}
use notify_queue.Ratelimit.Calendar.{Date, date_of_day, two_digits, four_digits, format_hour}
use notify_queue.Ratelimit.Calendar.Inverse.{
  day_of_date, day_of_date-date_of_day, date_of_day_bounds,
}

-- The first instant after the year 9999, where a `datetime` ends.
-- The year 1000 begins 364877 days after the year 1.
abbrev pub four_digit_years : ℕ
four_digit_years = microseconds (364_877 * 86_400)

abbrev pub end_of_time : ℕ
end_of_time = microseconds (3_652_059 * 86_400)

append_inj :
    (xs ys us vs : Text) → length us ≡ length vs → xs ++ us ≡ ys ++ vs → (xs ≡ ys) × (us ≡ vs)
append_inj [] [] us vs n e = (refl, e)
append_inj [] (y ∷ ys) us vs n e = absurd (omega (arith, ap length e, length-append (y ∷ ys) vs))
append_inj (x ∷ xs) [] us vs n e = absurd (omega (arith, ap length e, length-append (x ∷ xs) us))
append_inj (x ∷ xs) (y ∷ ys) us vs n e = ground (arith, append_inj xs ys us vs n)

two_digits_inj : (a b : ℕ) → a < 100 → b < 100 → two_digits a ≡ two_digits b → a ≡ b
two_digits_inj a b ha hb e = ground arith

four_digits_inj : (a b : ℕ) → a < 10000 → b < 10000 → four_digits a ≡ four_digits b → a ≡ b
four_digits_inj a b ha hb e = ground arith

same_date :
    (a b : Date)
    → (a.year < 10000) × (a.month < 100) × (a.day < 100)
    → (b.year < 10000) × (b.month < 100) × (b.day < 100)
    → four_digits a.year ≡ four_digits b.year
    → two_digits a.month ≡ two_digits b.month
    → two_digits a.day ≡ two_digits b.day
    → a ≡ b
same_date a b ha hb y m d = ground (
  arith,
  four_digits_inj a.year b.year ha.0 hb.0 y,
  two_digits_inj a.month b.month ha.1 hb.1 m,
  two_digits_inj a.day b.day ha.2 hb.2 d,
)

-- Two hours with one text are one hour.
format_hour_inj :
    (a b : ℕ) → a < 3_652_059 * 24 → b < 3_652_059 * 24 → format_hour a ≡ format_hour b → a ≡ b
unfolding format_hour
format_hour_inj a b ha hb e =
    let (year, rest) =
      append_inj (four_digits (date a).year) (four_digits (date b).year) _ _ refl e in
    let (month, rest) =
      append_inj (two_digits (date a).month) (two_digits (date b).month) _ _ refl rest in
    let (day, hour) =
      append_inj (two_digits (date a).day) (two_digits (date b).day) _ _ refl rest in
    let same =
      same_date (date a) (date b) (date_of_day_bounds (a / 24) (omega arith))
        (date_of_day_bounds (b / 24) (omega arith)) year month day in
    omega (
      arith,
      ap day_of_date same,
      day_of_date-date_of_day (a / 24),
      day_of_date-date_of_day (b / 24),
      two_digits_inj (a % 24) (b % 24) (omega arith) (omega arith) hour,
    )
  where
    date : ℕ → Date
    date h = date_of_day (h / 24)

length-format_hour : (h : ℕ) → length (format_hour h) ≡ 10
unfolding format_hour
length-format_hour h = refl

-- From the year 1000 to the end of the year 9999, two deliveries are counted under one key exactly if they go to one
-- recipient in one hour.
pub window_key_inj :
    (r q : Text) (a b : ℕ)
    → four_digit_years ≤ a
    → a < end_of_time
    → four_digit_years ≤ b
    → b < end_of_time
    → (window_key r a ≡ window_key q b) ↔ ((r ≡ q) × (a / hour_length ≡ b / hour_length))
unfolding window_key
window_key_inj r q a b _ ha _ hb = (split, λ (same, hour). rw (same, hour))
  where
    split : window_key r a ≡ window_key q b → (r ≡ q) × (a / hour_length ≡ b / hour_length)
    split e =
        let (front, hour) =
          append_inj (codes "ratelimit:" ++ r ++ codes ":") (codes "ratelimit:" ++ q ++ codes ":") _
            _ (length-format_hour (a / hour_length) ∙ sym (length-format_hour (b / hour_length)))
            e in
        let (middle, _) =
          append_inj (codes "ratelimit:" ++ r) (codes "ratelimit:" ++ q) (codes ":") (codes ":")
            refl front in
        (
          ground (arith, middle),
          format_hour_inj (a / hour_length) (b / hour_length) (omega arith) (omega arith) hour,
        )
