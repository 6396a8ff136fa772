-- ===== src/Ratelimit/Calendar.antt =====
-- `%Y%m%d%H` of Python's `strftime`, on the hours since 0001-01-01T00. The date is computed over
-- years that begin in March, so that a leap day ends one; 306 days lie between 0000-03-01 and
-- 0001-01-01, and 146097 days make 400 years. Years have four digits, as those from 1000 to 9999 do.
pub mod Inverse
use notify_queue.Base.{ℕ, ◌+◌, ◌-◌, ◌*◌, ◌/◌, ◌%◌, [], ◌∷◌, ◌++◌, Text, if◌then◌else◌, ltb}

pub record Date : Type 0 where
  pub year : ℕ
  pub month : ℕ
  pub day : ℕ

-- The days before the year `y` of a 400-year cycle, and before the month `m`, counted from March.
abbrev pub days_before_year : ℕ → ℕ
days_before_year y = 365 * y + y / 4 - y / 100

abbrev pub days_before_month : ℕ → ℕ
days_before_month m = (153 * m + 2) / 5

abbrev pub year_of_cycle : ℕ → ℕ
year_of_cycle d = (d - d / 1460 + d / 36524 - d / 146096) / 365

unfoldable pub date_of_day : ℕ → Date
date_of_day n =
    let cycle = (n + 306) / 146097 in
    let d = (n + 306) % 146097 in
    let y = year_of_cycle d in
    let day_of_year = d - days_before_year y in
    let m = (5 * day_of_year + 2) / 153 in
    record {
      year = cycle * 400 + y + (if ltb m 10 then 0 else 1);
      month = if ltb m 10 then m + 3 else m - 9;
      day = day_of_year - days_before_month m + 1;
    }

abbrev pub digit : ℕ → ℕ
digit n = n % 10 + b'0'

abbrev pub two_digits : ℕ → Text
two_digits n = digit (n / 10) ∷ digit n ∷ []

abbrev pub four_digits : ℕ → Text
four_digits n = digit (n / 1000) ∷ digit (n / 100) ∷ two_digits n

unfoldable pub format_hour : ℕ → Text
unfolding date_of_day
format_hour h =
    let date = date_of_day (h / 24) in
    four_digits date.year ++ (two_digits date.month ++ (two_digits date.day ++ two_digits (h % 24)))
