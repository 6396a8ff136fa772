-- ===== src/Ratelimit/Calendar/Inverse.antt =====
-- Back from a date to its day.
use notify_queue.Base.{ℕ, ◌+◌, ◌-◌, ◌*◌, ◌/◌, ◌%◌, ◌≤◌, ◌<◌, ◌≡◌, ◌∙◌, arith, if◌then◌else◌, ltb}
use notify_queue.Ratelimit.Calendar.{
  Date, days_before_year, days_before_month, year_of_cycle, date_of_day,
}

abbrev month_from_march : ℕ → ℕ
month_from_march m = if ltb m 3 then m + 9 else m - 3

-- The days since 0001-01-01 of a date of a proper month and day.
abbrev pub day_of_date : Date → ℕ
day_of_date date =
    let y = if ltb date.month 3 then date.year - 1 else date.year in
    y / 400 * 146097
    + days_before_year (y % 400)
    + days_before_month (month_from_march date.month)
    + date.day
    - 307

year_bounds :
    (d : ℕ) → d < 146097 → (year_of_cycle d < 400) × (days_before_year (year_of_cycle d) ≤ d)
year_bounds d h = omega arith

year_end : (d : ℕ) → d < 146097 → d - days_before_year (year_of_cycle d) < 366
year_end d h = omega arith

month_bounds :
    (d : ℕ) → d < 366 → ((5 * d + 2) / 153 < 12) × (days_before_month ((5 * d + 2) / 153) ≤ d)
month_bounds d h = omega arith

-- The year that begins in March, and the month counted from it.
abbrev date_of : ℕ → ℕ → ℕ → ℕ → Date
date_of cycle y m d = record {
  year = cycle * 400 + y + (if ltb m 10 then 0 else 1);
  month = if ltb m 10 then m + 3 else m - 9;
  day = d - days_before_month m + 1;
}

march_year :
    (cycle y : ℕ) → y < 400 → ((cycle * 400 + y) / 400 ≡ cycle) × ((cycle * 400 + y) % 400 ≡ y)
march_year cycle y h = omega arith

day_of_date_of :
    (cycle y m d : ℕ)
    → y < 400
    → m < 12
    → days_before_month m ≤ d
    → day_of_date (date_of cycle y m d) ≡ cycle * 146097 + days_before_year y + d - 306
day_of_date_of cycle y m d hy hm hd = ground (arith, march_year cycle y hy)

-- Each day has its own date: the number of the day that `date_of_day` gives a date is read back from
-- that date.
pub day_of_date-date_of_day : (n : ℕ) → day_of_date (date_of_day n) ≡ n
unfolding date_of_day
day_of_date-date_of_day n =
    let d = (n + 306) % 146097 in
    let y = year_of_cycle d in
    let day_of_year = d - days_before_year y in
    let in_cycle : d < 146097 = omega arith in
    let (hy, start) = year_bounds d in_cycle in
    let (hm, first) = month_bounds day_of_year (year_end d in_cycle) in
    day_of_date_of ((n + 306) / 146097) y ((5 * day_of_year + 2) / 153) day_of_year hy hm first
    ∙ sum_up n (days_before_year y) start
  where
    sum_up :
        (n x : ℕ)
        → x ≤ (n + 306) % 146097
        → (n + 306) / 146097 * 146097 + x + ((n + 306) % 146097 - x) - 306 ≡ n
    sum_up n x h = omega arith

month_end : (d : ℕ) → d < 366 → d - days_before_month ((5 * d + 2) / 153) < 99
month_end d h = omega arith

-- March of the last year of a cycle opens on its day 145731, and January on 146037.
last_year :
    (d : ℕ)
    → d < 146037
    → year_of_cycle d ≡ 399
    → (5 * (d - days_before_year (year_of_cycle d)) + 2) / 153 < 10
last_year d h e = rw e (omega arith)

year_below :
    (cycle d y m : ℕ)
    → cycle * 146097 + d < 3_652_365
    → d < 146097
    → y < 400
    → (d < 146037 → y ≡ 399 → m < 10)
    → cycle * 400 + y + 1 < 10000 + (if ltb m 10 then 1 else 0)
year_below cycle d y m h hd hy last = grind arith

date_of_bounds :
    (cycle y m d : ℕ)
    → cycle * 400 + y + 1 < 10000 + (if ltb m 10 then 1 else 0)
    → m < 12
    → d - days_before_month m < 99
    → ((date_of cycle y m d).year < 10000)
      × ((date_of cycle y m d).month < 100)
      × ((date_of cycle y m d).day < 100)
date_of_bounds cycle y m d hy hm hd = ground arith

-- Up to the year 9999 the numbers have as many digits as they are given.
pub date_of_day_bounds :
    (n : ℕ)
    → n < 3_652_059
    → ((date_of_day n).year < 10000) × ((date_of_day n).month < 100) × ((date_of_day n).day < 100)
unfolding date_of_day
date_of_day_bounds n h =
    let d = (n + 306) % 146097 in
    let y = year_of_cycle d in
    let day_of_year = d - days_before_year y in
    let in_cycle : d < 146097 = omega arith in
    let (hm, first) = month_bounds day_of_year (year_end d in_cycle) in
    date_of_bounds ((n + 306) / 146097) y ((5 * day_of_year + 2) / 153) day_of_year
      (year_below ((n + 306) / 146097) d y ((5 * day_of_year + 2) / 153) (omega arith) in_cycle
        (year_bounds d in_cycle).0 (last_year d))
      hm (month_end day_of_year (year_end d in_cycle))
