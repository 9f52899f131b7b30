-- ===== src/Task/Time.antt =====
-- Wall clock times, as `Schedule.Next` of task/task.go uses the package time: the proleptic Gregorian
-- calendar in one location of fixed offset. `Time.IsZero` is the equality with `zero_time`.
use beego.Common.{
  ℕ, zero, suc, ◌+◌, ◌-◌, ◌*◌, ◌/◌, ◌%◌, ◌≤◌, ◌<◌, Bool, not, ◌&&◌, ◌||◌, arith, ltb, leb, ◌==◌,
  if◌then◌else◌,
}

pub record Time : Type 0 where
  pub year : ℕ
  pub month : ℕ
  pub day : ℕ
  pub hour : ℕ
  pub minute : ℕ
  pub second : ℕ
  pub nanosecond : ℕ

-- `time.Time{}`
abbrev pub zero_time : Time
zero_time = record {
  year = 1;
  month = 1;
  day = 1;
  hour = 0;
  minute = 0;
  second = 0;
  nanosecond = 0;
}

unfoldable pub is_leap : ℕ → Bool
is_leap y = (y % 4 == 0) && (not (y % 100 == 0) || (y % 400 == 0))

unfoldable pub days_in : ℕ → ℕ → ℕ
unfolding is_leap
days_in y m =
    if (m == 9) || (m == 4) || (m == 6) || (m == 11)
    then 30
    else if not (m == 2)
    then 31
    else if is_leap y
    then 29
    else 28

-- The days of the months before month `m` of year `y`.
days_before : ℕ → ℕ → ℕ
days_before y zero = 0
days_before y (suc zero) = 0
days_before y (suc (suc m)) = days_before y (suc m) + days_in y (suc m)

-- `Time.Weekday`, 0 for Sunday: the first day of year 1 is a Monday.
unfoldable pub weekday_of : ℕ → ℕ → ℕ → ℕ
unfolding days_before days_in
weekday_of year month day =
    let y = year - 1 in (365 * y + y / 4 - y / 100 + y / 400 + days_before year month + day) % 7

abbrev pub weekday : Time → ℕ
weekday t = weekday_of t.year t.month t.day

unfoldable pub next_month : ℕ → ℕ → ℕ × ℕ
next_month y m = if leb 12 m then (y + 1, 1) else (y, m + 1)

-- `t.AddDate(0, 1, 0)`: a day that the next month does not have runs over into the month after it.
unfoldable pub add_month : Time → Time
unfolding next_month days_in
add_month t =
    let (y, m) = next_month t.year t.month in
    if leb t.day (days_in y m)
    then record t { year = y; month = m }
    else (let (y', m') = next_month y m in
        record t { year = y'; month = m'; day = t.day - days_in y m })

-- `t.AddDate(0, 0, 1)`
unfoldable pub add_day : Time → Time
unfolding next_month days_in
add_day t =
    if ltb t.day (days_in t.year t.month)
    then record t { day = t.day + 1 }
    else (let (y, m) = next_month t.year t.month in record t { year = y; month = m; day = 1 })

-- `t.Add(1 * time.Hour)`
unfoldable pub add_hour : Time → Time
add_hour t =
    if ltb t.hour 23 then record t { hour = t.hour + 1 } else add_day (record t { hour = 0 })

-- `t.Add(1 * time.Minute)`
unfoldable pub add_minute : Time → Time
add_minute t =
    if ltb t.minute 59
    then record t { minute = t.minute + 1 }
    else add_hour (record t { minute = 0 })

-- `t.Add(1 * time.Second)`
unfoldable pub add_second : Time → Time
add_second t =
    if ltb t.second 59
    then record t { second = t.second + 1 }
    else add_minute (record t { second = 0 })

pub days_in_bounds : (y m : ℕ) → (28 ≤ days_in y m) × (days_in y m ≤ 31)
unfolding days_in
days_in_bounds y m = ground arith

-- A time that the package time can return.
pub record IsTime (t : Time) : Type 0 where
  pub month_pos : 1 ≤ t.month
  pub month_le : t.month ≤ 12
  pub day_pos : 1 ≤ t.day
  pub day_le : t.day ≤ days_in t.year t.month
  pub hour_lt : t.hour < 24
  pub minute_lt : t.minute < 60
  pub second_lt : t.second < 60

-- The place of a minute in an order that agrees with the order of times: a mixed radix number, whose
-- radices are at least the lengths of the units.
abbrev pub date_rank : Time → ℕ
date_rank t = (t.year * 13 + t.month) * 40 + t.day

abbrev pub hour_rank : Time → ℕ
hour_rank t = date_rank t * 24 + t.hour

abbrev pub minute_rank : Time → ℕ
minute_rank t = hour_rank t * 60 + t.minute

abbrev pub second_rank : Time → ℕ
second_rank t = minute_rank t * 60 + t.second
