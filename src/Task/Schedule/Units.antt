-- ===== src/Task/Schedule/Units.antt =====
-- One round of each loop of `Next`: what `inc(trunc(t))` is, field by field.
use beego.Common.{ℕ, ◌+◌, ◌*◌, ◌≤◌, ◌<◌, ◌≡◌, arith, ltb, ◌⊎◌, inl, inr, Bool-cases}
use mathlib.Core.Path.{ap₂}
use native.Mathlib.Decide.{ℕ_discrete}
use beego.Task.Time.{
  next_month, Time, IsTime, days_in, days_in_bounds, add_month, add_day, add_hour, add_minute,
  add_second, date_rank, hour_rank, minute_rank, second_rank,
}
use beego.Task.Schedule.{trunc_month}

-- A time of whole seconds.
pub record IsExact (t : Time) : Type 0 where
  pub time : IsTime t
  pub exact : t.nanosecond ≡ 0

abbrev pub CleanDay : Time → Type 0
CleanDay t = (t.hour ≡ 0) × (t.minute ≡ 0) × (t.second ≡ 0)

pub trunc_month-IsExact : (t : Time) → IsTime t → IsExact (trunc_month t)
trunc_month-IsExact t h = ground (arith, days_in_bounds t.year t.month)

pub month_step-IsExact : (t : Time) → IsTime t → IsExact (add_month (trunc_month t))
unfolding add_month
month_step-IsExact t h =
    ground (arith, days_in_bounds (t.year + 1) 1, days_in_bounds t.year (t.month + 1))

-- Either the next month of the year, or January of the next year.
pub month_step :
    (t : Time)
    → IsTime t
    → let u = add_month (trunc_month t) in
      (u.day ≡ 1)
      × CleanDay u
      × (((u.year ≡ t.year) × (u.month ≡ t.month + 1))
          ⊎ ((t.month ≡ 12) × (u.month ≡ 1) × (u.year ≡ t.year + 1)))
unfolding add_month
month_step t h = ground (arith, days_in_bounds (t.year + 1) 1, days_in_bounds t.year (t.month + 1))

add_day-IsExact : (t : Time) → IsExact t → IsExact (add_day t)
unfolding add_day
add_day-IsExact t h =
    ground (arith, days_in_bounds (t.year + 1) 1, days_in_bounds t.year (t.month + 1))

month_least :
    (y m y' m' d : ℕ)
    → y * 13 + m < y' * 13 + m'
    → m ≤ 12
    → 1 ≤ m'
    → 1 ≤ d
    → m' ≤ 12
    → ((next_month y m).0 * 13 + (next_month y m).1) * 40 + 1 ≤ (y' * 13 + m') * 40 + d
unfolding next_month
month_least y m y' m' d h a b c e = ground arith

-- Either the next day of the month, or the first day of a later month.
pub day_step :
    (t : Time)
    → IsTime t
    → let u = add_day t in
      (u.hour ≡ t.hour)
      × (u.minute ≡ t.minute)
      × (u.second ≡ t.second)
      × (u.nanosecond ≡ t.nanosecond)
      × (((u.year ≡ t.year) × (u.month ≡ t.month) × (u.day ≡ t.day + 1))
          ⊎ ((u.day ≡ 1) × (date_rank t < date_rank u)))
unfolding add_day
day_step t h = ground arith

pub day_step-IsTime : (t : Time) → IsTime t → IsTime (add_day t)
unfolding add_day
day_step-IsTime t h =
    ground (arith, days_in_bounds (t.year + 1) 1, days_in_bounds t.year (t.month + 1))

-- No day stands between the last of a month and the first of the next.
day_last :
    (t v : Time)
    → IsTime t
    → IsTime v
    → days_in t.year t.month ≤ t.day
    → date_rank t < date_rank v
    → t.year * 13 + t.month < v.year * 13 + v.month
day_last t v h k full l = elim (ℕ_discrete t.year v.year) [
  | yes y ↦ elim (ℕ_discrete t.month v.month) [
    | yes m ↦
        let same : days_in t.year t.month ≡ days_in v.year v.month = ap₂ days_in y m in
        absurd (omega (arith, h.day_le, k.day_le, days_in_bounds t.year t.month))
    | no m ↦ omega (
      arith,
      h.month_le,
      k.month_le,
      h.day_le,
      k.day_le,
      days_in_bounds t.year t.month,
      days_in_bounds v.year v.month,
    )
  ]
  | no y ↦ omega (
    arith,
    h.month_le,
    k.month_le,
    h.day_le,
    k.day_le,
    days_in_bounds t.year t.month,
    days_in_bounds v.year v.month,
  )
]

-- `add_day` goes to the very next day.
pub day_least :
    (t v : Time)
    → IsTime t
    → IsTime v
    → date_rank t < date_rank v
    → date_rank (add_day t) ≤ date_rank v
unfolding add_day
day_least t v h k l = elim (Bool-cases (ltb t.day (days_in t.year t.month))) [
  | inl short ↦ rw short (omega arith)
  | inr full ↦
      let later = day_last t v h k (ground arith) l in
      rw full (
        month_least t.year t.month v.year v.month v.day later h.month_le k.month_pos k.day_pos
          k.month_le)
]

-- Either the next hour of the day, or midnight of a later day.
pub hour_step :
    (t : Time)
    → IsTime t
    → let u = add_hour t in
      (u.minute ≡ t.minute)
      × (u.second ≡ t.second)
      × (u.nanosecond ≡ t.nanosecond)
      × (((u.year ≡ t.year) × (u.month ≡ t.month) × (u.day ≡ t.day) × (u.hour ≡ t.hour + 1))
          ⊎ ((u.hour ≡ 0)
              × (date_rank t < date_rank u)
              × (((u.year ≡ t.year) × (u.month ≡ t.month)) ⊎ (u.day ≡ 1))))
unfolding add_hour
hour_step t h = ground (arith, day_step (record t { hour = 0 }))

pub hour_step-IsTime : (t : Time) → IsTime t → IsTime (add_hour t)
unfolding add_hour
hour_step-IsTime t h = ground (arith, day_step-IsTime (record t { hour = 0 }))

pub hour_least :
    (t v : Time)
    → IsTime t
    → IsTime v
    → hour_rank t < hour_rank v
    → hour_rank (add_hour t) ≤ hour_rank v
unfolding add_hour
hour_least t v h k l =
    ground (arith, day_least (record t { hour = 0 }) v, day_step (record t { hour = 0 }))

-- Either the next minute of the hour, or the first minute of a later hour.
pub minute_step :
    (t : Time)
    → IsTime t
    → let u = add_minute t in
      (u.second ≡ t.second)
      × (u.nanosecond ≡ t.nanosecond)
      × (((u.year ≡ t.year)
            × (u.month ≡ t.month)
            × (u.day ≡ t.day)
            × (u.hour ≡ t.hour)
            × (u.minute ≡ t.minute + 1))
          ⊎ ((u.minute ≡ 0)
              × (hour_rank t < hour_rank u)
              × (((u.year ≡ t.year) × (u.month ≡ t.month)) ⊎ (u.day ≡ 1))
              × (((u.year ≡ t.year) × (u.month ≡ t.month) × (u.day ≡ t.day)) ⊎ (u.hour ≡ 0))))
unfolding add_minute
minute_step t h =
    ground (arith, hour_step (record t { minute = 0 }), hour_step-IsTime (record t { minute = 0 }))

pub minute_step-IsTime : (t : Time) → IsTime t → IsTime (add_minute t)
unfolding add_minute
minute_step-IsTime t h = ground (arith, hour_step-IsTime (record t { minute = 0 }))

pub minute_least :
    (t v : Time)
    → IsTime t
    → IsTime v
    → minute_rank t < minute_rank v
    → minute_rank (add_minute t) ≤ minute_rank v
unfolding add_minute
minute_least t v h k l =
    ground (arith, hour_least (record t { minute = 0 }) v, hour_step (record t { minute = 0 }))

-- Either the next second of the minute, or the first second of a later minute.
pub second_step :
    (t : Time)
    → IsTime t
    → let u = add_second t in
      (u.nanosecond ≡ t.nanosecond)
      × (((u.year ≡ t.year)
            × (u.month ≡ t.month)
            × (u.day ≡ t.day)
            × (u.hour ≡ t.hour)
            × (u.minute ≡ t.minute)
            × (u.second ≡ t.second + 1))
          ⊎ ((u.second ≡ 0)
              × (minute_rank t < minute_rank u)
              × (((u.year ≡ t.year) × (u.month ≡ t.month)) ⊎ (u.day ≡ 1))
              × (((u.year ≡ t.year) × (u.month ≡ t.month) × (u.day ≡ t.day)) ⊎ (u.hour ≡ 0))
              × (((u.year ≡ t.year) × (u.month ≡ t.month) × (u.day ≡ t.day) × (u.hour ≡ t.hour))
                  ⊎ (u.minute ≡ 0))))
unfolding add_second
second_step t h =
    ground
      (arith, minute_step (record t { second = 0 }), minute_step-IsTime (record t { second = 0 }))

pub second_step-IsTime : (t : Time) → IsTime t → IsTime (add_second t)
unfolding add_second
second_step-IsTime t h = ground (arith, minute_step-IsTime (record t { second = 0 }))

pub second_least :
    (t v : Time)
    → IsTime t
    → IsTime v
    → second_rank t < second_rank v
    → second_rank (add_second t) ≤ second_rank v
unfolding add_second
second_least t v h k l =
    ground (arith, minute_least (record t { second = 0 }) v, minute_step (record t { second = 0 }))
