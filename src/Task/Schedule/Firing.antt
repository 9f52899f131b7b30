-- ===== src/Task/Schedule/Firing.antt =====
-- What `Schedule.Next` of task/task.go returns: the first second after its argument at which the schedule
-- fires, or the zero time if there is none in the years that it searches.
use beego.Common.{ℕ, ◌≤◌, ◌<◌, ◌≡◌, ap, ◌≢◌, true, false, ◌&&◌, ◌||◌, arith, ◌⊎◌, if◌then◌else◌}
use native.Mathlib.Nat.{le_trans, le_of_lt}
use beego.Task.Time.{
  Time, IsTime, weekday, weekday_of, days_in_bounds, add_month, add_day, add_hour, add_minute,
  add_second, date_rank, second_rank,
}
use beego.Task.Word.Bits.{nonzero-and_shl, nonzero-and_shl_right}
use beego.Task.Spec.{Schedule}
use beego.Task.Schedule.{
  month_ok, day_matches, hour_ok, minute_ok, second_ok, trunc_month, trunc_day, trunc_hour,
  trunc_minute, trunc_second,
}
use beego.Task.Schedule.Units.{
  month_step, day_step, hour_step, minute_step, second_step, day_least, hour_least, minute_least,
  second_least,
}
use beego.Task.Schedule.Passes.{
  Kept, month_ok-congr, day_matches-congr, hour_ok-congr, minute_ok-congr,
}

-- The days of a schedule: with a star in the day or the week field both fields must fit, without one
-- it is enough that either does.
abbrev pub DayFits : Schedule → Time → Type 0
DayFits s t =
    ((s.day 63 || s.week 63) ≡ true) × (s.day t.day ≡ true) × (s.week (weekday t) ≡ true)
    ⊎ ((s.day 63 || s.week 63) ≡ false) × ((s.day t.day ≡ true) ⊎ (s.week (weekday t) ≡ true))

-- The schedule names this second.
pub record Fires (s : Schedule) (t : Time) : Type 0 where
  pub month : s.month t.month ≡ true
  pub day : DayFits s t
  pub hour : s.hour t.hour ≡ true
  pub minute : s.minute t.minute ≡ true
  pub second : s.second t.second ≡ true

weekday-lt : (y m d : ℕ) → weekday_of y m d < 7
unfolding weekday_of
weekday-lt y m d = omega arith

pub month_ok-bit : (s : Schedule) (t : Time) → IsTime t → month_ok s t ≡ s.month t.month
unfolding month_ok
month_ok-bit s t h = nonzero-and_shl t.month s.month (omega arith)

pub hour_ok-bit : (s : Schedule) (t : Time) → IsTime t → hour_ok s t ≡ s.hour t.hour
unfolding hour_ok
hour_ok-bit s t h = nonzero-and_shl t.hour s.hour (omega arith)

pub minute_ok-bit : (s : Schedule) (t : Time) → IsTime t → minute_ok s t ≡ s.minute t.minute
unfolding minute_ok
minute_ok-bit s t h = nonzero-and_shl t.minute s.minute (omega arith)

pub second_ok-bit : (s : Schedule) (t : Time) → IsTime t → second_ok s t ≡ s.second t.second
unfolding second_ok
second_ok-bit s t h = nonzero-and_shl t.second s.second (omega arith)

day_matches-bits :
    (s : Schedule) (t : Time)
    → IsTime t
    → day_matches s t ≡ (
        if s.day 63 || s.week 63
        then s.day t.day && s.week (weekday t)
        else s.day t.day || s.week (weekday t))
unfolding day_matches
day_matches-bits s t h =
    let a = nonzero-and_shl t.day s.day (omega (arith, days_in_bounds t.year t.month)) in
    let b = nonzero-and_shl (weekday t) s.week (omega (arith, weekday-lt t.year t.month t.day)) in
    let c = nonzero-and_shl_right 63 s.day (omega arith) in
    let d = nonzero-and_shl_right 63 s.week (omega arith) in rw (a, b, c, d)

pub day_matches-DayFits :
    (s : Schedule) (t : Time) → IsTime t → day_matches s t ≡ true → DayFits s t
day_matches-DayFits s t h e = ground (arith, day_matches-bits s t h)

DayFits-day_matches : (s : Schedule) (t : Time) → IsTime t → DayFits s t → day_matches s t ≡ true
DayFits-day_matches s t h e = ground (arith, day_matches-bits s t h)

-- What is known of the time `t` that the search has reached, `start` being where it began.
pub record Reached (s : Schedule) (start : ℕ) (t : Time) : Type 0 where
  pub after : start ≤ second_rank t
  pub least :
      (v : Time) → IsTime v → Fires s v → start ≤ second_rank v → second_rank t ≤ second_rank v

-- A round of a loop passes over no second at which the schedule fires.
module _ (s : Schedule) (t v : Time) (h : IsTime t) (k : IsTime v) (f : Fires s v) where
  month_ne : month_ok s t ≡ false → t.month ≢ v.month
  month_ne e same = ground (arith, month_ok-congr s v t same, month_ok-bit s v k, f.month)

  month_skip :
      month_ok s t ≡ false
      → second_rank t ≤ second_rank v
      → second_rank (add_month (trunc_month t)) ≤ second_rank v
  month_skip e l = ground (
    arith,
    month_ne e,
    month_step t h,
    days_in_bounds t.year t.month,
    days_in_bounds v.year v.month,
  )

  date_ne : day_matches s t ≡ false → date_rank t ≢ date_rank v
  date_ne e same =
      let y : t.year ≡ v.year =
        omega (arith, days_in_bounds t.year t.month, days_in_bounds v.year v.month) in
      let m : t.month ≡ v.month =
        omega (arith, days_in_bounds t.year t.month, days_in_bounds v.year v.month) in
      let d : t.day ≡ v.day =
        omega (arith, days_in_bounds t.year t.month, days_in_bounds v.year v.month) in
      cc (day_matches-congr s v t y m d, DayFits-day_matches s v k f.day)

  day_skip :
      day_matches s t ≡ false
      → second_rank t ≤ second_rank v
      → second_rank (add_day (trunc_day t)) ≤ second_rank v
  day_skip e l = omega (arith, date_ne e, day_least (trunc_day t) v, day_step (trunc_day t))

  hour_ne : hour_ok s t ≡ false → t.hour ≢ v.hour
  hour_ne e same = ground (arith, hour_ok-congr s v t same, hour_ok-bit s v k, f.hour)

  hour_skip :
      hour_ok s t ≡ false
      → second_rank t ≤ second_rank v
      → second_rank (add_hour (trunc_hour t)) ≤ second_rank v
  hour_skip e l = omega (arith, hour_ne e, hour_least (trunc_hour t) v, hour_step (trunc_hour t))

  minute_ne : minute_ok s t ≡ false → t.minute ≢ v.minute
  minute_ne e same = ground (arith, minute_ok-congr s v t same, minute_ok-bit s v k, f.minute)

  minute_skip :
      minute_ok s t ≡ false
      → second_rank t ≤ second_rank v
      → second_rank (add_minute (trunc_minute t)) ≤ second_rank v
  minute_skip e l =
      omega (arith, minute_ne e, minute_least (trunc_minute t) v, minute_step (trunc_minute t))

  second_ne : second_ok s t ≡ false → t.second ≢ v.second
  second_ne e same =
      let bit : s.second t.second ≡ s.second v.second = ap s.second same in
      ground (arith, second_ok-bit s t h, bit, f.second)

  second_skip :
      second_ok s t ≡ false
      → second_rank t ≤ second_rank v
      → second_rank (add_second (trunc_second t)) ≤ second_rank v
  second_skip e l =
      omega (arith, second_ne e, second_least (trunc_second t) v, second_step (trunc_second t))

module _ (t : Time) (h : IsTime t) where
  month_grows : second_rank t ≤ second_rank (add_month (trunc_month t))
  month_grows = omega (arith, month_step t, days_in_bounds t.year t.month)

  day_grows : second_rank t ≤ second_rank (add_day (trunc_day t))
  day_grows = omega (arith, day_step (trunc_day t))

  hour_grows : second_rank t ≤ second_rank (add_hour (trunc_hour t))
  hour_grows = omega (arith, hour_step (trunc_hour t))

  minute_grows : second_rank t ≤ second_rank (add_minute (trunc_minute t))
  minute_grows = omega (arith, minute_step (trunc_minute t))

  second_grows : second_rank t < second_rank (add_second (trunc_second t))
  second_grows = omega (arith, second_step (trunc_second t))

pub Reached-Kept : (s : Schedule) (start : ℕ) → Kept s (Reached s start)
Reached-Kept s start = record {
  month = λ t h e r. record {
    after = le_trans r.after (month_grows t h);
    least = λ v k f l. month_skip s t v h k f e (r.least v k f l);
  };
  day = λ t h e r. record {
    after = le_trans r.after (day_grows t h);
    least = λ v k f l. day_skip s t v h k f e (r.least v k f l);
  };
  hour = λ t h e r. record {
    after = le_trans r.after (hour_grows t h);
    least = λ v k f l. hour_skip s t v h k f e (r.least v k f l);
  };
  minute = λ t h e r. record {
    after = le_trans r.after (minute_grows t h);
    least = λ v k f l. minute_skip s t v h k f e (r.least v k f l);
  };
  second = λ t h e r. record {
    after = le_trans r.after (le_of_lt (second_grows t h));
    least = λ v k f l. second_skip s t v h k f e (r.least v k f l);
  };
}
