-- ===== src/Task/Schedule/Tests.antt =====
-- Runs of `Next`.
use beego.Common.{ℕ, ◌≡◌, refl, codes, Text}
use beego.Common.Outcome.{Outcome, ok, ◌>>=◌}
use beego.Task.Time.{Time, weekday_of, add_month, add_day, add_hour, add_minute, add_second}
use beego.Task.Word.{Failure, nonzero}
use beego.Task.Spec.{parse}
use beego.Task.Spec.Tests.{program}
use beego.Task.Schedule.{
  field_loop, month_ok, day_matches, hour_ok, minute_ok, second_ok, month_loop, day_loop, hour_loop,
  minute_loop, second_loop, pass, next_from, next,
}

searching : Unit {0}
unfolding program weekday_of add_month add_day add_hour add_minute add_second nonzero field_loop
    month_ok day_matches hour_ok minute_ok second_ok month_loop day_loop hour_loop minute_loop
    second_loop pass next_from next
searching = tt

abbrev at : ℕ → ℕ → ℕ → ℕ → ℕ → ℕ → Time
at y mo d h mi s = record {
  year = y;
  month = mo;
  day = d;
  hour = h;
  minute = mi;
  second = s;
  nanosecond = 0;
}

abbrev after : ℕ → Text → Time → Outcome Failure Time
after fuel spec t = parse 66 spec >>= λ s. next fuel s t

leap_day : after 5000 (codes "0 0 0 29 2 *") (at 2021 3 1 0 0 0) ≡ ok (at 2024 2 29 0 0 0)
unfolding searching
leap_day = refl

monday : after 100 (codes "0 30 17 * * 1") (at 2022 8 24 12 0 0) ≡ ok (at 2022 8 29 17 30 0)
unfolding searching
monday = refl
