-- ===== src/Task/Examples.antt =====
-- The theorems on cron expressions and schedules at concrete inputs.
use beego.Common.{true, ℕ, ◌+◌, ◌-◌, ◌%◌, ◌≡◌, refl, ◌&&◌, ◌||◌, leb, ◌==◌, codes, arith}
use beego.Common.Outcome.{ok, fuel_out}
use beego.Task.Time.{Time, IsTime, days_in}
use beego.Task.Word.{Word, ones_shl, word_and, word_not, word_or, one_shl, star_bit}
use beego.Task.Spec.{Schedule, get_range, minutes}
use beego.Task.Spec.Tests.{program}
use beego.Task.Spec.Ranges.{get_range-meaning, get_range_step_zero}
use beego.Task.Spec.InBounds.{InBounds, parse-InBounds}
use beego.Task.Schedule.{next, upcoming}
use beego.Task.Schedule.Next.{Answers, next-Answers}

-- Wednesday, 24 August 2022, one hour before midnight.
abbrev late : Time
late = record {
  year = 2022;
  month = 8;
  day = 24;
  hour = 23;
  minute = 0;
  second = 0;
  nanosecond = 5;
}

late-IsTime : IsTime late
unfolding days_in
late-IsTime = omega arith

-- Every hour, as "@hourly" has it.
abbrev hourly : Schedule
hourly = record {
  second = one_shl 0;
  minute = one_shl 0;
  hour = λ j. leb j 23 || j == 63;
  day = λ j. (leb 1 j && leb j 31) || j == 63;
  month = λ j. (leb 1 j && leb j 12) || j == 63;
  week = λ j. leb j 6 || j == 63;
}

next-Answers_example :
    (r : Time) × (next 4_492_801 hourly late ≡ ok r)
    × Answers hourly late ((upcoming late).year + 5) r
next-Answers_example = next-Answers 4_492_801 hourly late late-IsTime (omega arith)

abbrev yearly : Schedule
yearly = record {
  second = one_shl 0;
  minute = one_shl 0;
  hour = one_shl 0;
  day = one_shl 1;
  month = one_shl 1;
  week = word_or (word_and (word_not (ones_shl 7)) (ones_shl 0)) star_bit;
}

parse-InBounds_example : InBounds yearly
unfolding program
parse-InBounds_example = parse-InBounds 0 (codes "@yearly") yearly refl

get_range-meaning_example :
    (w : Word) × (get_range 66 (codes "*/15") minutes ≡ ok w)
    × ((j : ℕ) → w j ≡ ((leb 0 j && leb j 59 && ((j - 0) % 15 == 0)) || (true && (j == 63))))
unfolding program
get_range-meaning_example =
    get_range-meaning (codes "*/15") minutes (record { start = 0; end = 59; extrastar = star_bit })
      59 15 refl refl (omega arith) (omega arith) (omega arith) (omega arith) (omega arith)

get_range_step_zero_example : get_range 1000 (codes "*/0") minutes ≡ fuel_out
unfolding program
get_range_step_zero_example =
    get_range_step_zero 1000 (codes "*/0") minutes
      (record { start = 0; end = 59; extrastar = star_bit }) 59 refl refl (omega arith)
      (omega arith) (omega arith) (omega arith)
