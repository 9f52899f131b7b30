-- ===== src/Task/Schedule.antt =====
-- `Schedule.Next` of task/task.go. Each of its five loops is `field_loop`; a loop ends through its test,
-- or by the `goto WRAP` of a unit that has wrapped around.
pub mod Units
pub mod Passes
pub mod Levels
pub mod Firing
pub mod Next
mod Tests
use beego.Common.{ℕ, zero, suc, ◌+◌, Bool, true, false, ◌&&◌, ◌||◌, ltb, ◌==◌, if◌then◌else◌}
use beego.Common.Outcome.{Outcome, ok, fuel_out}
use beego.Task.Time.{Time, zero_time, weekday, add_month, add_day, add_hour, add_minute, add_second}
use beego.Task.Word.{word_and, one_shl, star_bit, nonzero, Failure}
use beego.Task.Spec.{Schedule}

-- How a loop of `Next` ends: past it, at the label WRAP, or out of fuel. With it go `t` and `added`.
pub data Flow : Type 0 where
  through wrap : Time → Bool → Flow
  stuck : Flow

-- `for !test(t) { if !added { added = true; t = trunc(t) }; t = inc(t); if wrapped(t) { goto WRAP } }`
unfoldable pub field_loop :
    (Time → Bool) → (Time → Time) → (Time → Time) → (Time → Bool) → ℕ → Time → Bool → Flow
field_loop test trunc inc wrapped zero t added = stuck
field_loop test trunc inc wrapped (suc fuel) t added = elim (test t) [
  | true ↦ through t added
  | false ↦
      let t' = inc (if added then t else trunc t) in
      elim (wrapped t') [
        | true ↦ wrap t' true
        | false ↦ field_loop test trunc inc wrapped fuel t' true
      ]
]

-- `1<<uint(t.Month())&s.Month != 0`, and so on.
unfoldable pub month_ok : Schedule → Time → Bool
month_ok s t = nonzero (word_and (one_shl t.month) s.month)

unfoldable pub hour_ok : Schedule → Time → Bool
hour_ok s t = nonzero (word_and (one_shl t.hour) s.hour)

unfoldable pub minute_ok : Schedule → Time → Bool
minute_ok s t = nonzero (word_and (one_shl t.minute) s.minute)

unfoldable pub second_ok : Schedule → Time → Bool
second_ok s t = nonzero (word_and (one_shl t.second) s.second)

-- `dayMatches`
unfoldable pub day_matches : Schedule → Time → Bool
day_matches s t =
    let dom_match = nonzero (word_and (one_shl t.day) s.day) in
    let dow_match = nonzero (word_and (one_shl (weekday t)) s.week) in
    if nonzero (word_and s.day star_bit) || nonzero (word_and s.week star_bit)
    then dom_match && dow_match
    else dom_match || dow_match

abbrev pub trunc_month : Time → Time
trunc_month t = record t { day = 1; hour = 0; minute = 0; second = 0; nanosecond = 0 }

abbrev pub trunc_day : Time → Time
trunc_day t = record t { hour = 0; minute = 0; second = 0; nanosecond = 0 }

abbrev pub trunc_hour : Time → Time
trunc_hour t = record t { minute = 0; second = 0; nanosecond = 0 }

abbrev pub trunc_minute : Time → Time
trunc_minute t = record t { second = 0; nanosecond = 0 }

abbrev pub trunc_second : Time → Time
trunc_second t = record t { nanosecond = 0 }

-- The fuel of each loop is one more than the number of values of its unit.
unfoldable pub month_loop : Schedule → Time → Bool → Flow
month_loop s = field_loop (month_ok s) trunc_month add_month (λ t. t.month == 1) 13

unfoldable pub day_loop : Schedule → Time → Bool → Flow
day_loop s = field_loop (day_matches s) trunc_day add_day (λ t. t.day == 1) 32

unfoldable pub hour_loop : Schedule → Time → Bool → Flow
hour_loop s = field_loop (hour_ok s) trunc_hour add_hour (λ t. t.hour == 0) 25

unfoldable pub minute_loop : Schedule → Time → Bool → Flow
minute_loop s = field_loop (minute_ok s) trunc_minute add_minute (λ t. t.minute == 0) 61

unfoldable pub second_loop : Schedule → Time → Bool → Flow
second_loop s = field_loop (second_ok s) trunc_second add_second (λ t. t.second == 0) 61

infixl 5 ◌then_loop◌
abbrev pub ◌then_loop◌ : Flow → (Time → Bool → Flow) → Flow
through t added then_loop next = next t added
wrap t added then_loop next = wrap t added
stuck then_loop next = stuck

-- From the label WRAP to the `return t` or the next `goto WRAP`.
unfoldable pub pass : Schedule → Time → Bool → Flow
pass s t added =
    month_loop s t added
    then_loop day_loop s
    then_loop hour_loop s
    then_loop minute_loop s
    then_loop second_loop s

-- `return t`, or what is at the label WRAP.
abbrev pub resume : Flow → (Time → Bool → Outcome Failure Time) → Outcome Failure Time
resume (through t added) at_wrap = ok t
resume (wrap t added) at_wrap = at_wrap t added
resume stuck at_wrap = fuel_out

unfoldable pub next_from : ℕ → ℕ → Schedule → Time → Bool → Outcome Failure Time
next_from zero year_limit s t added = fuel_out
next_from (suc fuel) year_limit s t added =
    if ltb year_limit t.year
    then ok zero_time
    else resume (pass s t added) (next_from fuel year_limit s)

-- The time from which `Next` searches: `t.Add(1*time.Second - time.Duration(t.Nanosecond()))`.
abbrev pub upcoming : Time → Time
upcoming t = add_second (record t { nanosecond = 0 })

unfoldable pub next : ℕ → Schedule → Time → Outcome Failure Time
next fuel s t = next_from fuel ((upcoming t).year + 5) s (upcoming t) false
