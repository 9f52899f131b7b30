-- ===== src/Task/Schedule/Passes.antt =====
-- The loops of `Next`: a rule for one loop, and what holds at the label WRAP and after each loop.
use beego.Common.{
  ℕ, zero, suc, ◌<◌, ◌≡◌, refl, Bool, true, false, arith, ◌⊎◌, inl, inr, Bool-cases, if◌then◌else◌,
}
use beego.Task.Time.{Time, IsTime, add_month, add_day, add_hour, add_minute, add_second}
use beego.Task.Spec.{Schedule}
use beego.Task.Schedule.{
  Flow, through, wrap, stuck, field_loop, month_ok, day_matches, hour_ok, minute_ok, second_ok,
  trunc_month, trunc_day, trunc_hour, trunc_minute, trunc_second, pass,
}
use beego.Task.Schedule.Units.{IsExact}

-- A loop did not run out of fuel; `R` holds where it went through, `Q` where it wrapped.
abbrev pub Ends : (Time → Bool → Type 0) → (Time → Type 0) → Flow → Type 0
Ends R Q (through t a) = R t a
Ends R Q (wrap t a) = (a ≡ true) × Q t
Ends R Q stuck = ⊥

module _ (test : Time → Bool) (trunc inc : Time → Time) (wrapped : Time → Bool)
    (P : Time → Bool → Type 0) (Q : Time → Type 0) (measure : Time → ℕ)
    (keep : (t : Time) (a : Bool)
      → P t a
      → test t ≡ false
      → wrapped (inc (if a then t else trunc t)) ≡ false
      → P (inc (if a then t else trunc t)) true
        × (measure (inc (if a then t else trunc t)) < measure t))
    (leave : (t : Time) (a : Bool)
      → P t a
      → test t ≡ false
      → wrapped (inc (if a then t else trunc t)) ≡ true
      → Q (inc (if a then t else trunc t))) where
  pub field_loop_rule :
      (fuel : ℕ) (t : Time) (a : Bool)
      → P t a
      → measure t < fuel
      → Ends (λ t a. P t a × (test t ≡ true)) Q (field_loop test trunc inc wrapped fuel t a)
  unfolding field_loop
  field_loop_rule zero t a p h = elim h [ ]
  field_loop_rule (suc fuel) t a p h = elim (Bool-cases (test t)) [
    | inl pass ↦ rw (pass, field_loop) (p, pass)
    | inr fail ↦ elim (Bool-cases (wrapped (inc (if a then t else trunc t)))) [
      | inl over ↦ rw (fail, over, field_loop) (refl, leave t a p fail over)
      | inr more ↦
          let (p', less) = keep t a p fail more in
          rw (fail, more, field_loop)
            (field_loop_rule fuel (inc (if a then t else trunc t)) true p' (omega arith))
    ]
  ]

pub month_ok-congr : (s : Schedule) (t u : Time) → u.month ≡ t.month → month_ok s u ≡ month_ok s t
unfolding month_ok
month_ok-congr s t u e = rw e

pub day_matches-congr :
    (s : Schedule) (t u : Time)
    → u.year ≡ t.year
    → u.month ≡ t.month
    → u.day ≡ t.day
    → day_matches s u ≡ day_matches s t
unfolding day_matches
day_matches-congr s t u y m d = rw (y, m, d)

pub hour_ok-congr : (s : Schedule) (t u : Time) → u.hour ≡ t.hour → hour_ok s u ≡ hour_ok s t
unfolding hour_ok
hour_ok-congr s t u e = rw e

pub minute_ok-congr :
    (s : Schedule) (t u : Time) → u.minute ≡ t.minute → minute_ok s u ≡ minute_ok s t
unfolding minute_ok
minute_ok-congr s t u e = rw e

-- What the loops may use of a property of times: a round of a loop whose test fails keeps it.
pub record Kept (s : Schedule) (Low : Time → Type 0) : Type 0 where
  pub month : (t : Time) → IsTime t → month_ok s t ≡ false → Low t → Low (add_month (trunc_month t))
  pub day : (t : Time) → IsTime t → day_matches s t ≡ false → Low t → Low (add_day (trunc_day t))
  pub hour : (t : Time) → IsTime t → hour_ok s t ≡ false → Low t → Low (add_hour (trunc_hour t))
  pub minute :
      (t : Time) → IsTime t → minute_ok s t ≡ false → Low t → Low (add_minute (trunc_minute t))
  pub second :
      (t : Time) → IsTime t → second_ok s t ≡ false → Low t → Low (add_second (trunc_second t))

-- Once a field has been incremented, each unit fits the schedule or all below it is at its start.
pub record Tidy (s : Schedule) (t : Time) (a : Bool) : Type 0 where
  pub month :
      (a ≡ false)
      ⊎ (month_ok s t ≡ true)
      ⊎ ((t.day ≡ 1) × (t.hour ≡ 0) × (t.minute ≡ 0) × (t.second ≡ 0))
  pub day :
      (a ≡ false) ⊎ (day_matches s t ≡ true) ⊎ ((t.hour ≡ 0) × (t.minute ≡ 0) × (t.second ≡ 0))
  pub hour : (a ≡ false) ⊎ (hour_ok s t ≡ true) ⊎ ((t.minute ≡ 0) × (t.second ≡ 0))
  pub minute : (a ≡ false) ⊎ (minute_ok s t ≡ true) ⊎ (t.second ≡ 0)

pub month_landing :
    (s : Schedule) (t : Time) (a : Bool)
    → IsExact t
    → Tidy s t a
    → month_ok s t ≡ false
    → (if a then t else trunc_month t) ≡ trunc_month t
month_landing s t false h k e = refl
month_landing s t true h k e = ground arith

pub day_landing :
    (s : Schedule) (t : Time) (a : Bool)
    → IsExact t
    → Tidy s t a
    → day_matches s t ≡ false
    → (if a then t else trunc_day t) ≡ trunc_day t
day_landing s t false h k e = refl
day_landing s t true h k e = ground arith

pub hour_landing :
    (s : Schedule) (t : Time) (a : Bool)
    → IsExact t
    → Tidy s t a
    → hour_ok s t ≡ false
    → (if a then t else trunc_hour t) ≡ trunc_hour t
hour_landing s t false h k e = refl
hour_landing s t true h k e = ground arith

pub minute_landing :
    (s : Schedule) (t : Time) (a : Bool)
    → IsExact t
    → Tidy s t a
    → minute_ok s t ≡ false
    → (if a then t else trunc_minute t) ≡ trunc_minute t
minute_landing s t false h k e = refl
minute_landing s t true h k e = ground arith

pub second_landing :
    (t : Time) (a : Bool) → IsExact t → (if a then t else trunc_second t) ≡ trunc_second t
second_landing t false h = refl
second_landing t true h = ground arith
