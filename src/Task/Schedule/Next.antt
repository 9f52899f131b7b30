-- ===== src/Task/Schedule/Next.antt =====
-- `Schedule.Next` of task/task.go as a whole: it ends, and it returns the first second that fires.
use native.Mathlib.Nat.{le_refl}
use beego.Common.{
  ℕ, zero, suc, ◌+◌, ◌*◌, ◌≤◌, ◌<◌, ◌≡◌, refl, sym, subst, ◌∙◌, Bool, true, false, arith, ltb, ◌⊎◌,
  inl, inr, Bool-cases,
}
use beego.Common.Outcome.{Outcome, ok, panic, fuel_out}
use beego.Task.Time.{Time, IsTime, zero_time, days_in_bounds, minute_rank, second_rank}
use beego.Task.Word.{Failure}
use beego.Task.Spec.{Schedule}
use beego.Task.Schedule.{resume, Flow, through, wrap, stuck, pass, next_from, next, upcoming}
use beego.Task.Schedule.Units.{IsExact, second_step, second_step-IsTime, second_least}
use beego.Task.Schedule.Passes.{Ends, Tidy}
use beego.Task.Schedule.Levels.{Waiting, pass_rule, Found, Over}
use beego.Task.Schedule.Firing.{
  Fires, Reached, Reached-Kept, month_ok-bit, hour_ok-bit, minute_ok-bit, second_ok-bit,
  day_matches-DayFits,
}

-- `r` is the first second after `t` that fires.
pub record IsFirst (s : Schedule) (t r : Time) : Type 0 where
  pub whole : IsExact r
  pub fires : Fires s r
  pub later : second_rank t < second_rank r
  pub least :
      (v : Time)
      → IsTime v
      → Fires s v
      → second_rank t < second_rank v
      → second_rank r ≤ second_rank v

-- No second after `t` fires up to the end of the year `limit`.
abbrev pub NoneUntil : Schedule → Time → ℕ → Type 0
NoneUntil s t limit =
    (v : Time) → IsTime v → Fires s v → second_rank t < second_rank v → limit < v.year

-- The two answers of `Next`.
abbrev pub Answers : Schedule → Time → ℕ → Time → Type 0
Answers s t limit r = ((r ≡ zero_time) × NoneUntil s t limit) ⊎ IsFirst s t r

abbrev Returns : (Time → Type 0) → Outcome Failure Time → Type 0
Returns P (ok r) = P r
Returns P (panic e) = ⊥
Returns P fuel_out = ⊥

Returns-ok :
    (P : Time → Type 0) (m : Outcome Failure Time) → Returns P m → (r : Time) × (m ≡ ok r) × P r
Returns-ok P (ok r) h = (r, refl, h)
Returns-ok P (panic _) h = elim h [ ]
Returns-ok P fuel_out h = elim h [ ]

next_from_far :
    (fuel limit : ℕ) (s : Schedule) (t : Time) (a : Bool)
    → ltb limit t.year ≡ true
    → next_from (suc fuel) limit s t a ≡ ok zero_time
unfolding next_from
next_from_far fuel limit s t a far = rw far

next_from_near :
    (fuel limit : ℕ) (s : Schedule) (t : Time) (a : Bool)
    → ltb limit t.year ≡ false
    → next_from (suc fuel) limit s t a ≡ resume (pass s t a) (next_from fuel limit s)
unfolding next_from
next_from_near fuel limit s t a near = rw near

module _ (s : Schedule) (t : Time) (h : IsTime t) (limit : ℕ) where
  abbrev Here : Time → Type 0
  Here = Reached s (second_rank (upcoming t))

  upcoming-least :
      (v : Time)
      → IsTime v
      → second_rank t < second_rank v
      → second_rank (upcoming t) ≤ second_rank v
  upcoming-least v k l = second_least (record t { nanosecond = 0 }) v (ground arith) k l

  upcoming-later : second_rank t < second_rank (upcoming t)
  upcoming-later = omega (arith, second_step (record t { nanosecond = 0 }))

  past_limit : (u : Time) → IsTime u → Here u → limit < u.year → NoneUntil s t limit
  past_limit u k r far v kv f l =
      let below = r.least v kv f (upcoming-least v kv l) in
      omega (arith, days_in_bounds u.year u.month, days_in_bounds v.year v.month)

  Found-IsFirst :
      (base : ℕ) (r : Time) (a : Bool) → Found s Here (Reached-Kept s _) base r a → IsFirst s t r
  Found-IsFirst base r a p =
      let here = p.0.0.0.0.0 in
      let time = here.whole.time in
      record {
        whole = here.whole;
        fires = record {
          month = sym (month_ok-bit s r time) ∙ p.0.0.0.0.1;
          day = day_matches-DayFits s r time p.0.0.0.1;
          hour = sym (hour_ok-bit s r time) ∙ p.0.0.1;
          minute = sym (minute_ok-bit s r time) ∙ p.0.1;
          second = sym (second_ok-bit s r time) ∙ p.1;
        };
        later = omega (arith, upcoming-later, here.low.after);
        least = λ v k f l. here.low.least v k f (upcoming-least v k l);
      }

  after_pass :
      (base : ℕ) (flow : Flow) (at_wrap : Time → Bool → Outcome Failure Time)
      → Ends (Found s Here (Reached-Kept s _) base) (Over s Here (Reached-Kept s _) base) flow
      → ((u : Time)
          → Over s Here (Reached-Kept s _) base u
          → Returns (Answers s t limit) (at_wrap u true))
      → Returns (Answers s t limit) (resume flow at_wrap)
  after_pass base (through r a) at_wrap e k = inr (Found-IsFirst base r a e)
  after_pass base (wrap u a) at_wrap e k =
      subst (λ b. Returns (Answers s t limit) (at_wrap u b)) (sym e.0) (k u e.1)
  after_pass base stuck at_wrap e k = elim e [ ]

  restart :
      (base : ℕ) (u : Time)
      → Over s Here (Reached-Kept s _) base u
      → Waiting s Here (minute_rank u) u true
  restart base u o = record {
    whole = o.0.whole;
    tidy = o.0.tidy;
    low = o.0.low;
    grown = omega arith;
  }

  near_limit :
      (u : Time) → IsTime u → ltb limit u.year ≡ false → minute_rank u < (limit + 1) * 748_800
  near_limit u k near =
      let le : u.year ≤ limit = ground arith in omega (arith, days_in_bounds u.year u.month)

  next_from-Answers :
      (fuel : ℕ) (u : Time) (a : Bool)
      → Waiting s Here (minute_rank u) u a
      → (limit + 1) * 748_800 ≤ minute_rank u + fuel
      → Returns (Answers s t limit) (next_from (suc fuel) limit s u a)
  next_from-Answers zero u a p enough = elim (Bool-cases (ltb limit u.year)) [
    | inl far ↦
        rw (next_from_far zero limit s u a far)
          (inl (refl, past_limit u p.whole.time p.low (ground arith)))
    | inr near ↦ absurd (omega (arith, near_limit u p.whole.time near))
  ]
  next_from-Answers (suc fuel) u a p enough = elim (Bool-cases (ltb limit u.year)) [
    | inl far ↦
        rw (next_from_far (suc fuel) limit s u a far)
          (inl (refl, past_limit u p.whole.time p.low (ground arith)))
    | inr near ↦ rw (next_from_near (suc fuel) limit s u a near) (
        after_pass (minute_rank u) (pass s u a) (next_from (suc fuel) limit s)
          (pass_rule s Here (Reached-Kept s _) (minute_rank u) u a p)
          (λ v o. next_from-Answers fuel v true (restart (minute_rank u) v o) (omega (arith, o.1))))
  ]

fresh-Tidy : (s : Schedule) (u : Time) → Tidy s u false
fresh-Tidy s u = record { month = inl refl; day = inl refl; hour = inl refl; minute = inl refl }

-- `Next` ends, for every schedule and every time, within 4492801 returns to the label WRAP; what it
-- returns is the first second after its argument at which the schedule fires, or the zero time, and then
-- the schedule fires at no later second of that year and the five after it.
pub next-Answers :
    (fuel : ℕ) (s : Schedule) (t : Time)
    → IsTime t
    → 4_492_801 ≤ fuel
    → (r : Time) × (next fuel s t ≡ ok r) × Answers s t ((upcoming t).year + 5) r
unfolding next
next-Answers zero s t h enough = absurd (omega arith)
next-Answers (suc fuel) s t h enough = Returns-ok (Answers s t ((upcoming t).year + 5)) _ (
    next_from-Answers s t h ((upcoming t).year + 5) fuel (upcoming t) false
      (record {
        whole = ground (
          arith,
          second_step-IsTime (record t { nanosecond = 0 }),
          second_step (record t { nanosecond = 0 }),
        );
        tidy = fresh-Tidy s (upcoming t);
        low = record { after = le_refl _; least = λ v k f l. l };
        grown = le_refl _;
      })
      (omega arith))
