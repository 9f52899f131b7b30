-- ===== src/Task/Schedule/Levels.antt =====
-- One pass of `Next`, from the label WRAP to the next `goto WRAP` or the `return t`: it does not run out of
-- fuel, and it keeps whatever a single round of each loop keeps.
use beego.Common.{ℕ, ◌-◌, ◌≤◌, ◌<◌, ◌≡◌, subst, sym, Bool, true, false, arith, ◌==◌}
use beego.Task.Time.{
  Time, days_in_bounds, add_month, add_day, add_hour, add_minute, add_second, minute_rank,
}
use beego.Task.Spec.{Schedule}
use beego.Task.Schedule.{
  Flow, through, wrap, stuck, month_ok, day_matches, hour_ok, minute_ok, second_ok, trunc_month,
  trunc_day, trunc_hour, trunc_minute, trunc_second, month_loop, day_loop, hour_loop, minute_loop,
  second_loop, pass, ◌then_loop◌,
}
use beego.Task.Schedule.Units.{
  IsExact, month_step, month_step-IsExact, day_step, day_step-IsTime, hour_step, hour_step-IsTime,
  minute_step, minute_step-IsTime, second_step, second_step-IsTime,
}
use beego.Task.Schedule.Passes.{
  Ends, field_loop_rule, month_ok-congr, day_matches-congr, hour_ok-congr, minute_ok-congr, Kept,
  Tidy, month_landing, day_landing, hour_landing, minute_landing, second_landing,
}

-- The state at the label WRAP, `base` being the minute from which the pass began.
pub record Waiting (s : Schedule) (Low : Time → Type 0) (base : ℕ) (t : Time) (a : Bool)
    : Type 0 where
  pub whole : IsExact t
  pub tidy : Tidy s t a
  pub low : Low t
  pub grown : base ≤ minute_rank t

module _ (s : Schedule) (Low : Time → Type 0) (kept : Kept s Low) (base : ℕ) where
  abbrev pub AtDay : Time → Bool → Type 0
  AtDay t a = Waiting s Low base t a × (month_ok s t ≡ true)

  abbrev pub AtHour : Time → Bool → Type 0
  AtHour t a = AtDay t a × (day_matches s t ≡ true)

  abbrev pub AtMinute : Time → Bool → Type 0
  AtMinute t a = AtHour t a × (hour_ok s t ≡ true)

  abbrev pub AtSecond : Time → Bool → Type 0
  AtSecond t a = AtMinute t a × (minute_ok s t ≡ true)

  abbrev pub Found : Time → Bool → Type 0
  Found t a = AtSecond t a × (second_ok s t ≡ true)

  -- After a wrap the search has gone at least to a later minute.
  abbrev pub Over : Time → Type 0
  Over t = Waiting s Low base t true × (base < minute_rank t)

  month_round :
      (t : Time) (a : Bool)
      → Waiting s Low base t a
      → month_ok s t ≡ false
      → IsExact (add_month (trunc_month t))
        × Tidy s (add_month (trunc_month t)) true
        × Low (add_month (trunc_month t))
  month_round t a p fail =
      let time = p.whole.time in
      (
        ground (arith, month_step-IsExact t, month_step t),
        ground (arith, month_step t),
        kept.month t time fail p.low,
      )

  month_stay :
      (t : Time) (a : Bool)
      → Waiting s Low base t a
      → month_ok s t ≡ false
      → ((add_month (trunc_month t)).month == 1) ≡ false
      → Waiting s Low base (add_month (trunc_month t)) true
        × (12 - (add_month (trunc_month t)).month < 12 - t.month)
  month_stay t a p fail more =
      let (whole, tidy, low) = month_round t a p fail in
      let time = p.whole.time in
      let grown = p.grown in
      (
        record {
          whole = whole;
          tidy = tidy;
          low = low;
          grown = ground (arith, month_step t, days_in_bounds t.year t.month);
        },
        ground (arith, month_step t, days_in_bounds t.year t.month),
      )

  month_wraps :
      (t : Time) (a : Bool)
      → Waiting s Low base t a
      → month_ok s t ≡ false
      → ((add_month (trunc_month t)).month == 1) ≡ true
      → Over (add_month (trunc_month t))
  month_wraps t a p fail over =
      let (whole, tidy, low) = month_round t a p fail in
      let time = p.whole.time in
      let grown = p.grown in
      (
        record {
          whole = whole;
          tidy = tidy;
          low = low;
          grown = ground (arith, month_step t, days_in_bounds t.year t.month);
        },
        ground (arith, month_step t, days_in_bounds t.year t.month),
      )

  day_round :
      (t : Time) (a : Bool)
      → AtDay t a
      → day_matches s t ≡ false
      → IsExact (add_day (trunc_day t))
        × Tidy s (add_day (trunc_day t)) true
        × Low (add_day (trunc_day t))
  day_round t a p fail =
      let time = p.0.whole.time in
      (
        ground (arith, day_step-IsTime (trunc_day t), day_step (trunc_day t)),
        ground (arith, day_step (trunc_day t), month_ok-congr s t (add_day (trunc_day t))),
        kept.day t time fail p.0.low,
      )

  day_stay :
      (t : Time) (a : Bool)
      → AtDay t a
      → day_matches s t ≡ false
      → ((add_day (trunc_day t)).day == 1) ≡ false
      → AtDay (add_day (trunc_day t)) true × (31 - (add_day (trunc_day t)).day < 31 - t.day)
  day_stay t a p fail more =
      let (whole, tidy, low) = day_round t a p fail in
      let time = p.0.whole.time in
      let grown = p.0.grown in
      (
        (
          record {
            whole = whole;
            tidy = tidy;
            low = low;
            grown = ground (arith, day_step (trunc_day t), days_in_bounds t.year t.month);
          },
          ground (arith, day_step (trunc_day t), month_ok-congr s t (add_day (trunc_day t))),
        ),
        ground (arith, day_step (trunc_day t), days_in_bounds t.year t.month),
      )

  day_wraps :
      (t : Time) (a : Bool)
      → AtDay t a
      → day_matches s t ≡ false
      → ((add_day (trunc_day t)).day == 1) ≡ true
      → Over (add_day (trunc_day t))
  day_wraps t a p fail over =
      let (whole, tidy, low) = day_round t a p fail in
      let time = p.0.whole.time in
      let grown = p.0.grown in
      (
        record {
          whole = whole;
          tidy = tidy;
          low = low;
          grown = ground (arith, day_step (trunc_day t), days_in_bounds t.year t.month);
        },
        ground (arith, day_step (trunc_day t), days_in_bounds t.year t.month),
      )

  hour_round :
      (t : Time) (a : Bool)
      → AtHour t a
      → hour_ok s t ≡ false
      → IsExact (add_hour (trunc_hour t))
        × Tidy s (add_hour (trunc_hour t)) true
        × Low (add_hour (trunc_hour t))
  hour_round t a p fail =
      let time = p.0.0.whole.time in
      (
        ground (arith, hour_step-IsTime (trunc_hour t), hour_step (trunc_hour t)),
        ground (
          arith,
          hour_step (trunc_hour t),
          month_ok-congr s t (add_hour (trunc_hour t)),
          day_matches-congr s t (add_hour (trunc_hour t)),
        ),
        kept.hour t time fail p.0.0.low,
      )

  hour_stay :
      (t : Time) (a : Bool)
      → AtHour t a
      → hour_ok s t ≡ false
      → ((add_hour (trunc_hour t)).hour == 0) ≡ false
      → AtHour (add_hour (trunc_hour t)) true × (23 - (add_hour (trunc_hour t)).hour < 23 - t.hour)
  hour_stay t a p fail more =
      let (whole, tidy, low) = hour_round t a p fail in
      let time = p.0.0.whole.time in
      let grown = p.0.0.grown in
      (
        (
          (
            record {
              whole = whole;
              tidy = tidy;
              low = low;
              grown = ground (arith, hour_step (trunc_hour t), days_in_bounds t.year t.month);
            },
            ground (arith, hour_step (trunc_hour t), month_ok-congr s t (add_hour (trunc_hour t))),
          ),
          ground (arith, hour_step (trunc_hour t), day_matches-congr s t (add_hour (trunc_hour t))),
        ),
        ground (arith, hour_step (trunc_hour t), days_in_bounds t.year t.month),
      )

  hour_wraps :
      (t : Time) (a : Bool)
      → AtHour t a
      → hour_ok s t ≡ false
      → ((add_hour (trunc_hour t)).hour == 0) ≡ true
      → Over (add_hour (trunc_hour t))
  hour_wraps t a p fail over =
      let (whole, tidy, low) = hour_round t a p fail in
      let time = p.0.0.whole.time in
      let grown = p.0.0.grown in
      (
        record {
          whole = whole;
          tidy = tidy;
          low = low;
          grown = ground (arith, hour_step (trunc_hour t), days_in_bounds t.year t.month);
        },
        ground (arith, hour_step (trunc_hour t), days_in_bounds t.year t.month),
      )

  minute_round :
      (t : Time) (a : Bool)
      → AtMinute t a
      → minute_ok s t ≡ false
      → IsExact (add_minute (trunc_minute t))
        × Tidy s (add_minute (trunc_minute t)) true
        × Low (add_minute (trunc_minute t))
  minute_round t a p fail =
      let time = p.0.0.0.whole.time in
      (
        ground (arith, minute_step-IsTime (trunc_minute t), minute_step (trunc_minute t)),
        ground (
          arith,
          minute_step (trunc_minute t),
          month_ok-congr s t (add_minute (trunc_minute t)),
          day_matches-congr s t (add_minute (trunc_minute t)),
          hour_ok-congr s t (add_minute (trunc_minute t)),
        ),
        kept.minute t time fail p.0.0.0.low,
      )

  minute_stay :
      (t : Time) (a : Bool)
      → AtMinute t a
      → minute_ok s t ≡ false
      → ((add_minute (trunc_minute t)).minute == 0) ≡ false
      → AtMinute (add_minute (trunc_minute t)) true
        × (59 - (add_minute (trunc_minute t)).minute < 59 - t.minute)
  minute_stay t a p fail more =
      let (whole, tidy, low) = minute_round t a p fail in
      let time = p.0.0.0.whole.time in
      let grown = p.0.0.0.grown in
      (
        (
          (
            (
              record {
                whole = whole;
                tidy = tidy;
                low = low;
                grown = ground (arith, minute_step (trunc_minute t), days_in_bounds t.year t.month);
              },
              ground (
                arith,
                minute_step (trunc_minute t),
                month_ok-congr s t (add_minute (trunc_minute t)),
              ),
            ),
            ground (
              arith,
              minute_step (trunc_minute t),
              day_matches-congr s t (add_minute (trunc_minute t)),
            ),
          ),
          ground (
            arith,
            minute_step (trunc_minute t),
            hour_ok-congr s t (add_minute (trunc_minute t)),
          ),
        ),
        ground (arith, minute_step (trunc_minute t), days_in_bounds t.year t.month),
      )

  minute_wraps :
      (t : Time) (a : Bool)
      → AtMinute t a
      → minute_ok s t ≡ false
      → ((add_minute (trunc_minute t)).minute == 0) ≡ true
      → Over (add_minute (trunc_minute t))
  minute_wraps t a p fail over =
      let (whole, tidy, low) = minute_round t a p fail in
      let time = p.0.0.0.whole.time in
      let grown = p.0.0.0.grown in
      (
        record {
          whole = whole;
          tidy = tidy;
          low = low;
          grown = ground (arith, minute_step (trunc_minute t), days_in_bounds t.year t.month);
        },
        ground (arith, minute_step (trunc_minute t), days_in_bounds t.year t.month),
      )

  second_round :
      (t : Time) (a : Bool)
      → AtSecond t a
      → second_ok s t ≡ false
      → IsExact (add_second (trunc_second t))
        × Tidy s (add_second (trunc_second t)) true
        × Low (add_second (trunc_second t))
  second_round t a p fail =
      let time = p.0.0.0.0.whole.time in
      (
        ground (arith, second_step-IsTime (trunc_second t), second_step (trunc_second t)),
        ground (
          arith,
          second_step (trunc_second t),
          month_ok-congr s t (add_second (trunc_second t)),
          day_matches-congr s t (add_second (trunc_second t)),
          hour_ok-congr s t (add_second (trunc_second t)),
          minute_ok-congr s t (add_second (trunc_second t)),
        ),
        kept.second t time fail p.0.0.0.0.low,
      )

  second_stay :
      (t : Time) (a : Bool)
      → AtSecond t a
      → second_ok s t ≡ false
      → ((add_second (trunc_second t)).second == 0) ≡ false
      → AtSecond (add_second (trunc_second t)) true
        × (59 - (add_second (trunc_second t)).second < 59 - t.second)
  second_stay t a p fail more =
      let (whole, tidy, low) = second_round t a p fail in
      let time = p.0.0.0.0.whole.time in
      let grown = p.0.0.0.0.grown in
      (
        (
          (
            (
              (
                record {
                  whole = whole;
                  tidy = tidy;
                  low = low;
                  grown =
                      ground (arith, second_step (trunc_second t), days_in_bounds t.year t.month);
                },
                ground (
                  arith,
                  second_step (trunc_second t),
                  month_ok-congr s t (add_second (trunc_second t)),
                ),
              ),
              ground (
                arith,
                second_step (trunc_second t),
                day_matches-congr s t (add_second (trunc_second t)),
              ),
            ),
            ground (
              arith,
              second_step (trunc_second t),
              hour_ok-congr s t (add_second (trunc_second t)),
            ),
          ),
          ground (
            arith,
            second_step (trunc_second t),
            minute_ok-congr s t (add_second (trunc_second t)),
          ),
        ),
        ground (arith, second_step (trunc_second t), days_in_bounds t.year t.month),
      )

  second_wraps :
      (t : Time) (a : Bool)
      → AtSecond t a
      → second_ok s t ≡ false
      → ((add_second (trunc_second t)).second == 0) ≡ true
      → Over (add_second (trunc_second t))
  second_wraps t a p fail over =
      let (whole, tidy, low) = second_round t a p fail in
      let time = p.0.0.0.0.whole.time in
      let grown = p.0.0.0.0.grown in
      (
        record {
          whole = whole;
          tidy = tidy;
          low = low;
          grown = ground (arith, second_step (trunc_second t), days_in_bounds t.year t.month);
        },
        ground (arith, second_step (trunc_second t), days_in_bounds t.year t.month),
      )

  month_loop_rule :
      (t : Time) (a : Bool) → Waiting s Low base t a → Ends AtDay Over (month_loop s t a)
  unfolding month_loop
  month_loop_rule t a p =
      field_loop_rule (month_ok s) trunc_month add_month (λ t. t.month == 1) (Waiting s Low base)
        Over (λ t. 12 - t.month)
        (λ t a p fail more.
          let landing = month_landing s t a p.whole p.tidy fail in
          subst
            (λ x. Waiting s Low base (add_month x) true × (12 - (add_month x).month < 12 - t.month))
            (sym landing)
            (month_stay t a p fail (subst (λ x. ((add_month x).month == 1) ≡ false) landing more)))
        (λ t a p fail over.
          let landing = month_landing s t a p.whole p.tidy fail in
          subst (λ x. Over (add_month x)) (sym landing)
            (month_wraps t a p fail (subst (λ x. ((add_month x).month == 1) ≡ true) landing over)))
        13 t a p (omega arith)

  day_loop_rule : (t : Time) (a : Bool) → AtDay t a → Ends AtHour Over (day_loop s t a)
  unfolding day_loop
  day_loop_rule t a p =
      field_loop_rule (day_matches s) trunc_day add_day (λ t. t.day == 1) (AtDay) Over
        (λ t. 31 - t.day)
        (λ t a p fail more.
          let landing = day_landing s t a p.0.whole p.0.tidy fail in
          subst (λ x. AtDay (add_day x) true × (31 - (add_day x).day < 31 - t.day)) (sym landing)
            (day_stay t a p fail (subst (λ x. ((add_day x).day == 1) ≡ false) landing more)))
        (λ t a p fail over.
          let landing = day_landing s t a p.0.whole p.0.tidy fail in
          subst (λ x. Over (add_day x)) (sym landing)
            (day_wraps t a p fail (subst (λ x. ((add_day x).day == 1) ≡ true) landing over)))
        32 t a p (omega arith)

  hour_loop_rule : (t : Time) (a : Bool) → AtHour t a → Ends AtMinute Over (hour_loop s t a)
  unfolding hour_loop
  hour_loop_rule t a p =
      field_loop_rule (hour_ok s) trunc_hour add_hour (λ t. t.hour == 0) (AtHour) Over
        (λ t. 23 - t.hour)
        (λ t a p fail more.
          let landing = hour_landing s t a p.0.0.whole p.0.0.tidy fail in
          subst (λ x. AtHour (add_hour x) true × (23 - (add_hour x).hour < 23 - t.hour))
            (sym landing)
            (hour_stay t a p fail (subst (λ x. ((add_hour x).hour == 0) ≡ false) landing more)))
        (λ t a p fail over.
          let landing = hour_landing s t a p.0.0.whole p.0.0.tidy fail in
          subst (λ x. Over (add_hour x)) (sym landing)
            (hour_wraps t a p fail (subst (λ x. ((add_hour x).hour == 0) ≡ true) landing over)))
        25 t a p (omega arith)

  minute_loop_rule : (t : Time) (a : Bool) → AtMinute t a → Ends AtSecond Over (minute_loop s t a)
  unfolding minute_loop
  minute_loop_rule t a p =
      field_loop_rule (minute_ok s) trunc_minute add_minute (λ t. t.minute == 0) (AtMinute) Over
        (λ t. 59 - t.minute)
        (λ t a p fail more.
          let landing = minute_landing s t a p.0.0.0.whole p.0.0.0.tidy fail in
          subst (λ x. AtMinute (add_minute x) true × (59 - (add_minute x).minute < 59 - t.minute))
            (sym landing)
            (minute_stay t a p fail
              (subst (λ x. ((add_minute x).minute == 0) ≡ false) landing more)))
        (λ t a p fail over.
          let landing = minute_landing s t a p.0.0.0.whole p.0.0.0.tidy fail in
          subst (λ x. Over (add_minute x)) (sym landing)
            (minute_wraps t a p fail
              (subst (λ x. ((add_minute x).minute == 0) ≡ true) landing over)))
        61 t a p (omega arith)

  second_loop_rule : (t : Time) (a : Bool) → AtSecond t a → Ends Found Over (second_loop s t a)
  unfolding second_loop
  second_loop_rule t a p =
      field_loop_rule (second_ok s) trunc_second add_second (λ t. t.second == 0) (AtSecond) Over
        (λ t. 59 - t.second)
        (λ t a p fail more.
          let landing = second_landing t a p.0.0.0.0.whole in
          subst (λ x. AtSecond (add_second x) true × (59 - (add_second x).second < 59 - t.second))
            (sym landing)
            (second_stay t a p fail
              (subst (λ x. ((add_second x).second == 0) ≡ false) landing more)))
        (λ t a p fail over.
          let landing = second_landing t a p.0.0.0.0.whole in
          subst (λ x. Over (add_second x)) (sym landing)
            (second_wraps t a p fail
              (subst (λ x. ((add_second x).second == 0) ≡ true) landing over)))
        61 t a p (omega arith)

  then_rule :
      (R R' : Time → Bool → Type 0) (flow : Flow) (loop : Time → Bool → Flow)
      → Ends R Over flow
      → ((t : Time) (a : Bool) → R t a → Ends R' Over (loop t a))
      → Ends R' Over (flow then_loop loop)
  then_rule R R' (through t a) loop e k = k t a e
  then_rule R R' (wrap t a) loop e k = e
  then_rule R R' stuck loop e k = e

  -- A pass ends: at a time that all five tests let through, or at WRAP in a later minute.
  pub pass_rule : (t : Time) (a : Bool) → Waiting s Low base t a → Ends Found Over (pass s t a)
  unfolding pass
  pass_rule t a p =
      then_rule AtSecond Found _ (second_loop s)
        (then_rule AtMinute AtSecond _ (minute_loop s)
          (then_rule AtHour AtMinute _ (hour_loop s)
            (then_rule AtDay AtHour _ (day_loop s) (month_loop_rule t a p) day_loop_rule)
            hour_loop_rule)
          minute_loop_rule)
        second_loop_rule
