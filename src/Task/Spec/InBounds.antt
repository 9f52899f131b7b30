-- ===== src/Task/Spec/InBounds.antt =====
-- A schedule that `parse` of task/task.go returns names only times that exist.
use beego.Common.{
  ℕ, ◌≤◌, ◌<◌, ◌≡◌, ap, subst, ◌∙◌, ◌≢◌, Bool, true, false, ◌||◌, List, [], ◌∷◌, arith, ◌==◌,
  if◌then◌else◌, Bool-cases, inl, inr, Text, codes,
}
use beego.Common.Outcome.{Outcome, ok, panic, >>=-eq-ok, ok-injective}
use beego.Task.Word.{Word, one_shl, Failure, Bounds, get_bits, unknown_descriptor}
use beego.Task.Word.Bits.{get_bits-within}
use beego.Task.Spec.{
  Names, Schedule, get_field, parse_six, parse_fields, parse_spec, parse, descriptor, all_bits,
  seconds, minutes, hours, days, months, weeks,
}
use beego.Task.Spec.Ranges.{get_field-within}

-- The bits that a mask may hold besides the star bit.
abbrev pub IsWithin : Bounds Names → Word → Type 0
IsWithin r w = (j : ℕ) → w j ≡ true → j ≢ 63 → (r.min ≤ j) × (j ≤ r.max)

pub record InBounds (s : Schedule) : Type 0 where
  pub second : IsWithin seconds s.second
  pub minute : IsWithin minutes s.minute
  pub hour : IsWithin hours s.hour
  pub day : IsWithin days s.day
  pub month : IsWithin months s.month
  pub week : IsWithin weeks s.week

six-InBounds :
    (fuel : ℕ) (f0 f1 f2 f3 f4 f5 : Text) (s : Schedule)
    → parse_six fuel f0 f1 f2 f3 f4 f5 ≡ ok s
    → InBounds s
unfolding parse_six
six-InBounds fuel f0 f1 f2 f3 f4 f5 s e =
    let (w0, r0, e0) = >>=-eq-ok (get_field fuel f0 seconds) _ e in
    let (w1, r1, e1) = >>=-eq-ok (get_field fuel f1 minutes) _ e0 in
    let (w2, r2, e2) = >>=-eq-ok (get_field fuel f2 hours) _ e1 in
    let (w3, r3, e3) = >>=-eq-ok (get_field fuel f3 days) _ e2 in
    let (w4, r4, e4) = >>=-eq-ok (get_field fuel f4 months) _ e3 in
    let (w5, r5, e5) = >>=-eq-ok (get_field fuel f5 weeks) _ e4 in
    subst InBounds (ok-injective e5) (record {
      second = λ j. get_field-within fuel f0 seconds w0 j (omega arith) r0;
      minute = λ j. get_field-within fuel f1 minutes w1 j (omega arith) r1;
      hour = λ j. get_field-within fuel f2 hours w2 j (omega arith) r2;
      day = λ j. get_field-within fuel f3 days w3 j (omega arith) r3;
      month = λ j. get_field-within fuel f4 months w4 j (omega arith) r4;
      week = λ j. get_field-within fuel f5 weeks w5 j (omega arith) r5;
    })

fields-InBounds :
    (fuel : ℕ) (fields : List Text) (s : Schedule) → parse_fields fuel fields ≡ ok s → InBounds s
unfolding parse_fields
fields-InBounds fuel (f0 ∷ f1 ∷ f2 ∷ f3 ∷ f4 ∷ []) s e =
    six-InBounds fuel f0 f1 f2 f3 f4 (codes "*") s e
fields-InBounds fuel (f0 ∷ f1 ∷ f2 ∷ f3 ∷ f4 ∷ f5 ∷ []) s e =
    six-InBounds fuel f0 f1 f2 f3 f4 f5 s e
fields-InBounds fuel _ s e = cc

-- An outcome that can only succeed with a mask within the bounds.
abbrev Yields : Bounds Names → Outcome Failure Word → Type 0
Yields r m = (w : Word) → m ≡ ok w → IsWithin r w

all_bits-Yields : (r : Bounds Names) → r.max < 63 → Yields r (all_bits r)
unfolding all_bits
all_bits-Yields r h w e j set plain =
    let (bits, got, e1) = >>=-eq-ok (get_bits 0 r.min r.max 1) _ e in
    let on : (bits j || (j == 63)) ≡ true = ap (λ (v : Word). v j) (ok-injective e1) ∙ set in
    get_bits-within 0 r.min r.max 1 bits j (omega arith) (omega arith) got (ground arith)

first-Yields : (r : Bounds Names) → r.min ≤ r.max → Yields r (ok (one_shl r.min))
first-Yields r h w e j set plain =
    let on : (j == r.min) ≡ true = ap (λ (v : Word). v j) (ok-injective e) ∙ set in ground arith

descriptor-InBounds :
    (h d m w : Outcome Failure Word) (s : Schedule)
    → Yields hours h
    → Yields days d
    → Yields months m
    → Yields weeks w
    → descriptor h d m w ≡ ok s
    → InBounds s
unfolding descriptor
descriptor-InBounds h d m w s hh hd hm hw e =
    let (wh, rh, e1) = >>=-eq-ok h _ e in
    let (wd, rd, e2) = >>=-eq-ok d _ e1 in
    let (wm, rm, e3) = >>=-eq-ok m _ e2 in
    let (ww, rw', e4) = >>=-eq-ok w _ e3 in
    subst InBounds (ok-injective e4) (record {
      second = first-Yields seconds (omega arith) _ (λ i. ok (one_shl 0));
      minute = first-Yields minutes (omega arith) _ (λ i. ok (one_shl 0));
      hour = hh wh rh;
      day = hd wd rd;
      month = hm wm rm;
      week = hw ww rw';
    })

branch :
    (b : Bool) {x y : Outcome Failure Schedule} {s : Schedule}
    → (x ≡ ok s → InBounds s)
    → (y ≡ ok s → InBounds s)
    → (if b then x else y) ≡ ok s
    → InBounds s
branch true f g e = f e
branch false f g e = g e

unknown-InBounds : (s : Schedule) → panic unknown_descriptor ≡ ok s → InBounds s
unknown-InBounds s e = cc

spec-InBounds : (spec : Text) (s : Schedule) → parse_spec spec ≡ ok s → InBounds s
unfolding parse_spec
spec-InBounds spec s =
    branch _ (descriptor-InBounds _ _ _ _ s first_hour first_day first_month any_week) (
      branch _ (descriptor-InBounds _ _ _ _ s first_hour first_day any_month any_week) (
        branch _ (descriptor-InBounds _ _ _ _ s first_hour any_day any_month first_week) (
          branch _ (descriptor-InBounds _ _ _ _ s first_hour any_day any_month any_week) (
            branch _ (descriptor-InBounds _ _ _ _ s any_hour any_day any_month any_week)
              (unknown-InBounds s)))))
  where
    first_hour : Yields hours (ok (one_shl 0))
    first_hour = first-Yields hours (omega arith)

    first_day : Yields days (ok (one_shl 1))
    first_day = first-Yields days (omega arith)

    first_month : Yields months (ok (one_shl 1))
    first_month = first-Yields months (omega arith)

    first_week : Yields weeks (ok (one_shl 0))
    first_week = first-Yields weeks (omega arith)

    any_hour : Yields hours (all_bits hours)
    any_hour = all_bits-Yields hours (omega arith)

    any_day : Yields days (all_bits days)
    any_day = all_bits-Yields days (omega arith)

    any_month : Yields months (all_bits months)
    any_month = all_bits-Yields months (omega arith)

    any_week : Yields weeks (all_bits weeks)
    any_week = all_bits-Yields weeks (omega arith)

-- Of whatever expression, a schedule that is returned has in each of its masks, the star bit left out,
-- only the bits from the field's least to its greatest value.
pub parse-InBounds : (fuel : ℕ) (spec : Text) (s : Schedule) → parse fuel spec ≡ ok s → InBounds s
unfolding parse
parse-InBounds fuel [] s e = fields-InBounds fuel _ s e
parse-InBounds fuel (c ∷ spec) s e = elim (Bool-cases (c == b'@')) [
  | inl at ↦ spec-InBounds (c ∷ spec) s (rw at at e)
  | inr other ↦ fields-InBounds fuel _ s (rw other at e)
]
