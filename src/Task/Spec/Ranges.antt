-- ===== src/Task/Spec/Ranges.antt =====
-- What the ranges of a cron expression mean: `getRange`, `getField` and `parse` of task/task.go.

use beego.Common.{
  codes, text_eq, ap, ℕ, zero, suc, ◌-◌, ◌%◌, ◌≤◌, ◌<◌, ◌≡◌, refl, sym, ◌∙◌, ◌≢◌, Bool, true, false,
  ◌&&◌, ◌||◌, List, [], ◌∷◌, Option, none, some, arith, ltb, leb, ◌==◌, if◌then◌else◌, Bool-cases,
  Option-cases, Text, split, length, ◌⊎◌, inl, inr,
}
use beego.Common.Int.{ℤ, pos, negsuc}
use beego.Common.Outcome.{ok, fuel_out, >>=-eq-ok, ok-injective}
use beego.Task.Word.{Word, word_or, star_bit, zero_word, Bounds, get_bits}
use beego.Task.Word.Bits.{get_bits_lem, get_bits_step_zero, get_bits-within}
use beego.Task.Spec.{
  ends_of, parse_int_or_name, Names, Ends, atoi_unsigned, atoi, natural, must_parse_int, range_ends,
  range_step, check_range, first, rest, get_range, fill_range, or_ranges, get_field, negate_ℕ,
  int_limit, digits_value,
}

negate_ℕ-lt : (k n : ℕ) → negate_ℕ k ≡ pos n → n < int_limit
unfolding negate_ℕ
negate_ℕ-lt zero n h = ground arith
negate_ℕ-lt (suc k) n h = cc

atoi_unsigned-lt :
    (negative : Bool) (s : Text) (n : ℕ) → atoi_unsigned negative s ≡ some (pos n) → n < int_limit
unfolding atoi_unsigned
atoi_unsigned-lt negative [] n h = cc
atoi_unsigned-lt negative (c ∷ s) n h = elim (Option-cases (digits_value 0 (c ∷ s))) [
  | inl bad ↦ let e : none ≡ some (pos n) = rw (bad, atoi_unsigned) at h in cc
  | inr (k, good) ↦ signed negative k (rw (good, atoi_unsigned) at h)
]
  where
    signed :
        (negative : Bool) (k : ℕ)
        → (if negative
            then (if leb k int_limit then some (negate_ℕ k) else none)
            else (if ltb k int_limit then some (pos k) else none))
          ≡ some (pos n)
        → n < int_limit
    signed true k h = ground (arith, negate_ℕ-lt k n)
    signed false k h = ground arith

atoi-lt : (s : Text) (n : ℕ) → atoi s ≡ some (pos n) → n < int_limit
unfolding atoi
atoi-lt [] n h = cc
atoi-lt (c ∷ s) n h = elim (Bool-cases (c == b'-')) [
  | inl minus ↦ atoi_unsigned-lt true s n (rw minus at h)
  | inr other ↦ elim (Bool-cases (c == b'+')) [
    | inl plus ↦ atoi_unsigned-lt false s n (rw (other, plus) at h)
    | inr digit ↦ atoi_unsigned-lt false (c ∷ s) n (rw (other, digit) at h)
  ]
]

natural-lt : (s : Text) (n : ℕ) (i : Option ℤ) → atoi s ≡ i → natural i ≡ ok n → n < int_limit
unfolding natural
natural-lt s n none e h = cc
natural-lt s n (some (negsuc k)) e h = cc
natural-lt s n (some (pos k)) e h = let same : k ≡ n = cc in rw (← same) (atoi-lt s k e)

must_parse_int-lt : (s : Text) (n : ℕ) → must_parse_int s ≡ ok n → n < int_limit
unfolding must_parse_int
must_parse_int-lt s n h = natural-lt s n (atoi s) refl h

check_range-ok :
    (r : Bounds Names) (start end : ℕ) {u : Unit {0}}
    → check_range r start end ≡ ok u
    → (r.min ≤ start) × (end ≤ r.max) × (start ≤ end)
unfolding check_range
check_range-ok r start end h = ground arith

range_step-lt :
    (r : Bounds Names) (single : Bool) (end : ℕ) (parts : List Text) (e s : ℕ)
    → range_step r single end parts ≡ ok (e, s)
    → s < int_limit
unfolding range_step
range_step-lt r single end [] e s h = ground arith
range_step-lt r single end (p ∷ []) e s h =
    let (k, runs, same) = >>=-eq-ok (must_parse_int p) _ h in
    let e : k ≡ s = ground arith in rw (← e) (must_parse_int-lt p k runs)
range_step-lt r single end (_ ∷ _ ∷ _) e s h = cc

ends_of-extrastar :
    (r : Bounds Names) (low : Text) (highs : List Text) (ends : Ends)
    → ends_of r low highs ≡ ok ends
    → ends.extrastar ≡ zero_word
unfolding ends_of
ends_of-extrastar r low [] ends e =
    let (start, _, e1) = >>=-eq-ok (parse_int_or_name low r.names) _ e in
    ap (λ (d : Ends). d.extrastar) (sym (ok-injective e1))
ends_of-extrastar r low (high ∷ []) ends e =
    let (start, _, e1) = >>=-eq-ok (parse_int_or_name low r.names) _ e in
    let (end, _, e2) = >>=-eq-ok (parse_int_or_name high r.names) _ e1 in
    ap (λ (d : Ends). d.extrastar) (sym (ok-injective e2))
ends_of-extrastar r low (_ ∷ _ ∷ _) ends e =
    let (start, _, e1) = >>=-eq-ok (parse_int_or_name low r.names) _ e in cc

-- The star bit is all that a star adds.
range_ends-extrastar :
    (r : Bounds Names) (parts : List Text) (ends : Ends) (j : ℕ)
    → range_ends r parts ≡ ok ends
    → j ≢ 63
    → ends.extrastar j ≡ false
unfolding range_ends
range_ends-extrastar r [] ends j e plain = cc
range_ends-extrastar r (low ∷ highs) ends j e plain =
    elim (Bool-cases (text_eq low (codes "*") || text_eq low (codes "?"))) [
      | inl star ↦
          let same : star_bit ≡ ends.extrastar =
            ap (λ (d : Ends). d.extrastar) (ok-injective (rw star at e)) in
          sym (ap (λ (v : Word). v j) same) ∙ ground arith
      | inr other ↦ ap (λ (v : Word). v j) (ends_of-extrastar r low highs ends (rw other at e))
    ]

-- The part of a range before its step is a star.
abbrev pub is_star : Text → Bool
is_star s = text_eq s (codes "*") || text_eq s (codes "?")

abbrev pub head : List Text → Text
head [] = []
head (s ∷ parts) = s

-- The star bit is what a star adds, and nothing else.
range_ends-star :
    (r : Bounds Names) (parts : List Text) (ends : Ends)
    → range_ends r parts ≡ ok ends
    → (j : ℕ) → ends.extrastar j ≡ (is_star (head parts) && (j == 63))
unfolding range_ends
range_ends-star r [] ends e j = cc
range_ends-star r (low ∷ highs) ends e j = elim (Bool-cases (is_star low)) [
  | inl star ↦
      let same : star_bit ≡ ends.extrastar =
        ap (λ (d : Ends). d.extrastar) (ok-injective (rw star at e)) in
      rw star (sym (ap (λ (v : Word). v j) same) ∙ ground arith)
  | inr other ↦
      rw other (ap (λ (v : Word). v j) (ends_of-extrastar r low highs ends (rw other at e)))
]

fill_range-within :
    (fuel : ℕ) (r : Bounds Names) (ends : Ends) (end step : ℕ) (w : Word) (j : ℕ)
    → r.max < 63
    → step < int_limit
    → ends.extrastar j ≡ false
    → fill_range fuel r ends end step ≡ ok w
    → w j ≡ true
    → (r.min ≤ j) × (j ≤ r.max)
unfolding fill_range
fill_range-within fuel r ends end step w j h k plain e set =
    let (u, checked, e3) = >>=-eq-ok (check_range r ends.start end) _ e in
    let (low, high, order) = check_range-ok r ends.start end checked in
    let (bits, got, e4) = >>=-eq-ok (get_bits fuel ends.start end step) _ e3 in
    let same : word_or bits ends.extrastar ≡ w = ok-injective e4 in
    let on : (bits j || ends.extrastar j) ≡ true = ap (λ (v : Word). v j) same ∙ set in
    ground
      (arith, get_bits-within fuel ends.start end step bits j (omega arith) k got (ground arith))

-- A range that is read has its two ends and its step.
get_range-ok :
    (fuel : ℕ) (expr : Text) (r : Bounds Names) (w : Word)
    → get_range fuel expr r ≡ ok w
    → (ends : Ends) × (es : ℕ × ℕ) × (range_ends r (split b'-' (first (split b'/' expr))) ≡ ok ends)
      × (range_step r
            (length (split b'-' (first (split b'/' expr))) == 1)
            ends.end
            (rest (split b'/' expr))
          ≡ ok es)
      × (fill_range fuel r ends es.0 es.1 ≡ ok w)
unfolding get_range
get_range-ok fuel expr r w e =
    let (ends, read, e1) = >>=-eq-ok (range_ends r (split b'-' (first (split b'/' expr)))) _ e in
    let (es, stepped, e2) =
      >>=-eq-ok
        (range_step r (length (split b'-' (first (split b'/' expr))) == 1) ends.end
          (rest (split b'/' expr)))
        _ e1 in
    (ends, es, read, stepped, e2)

get_range-within :
    (fuel : ℕ) (expr : Text) (r : Bounds Names) (w : Word) (j : ℕ)
    → r.max < 63
    → get_range fuel expr r ≡ ok w
    → w j ≡ true
    → j ≢ 63
    → (r.min ≤ j) × (j ≤ r.max)
get_range-within fuel expr r w j h e set plain =
    let (ends, es, read, stepped, filled) = get_range-ok fuel expr r w e in
    fill_range-within fuel r ends es.0 es.1 w j h (range_step-lt r _ ends.end _ es.0 es.1 stepped)
      (range_ends-extrastar r _ ends j read plain) filled set

or_ranges-within :
    (fuel : ℕ) (r : Bounds Names) (exprs : List Text) (bits w : Word) (j : ℕ)
    → r.max < 63
    → or_ranges fuel r bits exprs ≡ ok w
    → w j ≡ true
    → j ≢ 63
    → (bits j ≡ true) ⊎ ((r.min ≤ j) × (j ≤ r.max))
unfolding or_ranges
or_ranges-within fuel r [] bits w j h e set plain =
    inl (ap (λ (v : Word). v j) (ok-injective e) ∙ set)
or_ranges-within fuel r (expr ∷ exprs) bits w j h e set plain =
    let (v, read, e1) = >>=-eq-ok (get_range fuel expr r) _ e in
    ground (
      arith,
      or_ranges-within fuel r exprs (word_or bits v) w j h e1 set plain,
      get_range-within fuel expr r v j h read,
    )

-- Every bit that a field sets, but the star bit, lies within the bounds of the field.
pub get_field-within :
    (fuel : ℕ) (field : Text) (r : Bounds Names) (w : Word) (j : ℕ)
    → r.max < 63
    → get_field fuel field r ≡ ok w
    → w j ≡ true
    → j ≢ 63
    → (r.min ≤ j) × (j ≤ r.max)
unfolding get_field
get_field-within fuel field r w j h e set plain =
    ground (arith, or_ranges-within fuel r _ zero_word w j h e set plain)

-- The bits that a range adds to its field, once its two ends and its step are read: for a step that is
-- not 0 and ends in order and within the bounds, exactly each step-th position from the start to the
-- end, and the star bit exactly if the part before the step is * or ?.
pub get_range-meaning :
    (expr : Text) (r : Bounds Names) (ends : Ends) (end step : ℕ)
    → range_ends r (split b'-' (first (split b'/' expr))) ≡ ok ends
    → range_step r
        (length (split b'-' (first (split b'/' expr))) == 1)
        ends.end
        (rest (split b'/' expr))
      ≡ ok (end, step)
    → 0 < step
    → r.max < 63
    → r.min ≤ ends.start
    → ends.start ≤ end
    → end ≤ r.max
    → (w : Word) × (get_range 66 expr r ≡ ok w)
      × ((j : ℕ)
          → w j ≡ (
              (leb ends.start j && leb j end && ((j - ends.start) % step == 0))
              || (is_star (head (split b'-' (first (split b'/' expr)))) && (j == 63))))
unfolding get_range fill_range check_range
get_range-meaning expr r ends end step read stepped h k low order high =
    let (bits, got, meaning) =
      get_bits_lem ends.start end step h (range_step-lt r _ ends.end _ end step stepped)
        (omega arith) (omega arith) in
    let a : ltb ends.start r.min ≡ false = ground arith in
    let b : ltb r.max end ≡ false = ground arith in
    let c : ltb end ends.start ≡ false = ground arith in
    (
      word_or bits ends.extrastar,
      rw (read, stepped, a, b, c, got),
      λ j. rw (meaning j, range_ends-star r (split b'-' (first (split b'/' expr))) ends read j),
    )

-- A range whose step reads as the number 0 is never done: whatever the fuel, once its ends are in order
-- and within the bounds, the loop of `getBits` does not end, and no check has refused the step.
pub get_range_step_zero :
    (fuel : ℕ) (expr : Text) (r : Bounds Names) (ends : Ends) (end : ℕ)
    → range_ends r (split b'-' (first (split b'/' expr))) ≡ ok ends
    → range_step r
        (length (split b'-' (first (split b'/' expr))) == 1)
        ends.end
        (rest (split b'/' expr))
      ≡ ok (end, 0)
    → r.max < 63
    → r.min ≤ ends.start
    → ends.start ≤ end
    → end ≤ r.max
    → get_range fuel expr r ≡ fuel_out
unfolding get_range fill_range check_range
get_range_step_zero fuel expr r ends end read stepped k low order high =
    let a : ltb ends.start r.min ≡ false = ground arith in
    let b : ltb r.max end ≡ false = ground arith in
    let c : ltb end ends.start ≡ false = ground arith in
    rw (read, stepped, a, b, c, get_bits_step_zero fuel ends.start end order (omega arith))
