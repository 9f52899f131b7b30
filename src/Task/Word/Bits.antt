-- ===== src/Task/Word/Bits.antt =====
-- What `getBits` of task/task.go sets, and that it ends.
use mathlib.Core.Path.{fun_ext}
use native.Mathlib.Decide.{ℕ_discrete, dec_le}
use native.Mathlib.Nat.{mod-eq-sub-mod, mod-eq_of_lt}
use beego.Common.{
  ℕ, zero, suc, ◌+◌, ◌-◌, ◌%◌, ◌≤◌, ◌<◌, ◌≡◌, refl, sym, ap, ◌∙◌, Bool, true, false, ◌&&◌, ◌||◌,
  leb, ◌==◌, ◌⊎◌, inl, inr, arith, Bool-cases,
}
use beego.Common.Outcome.{ok, fuel_out, ok-injective}
use beego.Task.Word.{
  Word, word_or, word_and, word_not, ones_shl, one_shl, zero_word, nonzero, any_below, bits_loop,
  get_bits, uint_mod,
}

-- The positions that the loop of `getBits` visits.
abbrev pub on_step : ℕ → ℕ → ℕ → ℕ → Bool
on_step min max step j = leb min j && leb j max && ((j - min) % step == 0)

on_step_past : (i max step j : ℕ) → max < i → on_step i max step j ≡ false
on_step_past i max step j h = ground arith

on_step_skip :
    (i max step j : ℕ)
    → 0 < step
    → i ≤ max
    → ((j == i) || on_step (i + step) max step j) ≡ on_step i max step j
on_step_skip i max step j h k =
    grind (arith, λ (p : step ≤ j - i). mod-eq-sub-mod p, λ (p : j - i < step). mod-eq_of_lt p)

bits_loop_more :
    (fuel i max step : ℕ) (bits : Word)
    → i ≤ max
    → i + step < uint_mod
    → bits_loop (suc fuel) i max step bits
      ≡ bits_loop fuel (i + step) max step (word_or bits (one_shl i))
unfolding bits_loop
bits_loop_more fuel i max step bits h k =
    let e : (i + step) % uint_mod ≡ i + step = omega arith in
    let more : leb i max ≡ true = ground arith in rw (more, e)

bits_loop_done :
    (fuel i max step : ℕ) (bits : Word) → max < i → bits_loop (suc fuel) i max step bits ≡ ok bits
unfolding bits_loop
bits_loop_done fuel i max step bits h = let past : leb i max ≡ false = ground arith in rw past

-- The loop adds the positions of its step, and ends when it has fuel for the rest of the range.
bits_loop_lem :
    (fuel i max step : ℕ) (bits : Word)
    → 0 < step
    → max < 64
    → i < 9_223_372_036_854_775_872
    → step < 9_223_372_036_854_775_808
    → max < i + fuel
    → (w : Word) × (bits_loop (suc fuel) i max step bits ≡ ok w)
      × ((j : ℕ) → w j ≡ (bits j || on_step i max step j))
bits_loop_lem zero i max step bits h k l m e = (
  bits,
  bits_loop_done zero i max step bits (omega arith),
  λ j. ground (arith, on_step_past i max step j),
)
bits_loop_lem (suc fuel) i max step bits h k l m e = elim (dec_le i max) [
  | no past ↦ (
    bits,
    bits_loop_done (suc fuel) i max step bits (omega arith),
    λ j. ground (arith, on_step_past i max step j),
  )
  | yes more ↦
      let (w, runs, meaning) =
        bits_loop_lem fuel (i + step) max step (word_or bits (one_shl i)) h k (omega arith) m
          (omega arith) in
      (
        w,
        bits_loop_more (suc fuel) i max step bits more (omega arith) ∙ runs,
        λ j. ground (arith, meaning j, on_step_skip i max step j h more),
      )
]

step_one : (min max j : ℕ) → on_step min max 1 j ≡ (leb min j && leb j max)
step_one min max j = ground arith

-- For a range that ends below bit 64 and a step from 1 to 2 ^ 63 - 1, `getBits` ends, and sets exactly
-- the bits of the range at a multiple of the step from its start.
pub get_bits_lem :
    (min max step : ℕ)
    → 0 < step
    → step < 9_223_372_036_854_775_808
    → max < 64
    → min < 64
    → (w : Word) × (get_bits 66 min max step ≡ ok w)
      × ((j : ℕ) → w j ≡ (leb min j && leb j max && ((j - min) % step == 0)))
unfolding get_bits
get_bits_lem min max step h k l m = elim (ℕ_discrete step 1) [
  | yes one ↦
      (word_and (word_not (ones_shl (max + 1))) (ones_shl min), ground arith, λ j. ground arith)
  | no other ↦
      let (w, runs, meaning) =
        bits_loop_lem 65 min max step zero_word h l (omega arith) k (omega arith) in
      (w, ground (arith, runs), meaning)
]

bits_loop_stuck :
    (fuel min max : ℕ) (bits : Word)
    → min ≤ max
    → max < 64
    → bits_loop fuel min max 0 bits ≡ fuel_out
unfolding bits_loop
bits_loop_stuck zero min max bits h k = refl
bits_loop_stuck (suc fuel) min max bits h k =
    let e : (min + 0) % uint_mod ≡ min = omega arith in
    let more : leb min max ≡ true = ground arith in
    rw (more, e) (bits_loop_stuck fuel min max (word_or bits (one_shl min)) h k)

-- With the step 0 the loop of `getBits` never ends: no fuel is enough, whatever the range.
pub get_bits_step_zero :
    (fuel min max : ℕ) → min ≤ max → max < 64 → get_bits fuel min max 0 ≡ fuel_out
unfolding get_bits
get_bits_step_zero fuel min max h k = bits_loop_stuck fuel min max zero_word h k

any_below_lem : (n : ℕ) (w : Word) (i : ℕ) → i < n → w i ≡ true → any_below n w ≡ true
unfolding any_below
any_below_lem zero w i h k = elim h [ ]
any_below_lem (suc n) w i h k = elim (ℕ_discrete i n) [
  | yes e ↦ let here : w n ≡ true = rw (← e) k in rw here
  | no e ↦ rw (any_below_lem n w i (omega arith) k) (or-true (w n))
]
  where
    or-true : (b : Bool) → (b || true) ≡ true
    or-true true = refl
    or-true false = refl

any_below_none : (n : ℕ) (w : Word) → ((i : ℕ) → w i ≡ false) → any_below n w ≡ false
unfolding any_below
any_below_none zero w h = refl
any_below_none (suc n) w h = rw (h n) (any_below_none n w h)

-- `1 << i & w` is not 0 exactly when bit `i` of `w` is set.
pub nonzero-and_shl : (i : ℕ) (w : Word) → i < 64 → nonzero (word_and (one_shl i) w) ≡ w i
unfolding nonzero
nonzero-and_shl i w h = elim (Bool-cases (w i)) [
  | inl set ↦ any_below_lem 64 (word_and (one_shl i) w) i h (ground arith) ∙ sym set
  | inr clear ↦
      any_below_none 64 (word_and (one_shl i) w)
        (λ j. elim (ℕ_discrete j i) [ yes e ↦ rw (e, clear) (ground arith) | no e ↦ ground arith ])
      ∙ sym clear
]

-- `w & (1 << i)`, with the operands the other way round.
pub nonzero-and_shl_right : (i : ℕ) (w : Word) → i < 64 → nonzero (word_and w (one_shl i)) ≡ w i
nonzero-and_shl_right i w h = ap nonzero (fun_ext λ j. flip (w j) (j == i)) ∙ nonzero-and_shl i w h
  where
    flip : (a b : Bool) → (a && b) ≡ (b && a)
    flip true true = refl
    flip true false = refl
    flip false true = refl
    flip false false = refl

bits_loop_none : (i max step : ℕ) (bits w : Word) → ¬ (bits_loop zero i max step bits ≡ ok w)
unfolding bits_loop
bits_loop_none i max step bits w e = cc

bits_loop-within :
    (fuel i max step : ℕ) (bits w : Word) (j : ℕ)
    → max < 64
    → step < 9_223_372_036_854_775_808
    → bits_loop fuel i max step bits ≡ ok w
    → w j ≡ true
    → (bits j ≡ true) ⊎ ((i ≤ j) × (j ≤ max))
bits_loop-within zero i max step bits w j h k e set = absurd (bits_loop_none i max step bits w e)
bits_loop-within (suc fuel) i max step bits w j h k e set = elim (dec_le i max) [
  | no past ↦
      let same : bits ≡ w =
        ok-injective (sym (bits_loop_done fuel i max step bits (omega arith)) ∙ e) in
      inl (ap (λ (v : Word). v j) same ∙ set)
  | yes more ↦
      let next = sym (bits_loop_more fuel i max step bits more (omega arith)) ∙ e in
      ground (
        arith,
        bits_loop-within fuel (i + step) max step (word_or bits (one_shl i)) w j h k next set,
      )
]

-- Whatever the step and the fuel, `getBits` sets no bit outside its range.
pub get_bits-within :
    (fuel min max step : ℕ) (w : Word) (j : ℕ)
    → max < 64
    → step < 9_223_372_036_854_775_808
    → get_bits fuel min max step ≡ ok w
    → w j ≡ true
    → (min ≤ j) × (j ≤ max)
unfolding get_bits
get_bits-within fuel min max step w j h k e set = elim (ℕ_discrete step 1) [
  | yes one ↦
      let same : word_and (word_not (ones_shl (max + 1))) (ones_shl min) ≡ w =
        ok-injective (rw one at e) in
      let on : word_and (word_not (ones_shl (max + 1))) (ones_shl min) j ≡ true =
        ap (λ (v : Word). v j) same ∙ set in
      ground arith
  | no other ↦
      let slow : (step == 1) ≡ false = ground arith in
      let runs : bits_loop fuel min max step zero_word ≡ ok w = rw slow at e in
      ground (arith, bits_loop-within fuel min max step zero_word w j h k runs set)
]
