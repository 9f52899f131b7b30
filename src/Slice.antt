-- ===== src/Slice.antt =====
-- core/utils/slice.go. The elements are of any type with the comparison `eq`, as interface values have `==`; what
-- the functions that draw random numbers do is not modelled.
pub mod Sets
mod Examples
use beego.Common.{
  ℕ, zero, suc, ◌+◌, ◌-◌, ltb, leb, Bool, true, false, ◌||◌, if◌then◌else◌, List, [], ◌∷◌, ◌++◌,
  length, Text, text_eq, map,
}
use beego.Common.Outcome.{Outcome, ok, fuel_out}

unfoldable pub in_slice : Text → List Text → Bool
in_slice v [] = false
in_slice v (vv ∷ sl) = text_eq vv v || in_slice v sl

module _ {A : Type 0} (eq : A → A → Bool) where
  unfoldable pub in_slice_iface : A → List A → Bool
  in_slice_iface v [] = false
  in_slice_iface v (vv ∷ sl) = eq vv v || in_slice_iface v sl

  unfoldable pub slice_diff : List A → List A → List A
  slice_diff [] slice2 = []
  slice_diff (v ∷ slice1) slice2 =
      let rest = slice_diff slice1 slice2 in if in_slice_iface v slice2 then rest else v ∷ rest

  unfoldable pub slice_intersect : List A → List A → List A
  slice_intersect [] slice2 = []
  slice_intersect (v ∷ slice1) slice2 =
      let rest = slice_intersect slice1 slice2 in if in_slice_iface v slice2 then v ∷ rest else rest

  -- The loop of `SliceUnique`, with the slice that it has built.
  unfoldable pub unique_from : List A → List A → List A
  unique_from uniqueslice [] = uniqueslice
  unique_from uniqueslice (v ∷ slice) =
      let known = unique_from uniqueslice slice in
      let added = unique_from (uniqueslice ++ (v ∷ [])) slice in
      if in_slice_iface v uniqueslice then known else added

  unfoldable pub slice_unique : List A → List A
  slice_unique slice = unique_from [] slice

module _ {A : Type 0} where
  unfoldable pub slice_merge : List A → List A → List A
  slice_merge slice1 slice2 = slice1 ++ slice2

  unfoldable pub slice_reduce : {B : Type 0} → List A → (A → B) → List B
  slice_reduce [] a = []
  slice_reduce (v ∷ slice) a = a v ∷ slice_reduce slice a

  unfoldable pub slice_filter : List A → (A → Bool) → List A
  slice_filter [] a = []
  slice_filter (v ∷ slice) a = let rest = slice_filter slice a in if a v then v ∷ rest else rest

  -- The loop of `SlicePad` from `i` on; it compares with the length that the slice has come to.
  unfoldable pub pad_loop : ℕ → ℕ → List A → ℕ → A → Outcome ℕ (List A)
  pad_loop zero i slice size val = fuel_out
  pad_loop (suc fuel) i slice size val =
      let more = pad_loop fuel (suc i) (slice ++ (val ∷ [])) size val in
      if ltb i (size - length slice) then more else ok slice

  unfoldable pub slice_pad : List A → ℕ → A → Outcome ℕ (List A)
  slice_pad slice size val =
      if leb size (length slice) then ok slice else pad_loop (suc size) 0 slice size val
