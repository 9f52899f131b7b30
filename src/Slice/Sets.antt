-- ===== src/Slice/Sets.antt =====
-- core/utils/slice.go: the slices that the functions return.
use beego.Common.{
  ℕ, zero, suc, ◌+◌, ◌-◌, ◌≤◌, ◌<◌, ◌≡◌, refl, ltb, leb, Bool, true, false, not, ◌||◌, ◌&&◌, List,
  [], ◌∷◌, ◌++◌, ◌↔◌, length, length-append, arith, Bool-cases, inl, inr,
}
use beego.Common.Outcome.{ok}
use beego.Slice.{in_slice_iface, slice_diff, slice_intersect, pad_loop, slice_pad}

module _ {A : Type 0} (eq : A → A → Bool) (eq_iff : (a b : A) → (eq a b ≡ true) ↔ (a ≡ b)) where
  in_slice-append :
      (v : A) (xs ys : List A)
      → in_slice_iface eq v (xs ++ ys) ≡ (in_slice_iface eq v xs || in_slice_iface eq v ys)
  unfolding in_slice_iface
  in_slice-append v [] ys = refl
  in_slice-append v (x ∷ xs) ys = ground (arith, in_slice-append v xs ys)

  -- An element is in the difference of two slices exactly if it is in the first and not in the second.
  in_slice-diff :
      (v : A) (xs ys : List A)
      → in_slice_iface eq v (slice_diff eq xs ys)
        ≡ (in_slice_iface eq v xs && not (in_slice_iface eq v ys))
  unfolding in_slice_iface slice_diff
  in_slice-diff v [] ys = refl
  in_slice-diff v (x ∷ xs) ys = ground (arith, in_slice-diff v xs ys, eq_iff x v)

  -- An element is in the intersection of two slices exactly if it is in both.
  pub in_slice-intersect :
      (v : A) (xs ys : List A)
      → in_slice_iface eq v (slice_intersect eq xs ys)
        ≡ (in_slice_iface eq v xs && in_slice_iface eq v ys)
  unfolding in_slice_iface slice_intersect
  in_slice-intersect v [] ys = refl
  in_slice-intersect v (x ∷ xs) ys = ground (arith, in_slice-intersect v xs ys, eq_iff x v)

module _ {A : Type 0} where
  pad_loop_lem :
      (fuel i : ℕ) (slice : List A) (size : ℕ) (val : A)
      → size + 2 ≤ length slice + i + fuel + fuel
      → length slice ≤ size
      → i ≤ suc (size - length slice)
      → (r : List A) × (pad_loop fuel i slice size val ≡ ok r)
        × (length slice + size ≤ length r + length r + i)
        × (length r + length r + i ≤ length slice + size + 1)
  unfolding pad_loop
  pad_loop_lem zero i slice size val enough small h = absurd (omega arith)
  pad_loop_lem (suc fuel) i slice size val enough small h =
      elim (Bool-cases (ltb i (size - length slice))) [
        | inr e ↦
            let stop : size - length slice ≤ i = ground arith in
            rw e (slice, refl, omega arith, omega arith)
        | inl e ↦
            let go : i < size - length slice = ground arith in
            let grown : length (slice ++ (val ∷ [])) ≡ length slice + 1 =
              length-append slice (val ∷ []) in
            let (r, p, low, high) =
              pad_loop_lem fuel (suc i) (slice ++ (val ∷ [])) size val (omega arith) (omega arith)
                (omega arith) in
            rw e (r, p, omega arith, omega arith)
      ]

  -- SlicePad of a slice shorter than `size` ends with a slice half way between its length and `size`.
  pub slice_pad_half :
      (slice : List A) (size : ℕ) (val : A)
      → length slice < size
      → (r : List A) × (slice_pad slice size val ≡ ok r)
        × (length slice + size ≤ length r + length r)
        × (length r + length r ≤ length slice + size + 1)
  unfolding slice_pad
  slice_pad_half slice size val h =
      let short : leb size (length slice) ≡ false = ground arith in
      let (r, p, low, high) =
        pad_loop_lem (suc size) 0 slice size val (omega arith) (omega arith) (omega arith) in
      rw short (r, p, omega arith, omega arith)
