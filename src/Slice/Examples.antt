-- ===== src/Slice/Examples.antt =====
-- The theorems on slices at concrete inputs.
use beego.Common.{
  ◌+◌, ◌≤◌, ◌≡◌, ◌&&◌, List, [], ◌∷◌, length, arith, Text, codes, text_eq, text_eq_iff,
}
use beego.Common.Outcome.{ok}
use beego.Slice.{in_slice_iface, slice_intersect, slice_pad}
use beego.Slice.Sets.{in_slice-intersect, slice_pad_half}

abbrev fruit : List Text
fruit = codes "fig" ∷ codes "plum" ∷ []

abbrev red : List Text
red = codes "plum" ∷ codes "beet" ∷ []

in_slice-intersect_example :
    in_slice_iface text_eq (codes "plum") (slice_intersect text_eq fruit red)
    ≡ (in_slice_iface text_eq (codes "plum") fruit && in_slice_iface text_eq (codes "plum") red)
in_slice-intersect_example = in_slice-intersect text_eq text_eq_iff (codes "plum") fruit red

slice_pad_half_example :
    (r : List Text) × (slice_pad fruit 10 (codes "") ≡ ok r)
    × (2 + 10 ≤ length r + length r)
    × (length r + length r ≤ 2 + 10 + 1)
slice_pad_half_example = slice_pad_half fruit 10 (codes "") (omega arith)
