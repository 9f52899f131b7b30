-- ===== src/Cache/Counter/Laws.antt =====
-- `incr` and `decr` of client/cache/calc_utils.go against the integers that they count.
use beego.Common.{◌≡◌, subst, arith, ◌⊎◌, inl, inr}
use beego.Common.Int.{ℤ, pos, negsuc, ◌+ℤ◌, ◌-ℤ◌, ◌≤ℤ◌, pos_part}
use beego.Cache.Counter.{
  Value, int, int32, int64, uint, uint32, uint64, other, ok, err, increment_overflow,
  decrement_overflow, incr, decr, max_int32, min_int32, max_int64, min_int64,
}

-- The integer that a counter holds, and the range of its type.
abbrev pub number : Value → ℤ
number (int v) = v
number (int32 v) = v
number (int64 v) = v
number (uint v) = pos v
number (uint32 v) = pos v
number (uint64 v) = pos v
number (other _) = pos 0

abbrev pub least : Value → ℤ
least (int _) = min_int64
least (int32 _) = min_int32
least (int64 _) = min_int64
least _ = pos 0

abbrev pub greatest : Value → ℤ
greatest (int _) = max_int64
greatest (int32 _) = max_int32
greatest (int64 _) = max_int64
greatest (uint _) = pos 18_446_744_073_709_551_615
greatest (uint32 _) = pos 4_294_967_295
greatest (uint64 _) = pos 18_446_744_073_709_551_615
greatest (other _) = pos 0

-- A value of the same type that holds another number.
abbrev pub with_number : Value → ℤ → Value
with_number (int _) z = int z
with_number (int32 _) z = int32 z
with_number (int64 _) z = int64 z
with_number (uint _) z = uint (pos_part z)
with_number (uint32 _) z = uint32 (pos_part z)
with_number (uint64 _) z = uint64 (pos_part z)
with_number (other s) z = other s

abbrev pub IsCounter : Value → Type 0
IsCounter (other _) = ⊥
IsCounter v = (least v ≤ℤ number v) × (number v ≤ℤ greatest v)

-- On a counter of any of the six types `incr` either adds one, within the type and without wrapping
-- around, or reports an overflow, exactly at the greatest value of the type.
pub incr_lem :
    (v : Value)
    → IsCounter v
    → ((number v ≡ greatest v) × (incr v ≡ err increment_overflow))
      ⊎ ((number v +ℤ pos 1 ≤ℤ greatest v) × (incr v ≡ ok (with_number v (number v +ℤ pos 1))))
unfolding incr
incr_lem (int (pos n)) h = ground arith
incr_lem (int (negsuc n)) h = ground arith
incr_lem (int32 v) h = ground arith
incr_lem (int64 v) h = ground arith
incr_lem (uint v) h = ground arith
incr_lem (uint32 v) h = ground arith
incr_lem (uint64 v) h = ground arith
incr_lem (other s) h = elim h [ ]

-- On a counter of any of the six types `decr` either takes one away, within the type and without
-- wrapping around, or reports an overflow, exactly at the least value of the type.
pub decr_lem :
    (v : Value)
    → IsCounter v
    → ((number v ≡ least v) × (decr v ≡ err decrement_overflow))
      ⊎ ((least v ≤ℤ number v -ℤ pos 1) × (decr v ≡ ok (with_number v (number v -ℤ pos 1))))
unfolding decr
decr_lem (int (pos n)) h = ground arith
decr_lem (int (negsuc n)) h = ground arith
decr_lem (int32 v) h = ground arith
decr_lem (int64 v) h = ground arith
decr_lem (uint v) h = ground arith
decr_lem (uint32 v) h = ground arith
decr_lem (uint64 v) h = ground arith
decr_lem (other s) h = elim h [ ]

decr_next :
    (v : Value)
    → IsCounter v
    → number v +ℤ pos 1 ≤ℤ greatest v
    → decr (with_number v (number v +ℤ pos 1)) ≡ ok v
unfolding decr
decr_next (int (pos n)) h l = ground arith
decr_next (int (negsuc n)) h l = ground arith
decr_next (int32 (pos n)) h l = ground arith
decr_next (int32 (negsuc n)) h l = ground arith
decr_next (int64 (pos n)) h l = ground arith
decr_next (int64 (negsuc n)) h l = ground arith
decr_next (uint v) h l = ground arith
decr_next (uint32 v) h l = ground arith
decr_next (uint64 v) h l = ground arith
decr_next (other s) h l = elim h [ ]

-- Where `incr` succeeds on a counter, `decr` gives the counter back.
decr-incr : (v w : Value) → IsCounter v → incr v ≡ ok w → decr w ≡ ok v
decr-incr v w h e = elim (incr_lem v h) [
  | inl (_, over) ↦ cc
  | inr (fits, added) ↦
      let same : with_number v (number v +ℤ pos 1) ≡ w = cc in
      subst (λ x. decr x ≡ ok v) same (decr_next v h fits)
]
