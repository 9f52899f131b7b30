-- ===== src/Cache/Counter.antt =====
-- client/cache/calc_utils.go: `incr` and `decr` on the values that a cache holds.
pub mod Laws
use beego.Common.{
  ℕ, zero, suc, ◌+◌, ◌-◌, ◌%◌, Bool, true, false, ◌&&◌, ltb, ◌==◌, if◌then◌else◌, Text,
}
use beego.Common.Int.{ℤ, pos, negsuc, ◌+ℤ◌, ◌-ℤ◌, ltb_ℤ}

-- An `interface{}`: one of the six integer types (`int` has 64 bits), or a value of another type.
pub data Value : Type 0 where
  int int32 int64 : ℤ → Value
  uint uint32 uint64 : ℕ → Value
  other : Text → Value

pub data CalcError : Type 0 where
  increment_overflow decrement_overflow not_integer_type : CalcError

pub data CalcResult : Type 0 where
  ok : Value → CalcResult
  err : CalcError → CalcResult

abbrev pub two_31 : ℕ
two_31 = 2_147_483_648

abbrev pub two_32 : ℕ
two_32 = 4_294_967_296

abbrev pub two_63 : ℕ
two_63 = 9_223_372_036_854_775_808

abbrev pub two_64 : ℕ
two_64 = 18_446_744_073_709_551_616

abbrev pub max_int32 : ℤ
max_int32 = pos 2_147_483_647

abbrev pub min_int32 : ℤ
min_int32 = negsuc 2_147_483_647

abbrev pub max_int64 : ℤ
max_int64 = pos 9_223_372_036_854_775_807

abbrev pub min_int64 : ℤ
min_int64 = negsuc 9_223_372_036_854_775_807

abbrev pub eq_ℤ : ℤ → ℤ → Bool
eq_ℤ (pos a) (pos b) = a == b
eq_ℤ (negsuc a) (negsuc b) = a == b
eq_ℤ (pos _) (negsuc _) = false
eq_ℤ (negsuc _) (pos _) = false

-- The sum of two `int`s, which wraps around at 64 bits.
unfoldable pub wrap_64 : ℤ → ℤ
unfolding ◌+ℤ◌ ◌-ℤ◌
wrap_64 z =
    if ltb_ℤ max_int64 z then z -ℤ pos two_64 else if ltb_ℤ z min_int64 then z +ℤ pos two_64 else z

unfoldable pub incr : Value → CalcResult
unfolding wrap_64 ◌+ℤ◌
incr (int val) =
    let tmp = wrap_64 (val +ℤ pos 1) in
    if ltb_ℤ (pos 0) val && ltb_ℤ tmp (pos 0) then err increment_overflow else ok (int tmp)
incr (int32 val) = if eq_ℤ val max_int32 then err increment_overflow else ok (int32 (val +ℤ pos 1))
incr (int64 val) = if eq_ℤ val max_int64 then err increment_overflow else ok (int64 (val +ℤ pos 1))
incr (uint val) =
    let tmp = (val + 1) % two_64 in if ltb tmp val then err increment_overflow else ok (uint tmp)
incr (uint32 val) = if val == 4_294_967_295 then err increment_overflow else ok (uint32 (val + 1))
incr (uint64 val) =
    if val == 18_446_744_073_709_551_615 then err increment_overflow else ok (uint64 (val + 1))
incr (other _) = err not_integer_type

unfoldable pub decr : Value → CalcResult
unfolding wrap_64 ◌-ℤ◌
decr (int val) =
    let tmp = wrap_64 (val -ℤ pos 1) in
    if ltb_ℤ val (pos 0) && ltb_ℤ (pos 0) tmp then err decrement_overflow else ok (int tmp)
decr (int32 val) = if eq_ℤ val min_int32 then err decrement_overflow else ok (int32 (val -ℤ pos 1))
decr (int64 val) = if eq_ℤ val min_int64 then err decrement_overflow else ok (int64 (val -ℤ pos 1))
decr (uint val) = if val == 0 then err decrement_overflow else ok (uint (val - 1))
decr (uint32 val) = if val == 0 then err decrement_overflow else ok (uint32 (val - 1))
decr (uint64 val) = if val == 0 then err decrement_overflow else ok (uint64 (val - 1))
decr (other _) = err not_integer_type
