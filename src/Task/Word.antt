-- ===== src/Task/Word.antt =====
-- The 64-bit masks of task/task.go, `getBits` and `all`. A `uint64` is modelled by its bits: the
-- word `w` has bit `j` set when `w j` is true, and only the bits below 64 are the word's.
pub mod Bits
use beego.Common.{
  ℕ, zero, suc, ◌+◌, ◌%◌, Bool, true, false, not, ◌&&◌, ◌||◌, ltb, leb, ◌==◌, if◌then◌else◌,
}
use beego.Common.Outcome.{Outcome, ok, fuel_out, ◌>>=◌}

abbrev pub Word : Type 0
Word = ℕ → Bool

-- 2 ^ 64, the modulus of the arithmetic on `uint`.
abbrev pub uint_mod : ℕ
uint_mod = 18_446_744_073_709_551_616

abbrev pub zero_word : Word
zero_word j = false

abbrev pub word_or : Word → Word → Word
word_or a b j = a j || b j

abbrev pub word_and : Word → Word → Word
word_and a b j = a j && b j

abbrev pub word_not : Word → Word
word_not a j = not (a j)

-- `1 << n`
abbrev pub one_shl : ℕ → Word
one_shl n j = j == n

-- `math.MaxUint64 << n`
abbrev pub ones_shl : ℕ → Word
ones_shl n j = leb n j

-- `1 << 63`
abbrev pub star_bit : Word
star_bit = one_shl 63

any_below : ℕ → Word → Bool
any_below zero w = false
any_below (suc n) w = w n || any_below n w

-- `w > 0`, which for unsigned numbers is `w != 0`.
unfoldable pub nonzero : Word → Bool
unfolding any_below
nonzero w = any_below 64 w

-- What `log.Panicf` is called for.
pub data Failure : Type 0 where
  field_count unknown_descriptor too_many_hyphens too_many_slashes : Failure
  not_a_number negative_number below_minimum above_maximum start_beyond_end : Failure

-- `for i := min; i <= max; i += step { bits |= 1 << i }`
unfoldable pub bits_loop : ℕ → ℕ → ℕ → ℕ → Word → Outcome Failure Word
bits_loop zero i max step bits = fuel_out
bits_loop (suc fuel) i max step bits =
    let rest = bits_loop fuel ((i + step) % uint_mod) max step (word_or bits (one_shl i)) in
    if leb i max then rest else ok bits

-- `getBits`; the fuel is for its loop.
unfoldable pub get_bits : ℕ → ℕ → ℕ → ℕ → Outcome Failure Word
get_bits fuel min max step =
    if step == 1
    then ok (word_and (word_not (ones_shl (max + 1))) (ones_shl min))
    else bits_loop fuel min max step zero_word

pub record Bounds (Names : Type 0) : Type 0 where
  pub min : ℕ
  pub max : ℕ
  pub names : Names
