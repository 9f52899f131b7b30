-- ===== src/Task/Spec.antt =====
-- The parser of cron expressions of task/task.go: `Task.parse`, `parseSpec`, `getField`, `getRange`,
-- `parseIntOrName`, `mustParseInt`. A panic is an outcome that says which `log.Panicf` was called.
pub mod Ranges
pub mod InBounds
pub mod Tests
use mathlib.Core.List.{foldl}
use beego.Common.{
  ℕ, zero, suc, ◌+◌, ◌-◌, ◌*◌, Bool, true, false, ◌&&◌, ◌||◌, ltb, leb, ◌==◌, if◌then◌else◌, List,
  [], ◌∷◌, Option, none, some, Text, codes, text_eq, split, fields_func, length,
}
use beego.Common.Int.{ℤ, pos, negsuc}
use beego.Common.Outcome.{Outcome, ok, panic, fuel_out, ◌>>=◌}
use beego.Task.Word.{
  Word, word_or, one_shl, star_bit, zero_word, Failure, Bounds, get_bits, field_count,
  unknown_descriptor, too_many_hyphens, too_many_slashes, not_a_number, negative_number,
  below_minimum, above_maximum, start_beyond_end,
}

-- A Go map that may be nil.
abbrev pub Names : Type 0
Names = Option (List (Text × ℕ))

-- `unicode.ToLower` as far as the keys of the name tables, which are ASCII, can tell: two characters
-- outside ASCII have an ASCII lower case.
unfoldable pub to_lower : ℕ → ℕ
to_lower c =
    if leb b'A' c && leb c b'Z'
    then c + 32
    else if c == 0x130
    then b'i'
    else if c == 0x212a
    then b'k'
    else c

map_text : (ℕ → ℕ) → Text → Text
map_text f [] = []
map_text f (c ∷ s) = f c ∷ map_text f s

lookup_name : Text → List (Text × ℕ) → Option ℕ
lookup_name s [] = none
lookup_name s ((k, v) ∷ names) = if text_eq k s then some v else lookup_name s names

-- The digits of `strconv.Atoi`, from the left; `none` at any other character.
digits_value : ℕ → Text → Option ℕ
digits_value acc [] = some acc
digits_value acc (c ∷ s) =
    let rest = digits_value (acc * 10 + (c - b'0')) s in
    if leb b'0' c && leb c b'9' then rest else none

abbrev int_limit : ℕ
int_limit = 9_223_372_036_854_775_808

negate_ℕ : ℕ → ℤ
negate_ℕ zero = pos 0
negate_ℕ (suc n) = negsuc n

-- At least one digit, and a value that an `int` of 64 bits holds.
atoi_unsigned : Bool → Text → Option ℤ
atoi_unsigned negative [] = none
atoi_unsigned negative (c ∷ s) = elim (digits_value 0 (c ∷ s)) [
  | none ↦ none
  | some n ↦
      if negative
      then (if leb n int_limit then some (negate_ℕ n) else none)
      else (if ltb n int_limit then some (pos n) else none)
]

-- `strconv.Atoi`, `none` for its errors.
unfoldable pub atoi : Text → Option ℤ
unfolding digits_value atoi_unsigned negate_ℕ
atoi [] = none
atoi (c ∷ s) =
    if c == b'-'
    then atoi_unsigned true s
    else if c == b'+'
    then atoi_unsigned false s
    else atoi_unsigned false (c ∷ s)

natural : Option ℤ → Outcome Failure ℕ
natural none = panic not_a_number
natural (some (pos n)) = ok n
natural (some (negsuc n)) = panic negative_number

unfoldable pub must_parse_int : Text → Outcome Failure ℕ
unfolding atoi natural
must_parse_int expr = natural (atoi expr)

named : Text → Option ℕ → Outcome Failure ℕ
named expr none = must_parse_int expr
named expr (some n) = ok n

unfoldable pub parse_int_or_name : Text → Names → Outcome Failure ℕ
unfolding must_parse_int named lookup_name map_text to_lower
parse_int_or_name expr none = must_parse_int expr
parse_int_or_name expr (some names) = named expr (lookup_name (map_text to_lower expr) names)

-- What `getRange` knows of the part before the slash: `start`, `end`, `extrastar`.
pub record Ends : Type 0 where
  pub start : ℕ
  pub end : ℕ
  pub extrastar : Word

ends_of : Bounds Names → Text → List Text → Outcome Failure Ends
ends_of r low [] = do
  start ← parse_int_or_name low r.names
  ok (record { start = start; end = start; extrastar = zero_word })
ends_of r low (high ∷ []) = do
  start ← parse_int_or_name low r.names
  end ← parse_int_or_name high r.names
  ok (record { start = start; end = end; extrastar = zero_word })
ends_of r low (_ ∷ _ ∷ _) = do _ ← parse_int_or_name low r.names; panic too_many_hyphens

unfoldable pub range_ends : Bounds Names → List Text → Outcome Failure Ends
unfolding ends_of parse_int_or_name
range_ends r [] = panic not_a_number
range_ends r (low ∷ highs) =
    if text_eq low (codes "*") || text_eq low (codes "?")
    then ok (record { start = r.min; end = r.max; extrastar = star_bit })
    else ends_of r low highs

-- `end` and `step` from the part after the slash; "N/step" means "N-max/step".
unfoldable pub range_step : Bounds Names → Bool → ℕ → List Text → Outcome Failure (ℕ × ℕ)
unfolding must_parse_int
range_step r single_digit end [] = ok (end, 1)
range_step r single_digit end (s ∷ []) = do
  step ← must_parse_int s
  ok (if single_digit then r.max else end, step)
range_step r single_digit end (_ ∷ _ ∷ _) = panic too_many_slashes

unfoldable pub check_range : Bounds Names → ℕ → ℕ → Outcome Failure (Unit {0})
check_range r start end =
    if ltb start r.min
    then panic below_minimum
    else if ltb r.max end
    then panic above_maximum
    else if ltb end start
    then panic start_beyond_end
    else ok tt

abbrev pub first : List Text → Text
first [] = []
first (s ∷ _) = s

abbrev pub rest : List Text → List Text
rest [] = []
rest (_ ∷ l) = l

-- The end of `getRange`: the checks, and the bits.
unfoldable pub fill_range : ℕ → Bounds Names → Ends → ℕ → ℕ → Outcome Failure Word
fill_range fuel r ends end step = do
  _ ← check_range r ends.start end
  bits ← get_bits fuel ends.start end step
  ok (word_or bits ends.extrastar)

unfoldable pub get_range : ℕ → Text → Bounds Names → Outcome Failure Word
get_range fuel expr r = do
  let range_and_step = split b'/' expr
  let low_and_high = split b'-' (first range_and_step)
  ends ← range_ends r low_and_high
  es ← range_step r (length low_and_high == 1) ends.end (rest range_and_step)
  fill_range fuel r ends es.0 es.1

-- The loop of `getField` over the parts between commas.
unfoldable pub or_ranges : ℕ → Bounds Names → Word → List Text → Outcome Failure Word
or_ranges fuel r bits [] = ok bits
or_ranges fuel r bits (expr ∷ exprs) = do
  w ← get_range fuel expr r
  or_ranges fuel r (word_or bits w) exprs

unfoldable pub get_field : ℕ → Text → Bounds Names → Outcome Failure Word
get_field fuel field r = or_ranges fuel r zero_word (fields_func (λ c. c == b',') field)

-- `all`; the loop of `getBits` is not reached with the step 1, so the fuel does not matter.
unfoldable pub all_bits : Bounds Names → Outcome Failure Word
all_bits r = do w ← get_bits 0 r.min r.max 1; ok (word_or w star_bit)

abbrev pub seconds : Bounds Names
seconds = record { min = 0; max = 59; names = none }

abbrev pub minutes : Bounds Names
minutes = record { min = 0; max = 59; names = none }

abbrev pub hours : Bounds Names
hours = record { min = 0; max = 23; names = none }

abbrev pub days : Bounds Names
days = record { min = 1; max = 31; names = none }

abbrev pub months : Bounds Names
months = record {
  min = 1;
  max = 12;
  names = some (
      (codes "jan", 1)
      ∷ (codes "feb", 2)
      ∷ (codes "mar", 3)
      ∷ (codes "apr", 4)
      ∷ (codes "may", 5)
      ∷ (codes "jun", 6)
      ∷ (codes "jul", 7)
      ∷ (codes "aug", 8)
      ∷ (codes "sep", 9)
      ∷ (codes "oct", 10)
      ∷ (codes "nov", 11)
      ∷ (codes "dec", 12)
      ∷ []);
}

abbrev pub weeks : Bounds Names
weeks = record {
  min = 0;
  max = 6;
  names = some (
      (codes "sun", 0)
      ∷ (codes "mon", 1)
      ∷ (codes "tue", 2)
      ∷ (codes "wed", 3)
      ∷ (codes "thu", 4)
      ∷ (codes "fri", 5)
      ∷ (codes "sat", 6)
      ∷ []);
}

pub record Schedule : Type 0 where
  pub second : Word
  pub minute : Word
  pub hour : Word
  pub day : Word
  pub month : Word
  pub week : Word

-- `unicode.IsSpace`
unfoldable pub is_space : ℕ → Bool
is_space c =
    (leb 9 c && leb c 13)
    || c == 0x20
    || c == 0x85
    || c == 0xa0
    || c == 0x1680
    || (leb 0x2000 c && leb c 0x200a)
    || c == 0x2028
    || c == 0x2029
    || c == 0x202f
    || c == 0x205f
    || c == 0x3000

unfoldable pub parse_six : ℕ → Text → Text → Text → Text → Text → Text → Outcome Failure Schedule
parse_six fuel f0 f1 f2 f3 f4 f5 = do
  second ← get_field fuel f0 seconds
  minute ← get_field fuel f1 minutes
  hour ← get_field fuel f2 hours
  day ← get_field fuel f3 days
  month ← get_field fuel f4 months
  week ← get_field fuel f5 weeks
  ok (record {
    second = second;
    minute = minute;
    hour = hour;
    day = day;
    month = month;
    week = week;
  })

-- Five fields are read as if a sixth, "*", stood behind them.
unfoldable pub parse_fields : ℕ → List Text → Outcome Failure Schedule
parse_fields fuel (f0 ∷ f1 ∷ f2 ∷ f3 ∷ f4 ∷ []) = parse_six fuel f0 f1 f2 f3 f4 (codes "*")
parse_fields fuel (f0 ∷ f1 ∷ f2 ∷ f3 ∷ f4 ∷ f5 ∷ []) = parse_six fuel f0 f1 f2 f3 f4 f5
parse_fields fuel _ = panic field_count

-- The schedules of the descriptors; all start with the first second and the first minute.
descriptor :
    Outcome Failure Word
    → Outcome Failure Word
    → Outcome Failure Word
    → Outcome Failure Word
    → Outcome Failure Schedule
descriptor hour day month week = do
  h ← hour
  d ← day
  m ← month
  w ← week
  ok (record {
    second = one_shl seconds.min;
    minute = one_shl minutes.min;
    hour = h;
    day = d;
    month = m;
    week = w;
  })

unfoldable pub parse_spec : Text → Outcome Failure Schedule
unfolding descriptor
parse_spec spec =
    if text_eq spec (codes "@yearly") || text_eq spec (codes "@annually")
    then descriptor (ok (one_shl hours.min)) (ok (one_shl days.min)) (ok (one_shl months.min))
        (all_bits weeks)
    else if text_eq spec (codes "@monthly")
    then descriptor (ok (one_shl hours.min)) (ok (one_shl days.min)) (all_bits months)
        (all_bits weeks)
    else if text_eq spec (codes "@weekly")
    then descriptor (ok (one_shl hours.min)) (all_bits days) (all_bits months)
        (ok (one_shl weeks.min))
    else if text_eq spec (codes "@daily") || text_eq spec (codes "@midnight")
    then descriptor (ok (one_shl hours.min)) (all_bits days) (all_bits months) (all_bits weeks)
    else if text_eq spec (codes "@hourly")
    then descriptor (all_bits hours) (all_bits days) (all_bits months) (all_bits weeks)
    else panic unknown_descriptor

unfoldable pub parse : ℕ → Text → Outcome Failure Schedule
parse fuel [] = parse_fields fuel (fields_func is_space [])
parse fuel (c ∷ s) =
    if c == b'@' then parse_spec (c ∷ s) else parse_fields fuel (fields_func is_space (c ∷ s))
