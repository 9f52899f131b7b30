-- ===== src/Sql.antt =====
-- client/orm/qb.go: the interface `QueryBuilder`, and what the two query builders use of the packages
-- `strings` and `strconv`. A builder is the list of its tokens: its String reslices them to no length, and
-- strings do not change, so that the array they stand in is not seen.
pub mod Mysql
pub mod Postgres
pub mod Driver
pub mod Names
pub mod Clauses
mod Examples
use beego.Common.{
  ℕ, zero, suc, ◌+◌, ◌/◌, ◌%◌, ltb, ◌==◌, List, [], ◌∷◌, ◌++◌, if◌then◌else◌, Text, codes,
}
use beego.Common.Int.{ℤ, pos, negsuc}

pub record QueryBuilder : Type 0 where
  pub tokens : List Text

abbrev pub new_query_builder : QueryBuilder
new_query_builder = record { tokens = [] }

-- `strings.Replace(s, c, "", -1)` for a text `c` of one character.
unfoldable pub remove : ℕ → Text → Text
remove c [] = []
remove c (d ∷ s) = let rest = remove c s in if d == c then rest else d ∷ rest

-- The decimal digits of a number before the text `s`.
digits_before : ℕ → ℕ → Text → Text
digits_before zero n s = s
digits_before (suc fuel) n s =
    let more = digits_before fuel (n / 10) ((n % 10 + b'0') ∷ s) in
    if ltb n 10 then (n + b'0') ∷ s else more

-- `strconv.Itoa`: a number has at most as many digits as its successor counts.
unfoldable pub itoa : ℤ → Text
unfolding digits_before
itoa (pos n) = digits_before (suc n) n []
itoa (negsuc n) = b'-' ∷ digits_before (suc (suc n)) (suc n) []

-- The methods of the interface that return the builder, with their arguments.
pub data Call : Type 0 where
  select : List Text → Call
  for_update : Call
  from : List Text → Call
  inner_join left_join right_join on where_cond and or : Text → Call
  in_vals order_by : List Text → Call
  asc desc : Call
  limit offset : ℤ → Call
  group_by : List Text → Call
  having : Text → Call
  update set_kv delete : List Text → Call
  insert_into : Text → List Text → Call
  values : List Text → Call
