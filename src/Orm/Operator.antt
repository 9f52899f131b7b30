-- ===== src/Orm/Operator.antt =====
-- client/orm/db.go: the SQL of an operator, `GenerateOperatorSQL`, with the tables of the drivers in db_mysql.go,
-- db_postgres.go, db_sqlite.go and db_oracle.go. An argument is nil, a Boolean, or another value, given
-- by its text under `ToStr`; `getFlatParams` of db_utils.go, which is written with reflection, gives the
-- list of them.
use beego.Common.{
  ◌==◌, Bool, true, false, ◌||◌, if◌then◌else◌, List, [], ◌∷◌, ◌++◌, Option, none, some, Text,
  codes, text_eq, join,
}
use beego.Common.Dict.{Dict, lookup}
use beego.Common.Outcome.{Outcome, ok, panic}

pub data Arg : Type 0 where
  nil : Arg
  flag : Bool → Arg
  value : Text → Arg

pub data ArgFailure : Type 0 where
  at_least_one : ArgFailure
  need_2_args : ArgFailure
  need_1_arg : ArgFailure
  need_bool : ArgFailure

-- `ToStr` of client/orm/utils.go
abbrev pub to_str : Arg → Text
to_str nil = codes "<nil>"
to_str (flag true) = codes "true"
to_str (flag false) = codes "false"
to_str (value s) = s

abbrev pub mysql_operators : Dict Text
mysql_operators =
    (codes "exact", codes "= ?")
    ∷ (codes "iexact", codes "LIKE ?")
    ∷ (codes "strictexact", codes "= BINARY ?")
    ∷ (codes "contains", codes "LIKE BINARY ?")
    ∷ (codes "icontains", codes "LIKE ?")
    ∷ (codes "gt", codes "> ?")
    ∷ (codes "gte", codes ">= ?")
    ∷ (codes "lt", codes "< ?")
    ∷ (codes "lte", codes "<= ?")
    ∷ (codes "eq", codes "= ?")
    ∷ (codes "ne", codes "!= ?")
    ∷ (codes "startswith", codes "LIKE BINARY ?")
    ∷ (codes "endswith", codes "LIKE BINARY ?")
    ∷ (codes "istartswith", codes "LIKE ?")
    ∷ (codes "iendswith", codes "LIKE ?")
    ∷ []

abbrev pub postgres_operators : Dict Text
postgres_operators =
    (codes "exact", codes "= ?")
    ∷ (codes "iexact", codes "= UPPER(?)")
    ∷ (codes "contains", codes "LIKE ?")
    ∷ (codes "icontains", codes "LIKE UPPER(?)")
    ∷ (codes "gt", codes "> ?")
    ∷ (codes "gte", codes ">= ?")
    ∷ (codes "lt", codes "< ?")
    ∷ (codes "lte", codes "<= ?")
    ∷ (codes "eq", codes "= ?")
    ∷ (codes "ne", codes "!= ?")
    ∷ (codes "startswith", codes "LIKE ?")
    ∷ (codes "endswith", codes "LIKE ?")
    ∷ (codes "istartswith", codes "LIKE UPPER(?)")
    ∷ (codes "iendswith", codes "LIKE UPPER(?)")
    ∷ []

abbrev pub sqlite_operators : Dict Text
sqlite_operators =
    (codes "exact", codes "= ?")
    ∷ (codes "iexact", codes "LIKE ? ESCAPE '\\'")
    ∷ (codes "contains", codes "LIKE ? ESCAPE '\\'")
    ∷ (codes "icontains", codes "LIKE ? ESCAPE '\\'")
    ∷ (codes "gt", codes "> ?")
    ∷ (codes "gte", codes ">= ?")
    ∷ (codes "lt", codes "< ?")
    ∷ (codes "lte", codes "<= ?")
    ∷ (codes "eq", codes "= ?")
    ∷ (codes "ne", codes "!= ?")
    ∷ (codes "startswith", codes "LIKE ? ESCAPE '\\'")
    ∷ (codes "endswith", codes "LIKE ? ESCAPE '\\'")
    ∷ (codes "istartswith", codes "LIKE ? ESCAPE '\\'")
    ∷ (codes "iendswith", codes "LIKE ? ESCAPE '\\'")
    ∷ []

abbrev pub oracle_operators : Dict Text
oracle_operators =
    (codes "exact", codes "= ?")
    ∷ (codes "gt", codes "> ?")
    ∷ (codes "gte", codes ">= ?")
    ∷ (codes "lt", codes "< ?")
    ∷ (codes "lte", codes "<= ?")
    ∷ (codes "//iendswith", codes "LIKE ?")
    ∷ []

abbrev pub or_empty : Option Text → Text
or_empty none = []
or_empty (some s) = s

-- `OperatorSQL`, the empty text for an operator that the driver has not.
unfoldable pub operator_sql : Dict Text → Text → Text
operator_sql table operator = or_empty (lookup operator table)

-- `strings.Replace(s, "%", "\\%", -1)`
unfoldable pub escape : Text → Text
escape [] = []
escape (c ∷ s) = let rest = escape s in if c == b'%' then b'\\' ∷ b'%' ∷ rest else c ∷ rest

-- What becomes of the argument of one of the operators on texts.
unfoldable pub pattern_of : Text → Arg → Text
pattern_of operator arg =
    let param = escape (to_str arg) in
    if text_eq operator (codes "contains") || text_eq operator (codes "icontains")
    then codes "%" ++ (param ++ codes "%")
    else if text_eq operator (codes "startswith") || text_eq operator (codes "istartswith")
    then param ++ codes "%"
    else if text_eq operator (codes "endswith") || text_eq operator (codes "iendswith")
    then codes "%" ++ param
    else param

abbrev pub text_operators : List Text
text_operators =
    codes "iexact"
    ∷ codes "contains"
    ∷ codes "icontains"
    ∷ codes "startswith"
    ∷ codes "endswith"
    ∷ codes "istartswith"
    ∷ codes "iendswith"
    ∷ []

unfoldable pub one_of : List Text → Text → Bool
one_of [] s = false
one_of (o ∷ os) s = let rest = one_of os s in if text_eq o s then true else rest

unfoldable pub exact : Arg → List Arg
exact nil = value (codes "IS NULL") ∷ []
exact (flag b) = flag b ∷ []
exact (value s) = value s ∷ []

unfoldable pub is_null : Arg → Outcome ArgFailure (Text × List Arg)
is_null nil = panic need_bool
is_null (flag true) = ok (codes "IS NULL", [])
is_null (flag false) = ok (codes "IS NOT NULL", [])
is_null (value s) = panic need_bool

-- The cases for one argument.
unfoldable pub one_arg : Dict Text → Text → Arg → Outcome ArgFailure (Text × List Arg)
one_arg table operator arg =
    let sql = operator_sql table operator in
    if text_eq operator (codes "exact")
    then ok (sql, exact arg)
    else if one_of text_operators operator
    then ok (sql, value (pattern_of operator arg) ∷ [])
    else if text_eq operator (codes "isnull")
    then is_null arg
    else ok (sql, arg ∷ [])

abbrev pub marks_for : List Arg → List Text
marks_for [] = []
marks_for (a ∷ params) = codes "?" ∷ marks_for params

unfoldable pub between : List Arg → Outcome ArgFailure (Text × List Arg)
between (a ∷ b ∷ []) = ok (codes "BETWEEN ? AND ?", a ∷ b ∷ [])
between params = panic need_2_args

unfoldable pub default : Dict Text → Text → List Arg → Outcome ArgFailure (Text × List Arg)
default table operator (a ∷ []) = one_arg table operator a
default table operator params = panic need_1_arg

-- `GenerateOperatorSQL`, of the params that `getFlatParams` gives.
unfoldable pub generate_operator_sql :
    Dict Text → Text → List Arg → Outcome ArgFailure (Text × List Arg)
generate_operator_sql table operator [] = panic at_least_one
generate_operator_sql table operator (a ∷ rest) =
    if text_eq operator (codes "in")
    then ok (codes "IN (" ++ (join (codes ", ") (marks_for (a ∷ rest)) ++ codes ")"), a ∷ rest)
    else if text_eq operator (codes "between")
    then between (a ∷ rest)
    else default table operator (a ∷ rest)
