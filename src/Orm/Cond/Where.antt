-- ===== src/Orm/Cond/Where.antt =====
-- client/orm/db_tables.go: `getCondSQL`, which follows the conditions that a condition holds. The state `T` of a
-- `dbTables` collects the joins; `parse_exprs` finds the table index and the column of an expression in
-- the registered models, and the `dbBaser` of the driver gives the quote and the SQL of an operator.
use beego.Common.{
  ℕ, zero, suc, Bool, true, false, if◌then◌else◌, List, [], ◌∷◌, ◌++◌, Option, none, some, Text,
  codes,
}
use beego.Common.Outcome.{Outcome, ok, panic, fuel_out, ◌>>=◌}
use beego.Common.Dict.{Dict}
use beego.Orm.Operator.{Arg, ArgFailure, generate_operator_sql, one_of}
use beego.Orm.Cond.Store.{CondValue, Store, Failure, unknown_name, bad_args, read, is_empty}

-- `operators` of client/orm/db.go
abbrev pub operators : List Text
operators =
    codes "exact"
    ∷ codes "iexact"
    ∷ codes "strictexact"
    ∷ codes "contains"
    ∷ codes "icontains"
    ∷ codes "gt"
    ∷ codes "gte"
    ∷ codes "lt"
    ∷ codes "lte"
    ∷ codes "eq"
    ∷ codes "nq"
    ∷ codes "ne"
    ∷ codes "startswith"
    ∷ codes "endswith"
    ∷ codes "istartswith"
    ∷ codes "iendswith"
    ∷ codes "in"
    ∷ codes "between"
    ∷ codes "isnull"
    ∷ []

-- The parts of an expression before its operator, and the operator, empty where the last part is none.
unfoldable pub cut_operator : List Text → List Text × Text
cut_operator [] = ([], [])
cut_operator (part ∷ []) = if one_of operators part then ([], part) else (part ∷ [], [])
cut_operator (part ∷ next ∷ parts) =
    let (before, operator) = cut_operator (next ∷ parts) in (part ∷ before, operator)

-- The dialect of a driver: the table of `OperatorSQL`, `TableQuote` and `GenerateOperatorLeftCol`.
pub record Base {ℓ} (F : Type ℓ) : Type ℓ where
  pub operators_of : Dict Text
  pub table_quote : Text
  pub left_col : F → Text → Text → Text

-- What the registered models say of an expression: the index of its table, with the joins that it adds, the
-- column of a field, and its arguments as `getFlatParams` gives them.
pub record Models {ℓ κ μ} (A : Type ℓ) (F : Type κ) (T : Type μ) : Type (ℓ ⊔ κ ⊔ μ) where
  pub parse_exprs : T → List Text → T × Option (Text × F)
  pub column : F → Text
  pub flat_params : F → List A → Outcome Failure (List Arg)

abbrev pub or_bad_args {ℓ} : {B : Type ℓ} → Outcome ArgFailure B → Outcome Failure B
or_bad_args (ok b) = ok b
or_bad_args (panic e) = panic (bad_args e)
or_bad_args fuel_out = fuel_out

abbrev pub or_exact : Text → Text
or_exact [] = codes "exact"
or_exact (c ∷ s) = c ∷ s

module _ {ℓ κ μ} {A : Type ℓ} {F : Type κ} {T : Type μ} (base : Base F)
    (models : Models A F T) where
  -- The SQL of the arguments of an expression, or the text that `Raw` was given.
  unfoldable pub oper_sql : F → CondValue A → Text → Outcome Failure (Text × List Arg)
  oper_sql fi v operator =
      if v.is_raw
      then ok (v.sql, [])
      else models.flat_params fi v.args >>= λ params.
          or_bad_args (generate_operator_sql base.operators_of operator params)

  -- One expression, with the table index and the field that it was found to name.
  unfoldable pub found_sql :
      CondValue A → Text → T × Option (Text × F) → Outcome Failure (T × (Text × List Arg))
  found_sql v operator (t, none) = panic (unknown_name v.exprs)
  found_sql v operator (t, some (index, fi)) =
      let Q = base.table_quote in
      let left_col =
        base.left_col fi operator (index ++ (codes "." ++ (Q ++ (models.column fi ++ Q)))) in
      oper_sql fi v operator >>= λ sql.
      ok (t, (left_col ++ (codes " " ++ (sql.0 ++ codes " ")), sql.1))

  unfoldable pub leaf_sql : T → CondValue A → Outcome Failure (T × (Text × List Arg))
  leaf_sql t v =
      let cut = cut_operator v.exprs in found_sql v (or_exact cut.1) (models.parse_exprs t cut.0)

  abbrev pub connective : Bool → CondValue A → Text
  connective first v =
      (if first then [] else if v.is_or then codes "OR " else codes "AND ")
      ++ (if v.is_not then codes "NOT " else [])

  abbrev pub in_brackets : Text → Text
  in_brackets [] = []
  in_brackets (c ∷ w) = codes "( " ++ ((c ∷ w) ++ codes ") ")

  -- One round of the loop, given the SQL of a condition that is held.
  unfoldable pub value_sql :
      (T → Option ℕ → Outcome Failure (T × (Text × List Arg)))
      → T
      → CondValue A
      → Outcome Failure (T × (Text × List Arg))
  value_sql sub t v =
      if v.is_cond
      then (sub t v.cond >>= λ r. ok (r.0, (in_brackets r.1.0, r.1.1)))
      else leaf_sql t v

  unfoldable pub values_sql :
      (T → Option ℕ → Outcome Failure (T × (Text × List Arg)))
      → T
      → Bool
      → List (CondValue A)
      → Text
      → List Arg
      → Outcome Failure (T × (Text × List Arg))
  values_sql sub t first [] where_sql params = ok (t, (where_sql, params))
  values_sql sub t first (v ∷ vs) where_sql params = value_sql sub t v >>= λ r.
      values_sql sub r.0 false vs (where_sql ++ (connective first v ++ r.1.0)) (params ++ r.1.1)

  abbrev pub with_where : Bool → Text → Text
  with_where sub [] = []
  with_where true (c ∷ w) = c ∷ w
  with_where false (c ∷ w) = codes "WHERE " ++ (c ∷ w)

  -- `getCondSQL`. A condition may hold others, which the fuel bounds.
  unfoldable pub get_cond_sql :
      ℕ → Store A → T → Option ℕ → Bool → Outcome Failure (T × (Text × List Arg))
  get_cond_sql fuel m t none sub = ok (t, ([], []))
  get_cond_sql zero m t (some p) sub = fuel_out
  get_cond_sql (suc n) m t (some p) sub =
      if is_empty m p
      then ok (t, ([], []))
      else values_sql (λ t' cond. get_cond_sql n m t' cond true) t true (read m p) [] [] >>= λ r.
          ok (r.0, (with_where sub r.1.0, r.1.1))
