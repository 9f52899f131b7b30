-- ===== src/Orm/Cond/Ends.antt =====
-- client/orm/db_tables.go: `getCondSQL` ends on the conditions that the methods build.
use beego.Common.{
  ℕ, zero, suc, ◌<◌, Bool, true, false, if◌then◌else◌, List, [], ◌∷◌, Option, none, some, Text,
  arith, length, All, All-map,
}
use beego.Common.Dict.{Dict}
use beego.Common.Outcome.{Outcome, ok, panic, fuel_out, ◌>>=◌}
use beego.Orm.Operator.{
  Arg, ArgFailure, generate_operator_sql, default, between, one_arg, is_null, nil, flag, value,
}
use beego.Orm.Cond.Store.{CondValue, Store, Failure, read, is_empty}
use beego.Orm.Cond.Older.{OlderThan, Below, Bounded, Reach}
use beego.Orm.Cond.Bounded.{later, Reach-Bounded}
use beego.Orm.Cond.Where.{
  Base, Models, or_bad_args, oper_sql, found_sql, leaf_sql, value_sql, values_sql, get_cond_sql,
}

-- The code returns or panics.
abbrev pub Ends {ℓ} : {E : Type 0} {B : Type ℓ} → Outcome E B → Type 0
Ends (ok b) = Unit
Ends (panic e) = Unit
Ends fuel_out = ⊥

>>=-Ends {ℓ κ} :
    {E : Type 0} {B : Type ℓ} {C : Type κ} (first : Outcome E B) (next : B → Outcome E C)
    → Ends first
    → ((b : B) → Ends (next b))
    → Ends (first >>= next)
>>=-Ends (ok b) next h k = k b
>>=-Ends (panic e) next h k = tt
>>=-Ends fuel_out next h k = absurd h

or_bad_args-Ends {ℓ} : {B : Type ℓ} (r : Outcome ArgFailure B) → Ends r → Ends (or_bad_args r)
or_bad_args-Ends (ok b) h = tt
or_bad_args-Ends (panic e) h = tt
or_bad_args-Ends fuel_out h = absurd h

if-Ends {ℓ} :
    {E : Type 0} {B : Type ℓ} (b : Bool) (x y : Outcome E B)
    → Ends x
    → Ends y
    → Ends (if b then x else y)
if-Ends true x y h k = h
if-Ends false x y h k = k

is_null-Ends : (arg : Arg) → Ends (is_null arg)
unfolding is_null
is_null-Ends nil = tt
is_null-Ends (flag true) = tt
is_null-Ends (flag false) = tt
is_null-Ends (value s) = tt

between-Ends : (params : List Arg) → Ends (between params)
unfolding between
between-Ends [] = tt
between-Ends (a ∷ []) = tt
between-Ends (a ∷ b ∷ []) = tt
between-Ends (a ∷ b ∷ c ∷ params) = tt

generate-Ends :
    (table : Dict Text) (operator : Text) (params : List Arg)
    → Ends (generate_operator_sql table operator params)
unfolding generate_operator_sql default one_arg
generate-Ends table operator [] = tt
generate-Ends table operator (a ∷ []) = ground (arith, between-Ends (a ∷ []), is_null-Ends a)
generate-Ends table operator (a ∷ b ∷ rest) = ground (arith, between-Ends (a ∷ b ∷ rest))

module _ {ℓ κ μ} {A : Type ℓ} {F : Type κ} {T : Type μ} (base : Base F)
    (models : Models A F T) where
  abbrev pub FlatEnds : Type (ℓ ⊔ κ)
  FlatEnds = (fi : F) (args : List A) → Ends (models.flat_params fi args)

  oper-Ends :
      (fi : F) (v : CondValue A) (operator : Text)
      → FlatEnds
      → Ends (oper_sql base models fi v operator)
  unfolding oper_sql
  oper-Ends fi v operator flat = if-Ends v.is_raw _ _ tt (
      >>=-Ends (models.flat_params fi v.args) _ (flat fi v.args)
        (λ params. or_bad_args-Ends _ (generate-Ends base.operators_of operator params)))

  found-Ends :
      (v : CondValue A) (operator : Text) (f : T × Option (Text × F))
      → FlatEnds
      → Ends (found_sql base models v operator f)
  unfolding found_sql
  found-Ends v operator (t, none) flat = tt
  found-Ends v operator (t, some (index, fi)) flat =
      >>=-Ends (oper_sql base models fi v operator) _ (oper-Ends fi v operator flat) (λ sql. tt)

  SubEnds : (T → Option ℕ → Outcome Failure (T × (Text × List Arg))) → CondValue A → Type μ
  SubEnds sub v = (t : T) → Ends (sub t v.cond)

  values-Ends :
      (sub : T → Option ℕ → Outcome Failure (T × (Text × List Arg))) (t : T) (first : Bool)
      (vs : List (CondValue A)) (w : Text) (params : List Arg)
      → FlatEnds
      → All (SubEnds sub) vs
      → Ends (values_sql base models sub t first vs w params)
  unfolding values_sql value_sql leaf_sql SubEnds
  values-Ends sub t first [] w params flat h = tt
  values-Ends sub t first (v ∷ vs) w params flat (h, hs) =
      >>=-Ends (value_sql base models sub t v) _
        (if-Ends v.is_cond _ _ (>>=-Ends (sub t v.cond) _ (h t) (λ r. tt)) (found-Ends v _ _ flat))
        (λ r. values-Ends sub r.0 false vs _ _ flat hs)

  pub get_cond_sql-Ends :
      (fuel : ℕ) (m : Store A) (t : T) (cond : Option ℕ) (sub : Bool)
      → FlatEnds
      → Bounded m
      → OlderThan fuel cond
      → Ends (get_cond_sql base models fuel m t cond sub)
  unfolding get_cond_sql SubEnds
  get_cond_sql-Ends fuel m t none sub flat b h = tt
  get_cond_sql-Ends zero m t (some p) sub flat b h = absurd (omega (arith, h))
  get_cond_sql-Ends (suc n) m t (some p) sub flat b h = if-Ends (is_empty m p) _ _ tt (
      >>=-Ends
        (values_sql base models (λ t' c. get_cond_sql base models n m t' c true) t true (read m p)
          [] [])
        _
        (values-Ends (λ t' c. get_cond_sql base models n m t' c true) t true (read m p) [] [] flat
          (All-map (Below p) (SubEnds (λ t' c. get_cond_sql base models n m t' c true)) (read m p)
            (λ v older t'.
              get_cond_sql-Ends n m t' v.cond true flat b (later p n v (omega (arith, h)) older))
            (b p)))
        (λ r. tt))

  -- In a store that the methods of Condition have built, getCondSQL of any of its conditions returns or panics within
  -- as many levels as there are conditions, if `getFlatParams` does.
  pub Reach-get_cond_sql :
      {grow : ℕ → ℕ} {m : Store A} (t : T) (p : ℕ) (sub : Bool)
      → FlatEnds
      → Reach grow m
      → p < length m.conds
      → Ends (get_cond_sql base models (length m.conds) m t (some p) sub)
  Reach-get_cond_sql {grow} {m} t p sub flat reached there =
      get_cond_sql-Ends (length m.conds) m t (some p) sub flat (Reach-Bounded grow reached).1 there
