-- ===== src/Orm/Cond/Examples.antt =====
-- The theorems on conditions at concrete inputs: `NewCondition().And("a", 1).And("b", 2).And("c", 3)`, whose array
-- has room for a fourth element where `append` doubles the capacity.
use beego.Common.{
  ℕ, zero, suc, ◌*◌, ◌≡◌, refl, sym, true, false, List, [], ◌∷◌, ◌++◌, some, codes, arith, length,
  All,
}
use beego.Common.Dict.{lookup}
use beego.Common.Outcome.{Outcome, ok, panic, fuel_out}
use beego.Orm.Operator.{
  Arg, one_of, value, mysql_operators, postgres_operators, generate_operator_sql,
}
use beego.Orm.Marks.{
  marks, mysql-OneMark, Matches, generate_operator_sql-Matches, generate_operator_sql-missing,
}
use beego.Orm.Cond.Store.{
  Store, plain, Failure, self_as_sub, header, read, elements, array_of, and_expr, and_cond, or_cond,
  new_condition, split_sep, add_value, append, write, add_cond, clone, allocate, new_cond, is_empty,
}
use beego.Orm.Cond.Methods.{IsValid}
use beego.Orm.Cond.Nested.{or_cond_self}
use beego.Orm.Cond.Overwritten.{expression, and_expr-twice}
use beego.Orm.Cond.Older.{Reach, start, fresh, call, and_call, Bounded}
use beego.Orm.Cond.Bounded.{Reach-Bounded}
use beego.Orm.Cond.Where.{Base, Models, cut_operator, get_cond_sql}
use beego.Orm.Cond.Ends.{Ends, Reach-get_cond_sql}
use beego.Orm.Cond.Placeholders.{IsClean, Fine, Gives, Agrees, get_cond_sql-Agree}
use beego.Orm.Cond.Dangling.{followed_by, get_cond_sql-dangling}

abbrev double : ℕ → ℕ
double zero = 1
double (suc n) = 2 * suc n

abbrev one : List ℕ
one = 1 ∷ []

abbrev result : Outcome Failure (Store ℕ × ℕ) → Store ℕ × ℕ
result (ok r) = r
result (panic e) = (record { arrays = []; conds = [] }, 0)
result fuel_out = (record { arrays = []; conds = [] }, 0)

abbrev empty : Store ℕ
empty = record { arrays = []; conds = [] }

abbrev s0 : Store ℕ
s0 = (new_condition empty).0

abbrev s1 : Store ℕ × ℕ
s1 = result (and_expr double s0 0 (codes "a") one)

abbrev s2 : Store ℕ × ℕ
s2 = result (and_expr double s1.0 1 (codes "b") one)

abbrev s3 : Store ℕ × ℕ
s3 = result (and_expr double s2.0 2 (codes "c") one)

s1-Reach : Reach double s1.0
unfolding and_expr new_condition new_cond
s1-Reach = call 0 s1 (fresh start) (omega arith) (and_call (codes "a") one refl)

s2-Reach : Reach double s2.0
unfolding and_expr add_value new_condition new_cond append header read elements array_of write
    allocate
s2-Reach = call 1 s2 s1-Reach (omega arith) (and_call (codes "b") one refl)

s3-Reach : Reach double s3.0
unfolding and_expr add_value new_condition new_cond append header read elements array_of write
    allocate
s3-Reach = call 2 s3 s2-Reach (omega arith) (and_call (codes "c") one refl)

Reach-Bounded_example : IsValid s3.0 × Bounded s3.0
Reach-Bounded_example = Reach-Bounded double s3-Reach

abbrev with_d : Store ℕ × ℕ
with_d = result (and_expr double s3.0 3 (codes "d") one)

abbrev with_e : Store ℕ × ℕ
with_e = result (and_expr double with_d.0 3 (codes "e") one)

and_expr-twice_example :
    (read with_d.0 with_d.1 ≡ read s3.0 3 ++ (expression (codes "d") one ∷ []))
    × (read with_e.0 with_d.1 ≡ read s3.0 3 ++ (expression (codes "e") one ∷ []))
    × (read with_e.0 with_e.1 ≡ read s3.0 3 ++ (expression (codes "e") one ∷ []))
unfolding and_expr add_value new_condition new_cond append header read elements array_of write
    allocate split_sep
and_expr-twice_example =
    and_expr-twice double s3.0 3 (codes "d") (codes "e") one one with_d with_e
      (Reach-Bounded double s3-Reach).0 (omega arith) refl refl refl

abbrev one_place : ℕ
one_place = 1

or_cond_self_example :
    (and_cond double s3.0 3 (some 3) ≡ panic self_as_sub)
    × (r : Store ℕ × ℕ) × (or_cond double s3.0 3 (some 3) ≡ ok r)
    × (read r.0 r.1
        ≡ read s3.0 3 ++ (record plain { cond = some 3; is_cond = true; is_or = true } ∷ []))
unfolding and_expr add_value new_condition new_cond append header read elements array_of write
    allocate split_sep
or_cond_self_example = or_cond_self double s3.0 3 (Reach-Bounded double s3-Reach).0 (omega arith)

abbrev base : Base ℕ
base = record {
  operators_of = mysql_operators;
  table_quote = codes "`";
  left_col = λ fi operator left. left;
}

abbrev models : Models ℕ ℕ ℕ
models = record {
  parse_exprs = λ t exprs. (t, some (codes "T0", 0));
  column = λ fi. codes "name";
  flat_params = λ fi args. ok (value (codes "7") ∷ []);
}

Reach-get_cond_sql_example : Ends (get_cond_sql base models 4 s3.0 0 (some 3) false)
unfolding and_expr add_value new_condition new_cond append header read elements array_of write
    allocate split_sep
Reach-get_cond_sql_example =
    Reach-get_cond_sql base models 0 3 false (λ fi args. tt) s3-Reach (omega arith)

generate_operator_sql-Matches_example :
    Matches (generate_operator_sql mysql_operators (codes "icontains") (value (codes "50%") ∷ []))
unfolding lookup
generate_operator_sql-Matches_example =
    generate_operator_sql-Matches mysql_operators (codes "icontains") (value (codes "50%") ∷ [])
      mysql-OneMark (λ h e. cc)

generate_operator_sql-missing_example :
    (args : List Arg) × (generate_operator_sql postgres_operators
        (codes "nq")
        (value (codes "7") ∷ [])
      ≡ ok ([], args))
    × (length args ≡ 1)
unfolding lookup
generate_operator_sql-missing_example =
    generate_operator_sql-missing postgres_operators (codes "nq") (value (codes "7")) refl refl

base-IsClean : IsClean base models
unfolding marks
base-IsClean = record {
  quote = refl;
  left = λ fi operator s. refl;
  column = λ fi. refl;
  index = λ t t' exprs index fi e. let same : codes "T0" ≡ index = cc in rw (sym same) refl;
  operators = mysql-OneMark;
}

abbrev asked : Store ℕ
asked = record {
  arrays = (expression (codes "a") one ∷ expression (codes "b__gt") one ∷ []) ∷ [];
  conds = record { array = some 0; len = 2 } ∷ [];
}

asked-Fine : (p : ℕ) → All (Fine base models) (read asked p)
unfolding read elements header array_of split_sep cut_operator one_of lookup
asked-Fine zero = (((λ e. cc), λ h e. cc), (((λ e. cc), λ h e. cc), tt))
asked-Fine (suc p) = tt

get_cond_sql-Agree_example :
    Gives (Agrees base models) (get_cond_sql base models 1 asked 0 (some 0) false)
get_cond_sql-Agree_example =
    get_cond_sql-Agree base models 1 asked 0 (some 0) false base-IsClean asked-Fine

-- The store of `s3` with a condition that holds `a = 1`, `b = 2`, `c = 3` and the empty condition.
abbrev s4 : Store ℕ × ℕ
s4 = result (and_cond double s3.0 3 (some 0))

get_cond_sql-dangling_example :
    get_cond_sql base models 2 s4.0 0 (some s4.1) true
    ≡ followed_by base models (codes "AND ") (get_cond_sql base models 2 s4.0 0 (some 3) true)
unfolding and_cond add_cond clone and_expr add_value new_condition new_cond append header read
    elements array_of write allocate split_sep is_empty
get_cond_sql-dangling_example =
    get_cond_sql-dangling base models 0 s4.0 0 3 s4.1 0 (expression (codes "a") one)
      (expression (codes "b") one ∷ expression (codes "c") one ∷ []) refl refl refl
