-- ===== src/Orm/Cond/Placeholders.antt =====
-- client/orm/db_tables.go: the placeholders of the SQL that `getCondSQL` writes, and its arguments.
use beego.Common.{
  ℕ, zero, suc, ◌≡◌, refl, Bool, true, false, if◌then◌else◌, List, [], ◌∷◌, ◌++◌, Option, none,
  some, Text, codes, arith, length, length-append, All,
}
use beego.Common.Outcome.{Outcome, ok, panic, fuel_out, ◌>>=◌}
use beego.Orm.Operator.{Arg, ArgFailure}
use beego.Orm.Marks.{
  marks, marks-append, OneMark, Supported, Matches, generate_operator_sql-Matches,
}
use beego.Orm.Cond.Store.{CondValue, Store, Failure, read, is_empty}
use beego.Orm.Cond.Where.{
  Base, Models, or_bad_args, or_exact, cut_operator, oper_sql, found_sql, leaf_sql, value_sql,
  values_sql, connective, in_brackets, with_where, get_cond_sql,
}

-- Where the code returns, its result is one of these.
abbrev pub Gives {ℓ κ} : {E : Type 0} {B : Type ℓ} → (B → Type κ) → Outcome E B → Type κ
Gives P (ok b) = P b
Gives P (panic e) = Unit
Gives P fuel_out = Unit

>>=-Gives {ℓ κ μ ν} :
    {E : Type 0} {B : Type ℓ} {C : Type κ} (P : B → Type μ) (Q : C → Type ν) (first : Outcome E B)
    (next : B → Outcome E C)
    → Gives P first
    → ((b : B) → P b → Gives Q (next b))
    → Gives Q (first >>= next)
>>=-Gives P Q (ok b) next h k = k b h
>>=-Gives P Q (panic e) next h k = tt
>>=-Gives P Q fuel_out next h k = tt

if-Gives {ℓ κ} :
    {E : Type 0} {B : Type ℓ} (P : B → Type κ) (b : Bool) (x y : Outcome E B)
    → (b ≡ true → Gives P x)
    → (b ≡ false → Gives P y)
    → Gives P (if b then x else y)
if-Gives P true x y h k = h refl
if-Gives P false x y h k = k refl

-- One placeholder for each argument.
abbrev pub Agree : Text × List Arg → Type 0
Agree (sql, args) = marks sql ≡ length args

or_bad_args-Gives :
    (r : Outcome ArgFailure (Text × List Arg)) → Matches r → Gives Agree (or_bad_args r)
or_bad_args-Gives (ok (sql, args)) h = h
or_bad_args-Gives (panic e) h = tt
or_bad_args-Gives fuel_out h = tt

module _ {ℓ κ μ} {A : Type ℓ} {F : Type κ} {T : Type μ} (base : Base F)
    (models : Models A F T) where
  -- No name holds a placeholder, and the driver's operators have one each.
  pub record IsClean : Type (ℓ ⊔ κ ⊔ μ) where
    pub quote : marks base.table_quote ≡ 0
    pub left : (fi : F) (operator s : Text) → marks (base.left_col fi operator s) ≡ marks s
    pub column : (fi : F) → marks (models.column fi) ≡ 0
    pub index :
        (t t' : T) (exprs : List Text) (index : Text) (fi : F)
        → models.parse_exprs t exprs ≡ (t', some (index, fi))
        → marks index ≡ 0
    pub operators : OneMark base.operators_of

  -- The operator is one of the driver's, and a text given to `Raw` has no placeholder.
  abbrev pub Fine : CondValue A → Type 0
  Fine v =
      (v.is_raw ≡ true → marks v.sql ≡ 0)
      × Supported base.operators_of (or_exact (cut_operator v.exprs).1)

  oper-Agree :
      (fi : F) (v : CondValue A)
      → IsClean
      → Fine v
      → Gives Agree (oper_sql base models fi v (or_exact (cut_operator v.exprs).1))
  unfolding oper_sql
  oper-Agree fi v clean (raw, has) =
      if-Gives Agree v.is_raw _ _ (λ e. raw e)
        (λ e.
          >>=-Gives (λ params. Unit {0}) Agree (models.flat_params fi v.args) _
            (any (models.flat_params fi v.args))
            (λ params h.
              or_bad_args-Gives _
                (generate_operator_sql-Matches base.operators_of _ params clean.operators has)))
    where
      any : (r : Outcome Failure (List Arg)) → Gives (λ params. Unit {0}) r
      any (ok params) = tt
      any (panic e) = tt
      any fuel_out = tt

  abbrev pub Agrees : T × (Text × List Arg) → Type 0
  Agrees r = Agree r.1

  found-Agree :
      (t : T) (v : CondValue A) (f : T × Option (Text × F))
      → IsClean
      → Fine v
      → models.parse_exprs t (cut_operator v.exprs).0 ≡ f
      → Gives Agrees (found_sql base models v (or_exact (cut_operator v.exprs).1) f)
  unfolding found_sql marks
  found-Agree t v (t', none) clean fine e = tt
  found-Agree t v (t', some (index, fi)) clean fine e =
      >>=-Gives Agree Agrees (oper_sql base models fi v _) _ (oper-Agree fi v clean fine)
        (λ sql h. total index fi sql h (clean.index t t' _ index fi e))
    where
      total :
          (index : Text) (fi : F) (sql : Text × List Arg)
          → Agree sql
          → marks index ≡ 0
          → marks (
              base.left_col fi (or_exact (cut_operator v.exprs).1) (
                index
                ++ (codes "." ++ (base.table_quote ++ (models.column fi ++ base.table_quote))))
              ++ (codes " " ++ (sql.0 ++ codes " ")))
            ≡ length sql.1
      total index fi sql h free =
          let Q = base.table_quote in
          let col = models.column fi in
          let name = index ++ (codes "." ++ (Q ++ (col ++ Q))) in
          omega (
            arith,
            marks-append (base.left_col fi (or_exact (cut_operator v.exprs).1) name)
                (codes " " ++ (sql.0 ++ codes " ")),
            marks-append sql.0 (codes " "),
            clean.left fi (or_exact (cut_operator v.exprs).1) name,
            marks-append index (codes "." ++ (Q ++ (col ++ Q))),
            marks-append Q (col ++ Q),
            marks-append col Q,
            clean.quote,
            clean.column fi,
            h,
            free,
          )

  SubAgree : (T → Option ℕ → Outcome Failure (T × (Text × List Arg))) → CondValue A → Type μ
  SubAgree sub v = (t : T) → Gives Agrees (sub t v.cond)

  connective-marks : (first : Bool) (v : CondValue A) → marks (connective base models first v) ≡ 0
  unfolding marks
  connective-marks first v = any v.is_or v.is_not first
    where
      any :
          (is_or is_not first : Bool)
          → marks (
              (if first then [] else if is_or then codes "OR " else codes "AND ")
              ++ (if is_not then codes "NOT " else []))
            ≡ 0
      any is_or true true = refl
      any is_or false true = refl
      any true true false = refl
      any true false false = refl
      any false true false = refl
      any false false false = refl

  in_brackets-marks : (w : Text) → marks (in_brackets base models w) ≡ marks w
  unfolding marks
  in_brackets-marks [] = refl
  in_brackets-marks (c ∷ w) = omega (arith, marks-append (c ∷ w) (codes ") "))

  with_where-marks : (sub : Bool) (w : Text) → marks (with_where base models sub w) ≡ marks w
  unfolding marks
  with_where-marks sub [] = refl
  with_where-marks true (c ∷ w) = refl
  with_where-marks false (c ∷ w) = refl

  values-Agree :
      (sub : T → Option ℕ → Outcome Failure (T × (Text × List Arg))) (t : T) (first : Bool)
      (vs : List (CondValue A)) (w : Text) (params : List Arg)
      → IsClean
      → All Fine vs
      → All (SubAgree sub) vs
      → marks w ≡ length params
      → Gives Agrees (values_sql base models sub t first vs w params)
  unfolding values_sql value_sql leaf_sql SubAgree
  values-Agree sub t first [] w params clean fine h so_far = so_far
  values-Agree sub t first (v ∷ vs) w params clean (f, fine) (h, hs) so_far =
      >>=-Gives Agrees Agrees (value_sql base models sub t v) _
        (if-Gives Agrees v.is_cond _ _
          (λ e.
            >>=-Gives Agrees Agrees (sub t v.cond) _ (h t) (λ r g. rw (in_brackets-marks r.1.0) g))
          (λ e. found-Agree t v (models.parse_exprs t (cut_operator v.exprs).0) clean f refl))
        (λ r g. values-Agree sub r.0 false vs _ _ clean fine hs (
          omega (
            arith,
            g,
            so_far,
            connective-marks first v,
            marks-append w (connective base models first v ++ r.1.0),
            marks-append (connective base models first v) r.1.0,
            length-append params r.1.1,
          )))

  -- The SQL that getCondSQL returns has one placeholder for each argument that it returns, if the names have none,
  -- the operators are the driver's, and the texts given to Raw have none.
  pub get_cond_sql-Agree :
      (fuel : ℕ) (m : Store A) (t : T) (cond : Option ℕ) (sub : Bool)
      → IsClean
      → ((p : ℕ) → All Fine (read m p))
      → Gives Agrees (get_cond_sql base models fuel m t cond sub)
  unfolding get_cond_sql SubAgree marks
  get_cond_sql-Agree fuel m t none sub clean fine = refl
  get_cond_sql-Agree zero m t (some p) sub clean fine = tt
  get_cond_sql-Agree (suc n) m t (some p) sub clean fine =
      if-Gives Agrees (is_empty m p) _ _ (λ e. refl)
        (λ e.
          >>=-Gives Agrees Agrees
            (values_sql base models (λ t' c. get_cond_sql base models n m t' c true) t true
              (read m p) [] [])
            _
            (values-Agree (λ t' c. get_cond_sql base models n m t' c true) t true (read m p) [] []
              clean (fine p)
              (all_of (λ v t'. get_cond_sql-Agree n m t' v.cond true clean fine) (read m p)) refl)
            (λ r g. rw (with_where-marks sub r.1.0) g))
    where
      all_of :
          {P : CondValue A → Type μ}
          → ((v : CondValue A) → P v)
          → (vs : List (CondValue A)) → All P vs
      all_of h [] = tt
      all_of h (v ∷ vs) = (h v, all_of h vs)
