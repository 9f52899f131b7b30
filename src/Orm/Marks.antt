-- ===== src/Orm/Marks.antt =====
-- client/orm/db.go and the drivers: the placeholders `?` of an operator and its arguments.
use beego.Common.{
  ℕ, suc, ◌+◌, ◌==◌, ◌≡◌, ◌≢◌, refl, ap, sym, ◌∙◌, inl, inr, Bool, true, false, ◌||◌, if◌then◌else◌,
  List, [], ◌∷◌, ◌++◌, none, some, Text, codes, text_eq, text_eq_iff, join, length, arith,
  Bool-cases, Option-cases,
}
use beego.Common.Dict.{Dict, lookup}
use beego.Common.Outcome.{Outcome, ok, panic, fuel_out}
use beego.Orm.Operator.{
  Arg, ArgFailure, nil, flag, value, operator_sql, one_arg, one_of, exact, is_null, pattern_of,
  text_operators, marks_for, between, default, generate_operator_sql, mysql_operators,
}

-- The number of placeholders in a text.
unfoldable pub marks : Text → ℕ
marks [] = 0
marks (c ∷ s) = let rest = marks s in if c == b'?' then suc rest else rest

pub marks-append : (s t : Text) → marks (s ++ t) ≡ marks s + marks t
unfolding marks
marks-append [] t = omega arith
marks-append (c ∷ s) t = ground (arith, marks-append s t)

-- Each operator of the table has one placeholder.
abbrev pub OneMark : Dict Text → Type 0
OneMark [] = Unit
OneMark ((operator, sql) ∷ table) = (marks sql ≡ 1) × OneMark table

pub mysql-OneMark : OneMark mysql_operators
unfolding marks
mysql-OneMark = omega arith

lookup-marks :
    (table : Dict Text) (operator : Text) {sql : Text}
    → OneMark table
    → lookup operator table ≡ some sql
    → marks sql ≡ 1
unfolding lookup
lookup-marks [] operator h e = cc
lookup-marks ((o, s) ∷ table) operator (h, hs) e = elim (Bool-cases (text_eq o operator)) [
  | inl same ↦ ground arith
  | inr other ↦ lookup-marks table operator hs (rw other at e)
]

join-marks : (params : List Arg) → marks (join (codes ", ") (marks_for params)) ≡ length params
unfolding join marks
join-marks [] = refl
join-marks (a ∷ []) = refl
join-marks (a ∷ b ∷ params) = ap suc (join-marks (b ∷ params))

apart : (s t u : Text) → text_eq s t ≡ true → text_eq t u ≡ false → text_eq s u ≡ false
apart s t u same other = ground (arith, text_eq_iff s t, text_eq_iff s u, text_eq_iff t u)

abbrev Differ : List Text → Text → Type 0
Differ [] u = Unit
Differ (o ∷ os) u = (text_eq o u ≡ false) × Differ os u

one_of-apart :
    (os : List Text) (s u : Text) → one_of os s ≡ true → Differ os u → text_eq s u ≡ false
unfolding one_of
one_of-apart [] s u h d = cc
one_of-apart (o ∷ os) s u h (other, d) = elim (Bool-cases (text_eq o s)) [
  | inl same ↦ ground (arith, text_eq_iff o s, text_eq_iff s u, text_eq_iff o u)
  | inr other_text ↦ one_of-apart os s u (rw other_text at h) d
]

in-marks :
    (params : List Arg)
    → marks (codes "IN (" ++ (join (codes ", ") (marks_for params) ++ codes ")")) ≡ length params
unfolding marks
in-marks params =
    omega
      (arith, join-marks params, marks-append (join (codes ", ") (marks_for params)) (codes ")"))

-- The operators for which `GenerateOperatorSQL` does not ask the driver.
abbrev pub reserved : Text → Bool
reserved s = text_eq s (codes "in") || (text_eq s (codes "between") || text_eq s (codes "isnull"))

not-reserved :
    (s : Text)
    → text_eq s (codes "in") ≡ false
    → text_eq s (codes "between") ≡ false
    → text_eq s (codes "isnull") ≡ false
    → reserved s ≡ false
not-reserved s a b c = rw (a, b, c) refl

-- The driver has the operator, or is not asked for it.
abbrev pub Supported : Dict Text → Text → Type 0
Supported table operator = reserved operator ≡ false → lookup operator table ≢ none

asked :
    (table : Dict Text) (operator : Text)
    → OneMark table
    → Supported table operator
    → reserved operator ≡ false
    → marks (operator_sql table operator) ≡ 1
unfolding operator_sql
asked table operator one has h = elim (Option-cases (lookup operator table)) [
  | inl e ↦ absurd (has h e)
  | inr (sql, e) ↦ rw (operator_sql, e) (lookup-marks table operator one e)
]

exact-length : (arg : Arg) → length (exact arg) ≡ 1
unfolding exact
exact-length nil = refl
exact-length (flag b) = refl
exact-length (value s) = refl

-- Where it does not panic, the SQL has one placeholder for each argument.
abbrev pub Matches : Outcome ArgFailure (Text × List Arg) → Type 0
Matches (ok (sql, args)) = marks sql ≡ length args
Matches (panic e) = Unit
Matches fuel_out = Unit

is_null-Matches : (arg : Arg) → Matches (is_null arg)
unfolding is_null marks
is_null-Matches nil = tt
is_null-Matches (flag true) = refl
is_null-Matches (flag false) = refl
is_null-Matches (value s) = tt

one_arg-Matches :
    (table : Dict Text) (operator : Text) (arg : Arg)
    → OneMark table
    → Supported table operator
    → text_eq operator (codes "in") ≡ false
    → text_eq operator (codes "between") ≡ false
    → Matches (one_arg table operator arg)
unfolding one_arg
one_arg-Matches table operator arg one has not_in not_between =
    elim (Bool-cases (text_eq operator (codes "exact"))) [
      | inl e ↦
          let free : reserved operator ≡ false =
            not-reserved operator not_in not_between
              (apart operator (codes "exact") (codes "isnull") e refl) in
          rw e (asked table operator one has free ∙ sym (exact-length arg))
      | inr e ↦ elim (Bool-cases (one_of text_operators operator)) [
        | inl f ↦
            let free : reserved operator ≡ false = not-reserved operator not_in not_between (
              one_of-apart text_operators operator (codes "isnull") f
                (refl, (refl, (refl, (refl, (refl, (refl, (refl, tt)))))))) in
            rw (e, f) (asked table operator one has free)
        | inr f ↦ elim (Bool-cases (text_eq operator (codes "isnull"))) [
          | inl g ↦ rw (e, f, g) (is_null-Matches arg)
          | inr g ↦
              rw (e, f, g)
                (asked table operator one has (not-reserved operator not_in not_between g))
        ]
      ]
    ]

between-Matches : (params : List Arg) → Matches (between params)
unfolding between marks
between-Matches [] = tt
between-Matches (a ∷ []) = tt
between-Matches (a ∷ b ∷ []) = refl
between-Matches (a ∷ b ∷ c ∷ params) = tt

-- GenerateOperatorSQL, for an operator that the driver has or is not asked for: where it does not panic, the SQL has
-- one placeholder for each argument that it returns.
pub generate_operator_sql-Matches :
    (table : Dict Text) (operator : Text) (params : List Arg)
    → OneMark table
    → Supported table operator
    → Matches (generate_operator_sql table operator params)
unfolding generate_operator_sql default
generate_operator_sql-Matches table operator [] one has = tt
generate_operator_sql-Matches table operator (a ∷ rest) one has =
    elim (Bool-cases (text_eq operator (codes "in"))) [
      | inl e ↦ rw e (in-marks (a ∷ rest))
      | inr e ↦ elim (Bool-cases (text_eq operator (codes "between"))) [
        | inl f ↦ rw (e, f) (between-Matches (a ∷ rest))
        | inr f ↦ rw (e, f) (default-Matches rest e f)
      ]
    ]
  where
    default-Matches :
        (rest : List Arg)
        → text_eq operator (codes "in") ≡ false
        → text_eq operator (codes "between") ≡ false
        → Matches (default table operator (a ∷ rest))
    default-Matches [] e f = one_arg-Matches table operator a one has e f
    default-Matches (b ∷ rest) e f = tt

-- For an operator that the driver has not, GenerateOperatorSQL returns one argument and no placeholder.
pub generate_operator_sql-missing :
    (table : Dict Text) (operator : Text) (arg : Arg)
    → reserved operator ≡ false
    → lookup operator table ≡ none
    → (args : List Arg) × (generate_operator_sql table operator (arg ∷ []) ≡ ok ([], args))
      × (length args ≡ 1)
unfolding generate_operator_sql default one_arg operator_sql
generate_operator_sql-missing table operator arg free missing =
    let not_in : text_eq operator (codes "in") ≡ false = ground arith in
    let not_between : text_eq operator (codes "between") ≡ false = ground arith in
    let not_null : text_eq operator (codes "isnull") ≡ false = ground arith in
    elim (Bool-cases (text_eq operator (codes "exact"))) [
      | inl e ↦ (exact arg, rw (not_in, not_between, e, missing) refl, exact-length arg)
      | inr e ↦ elim (Bool-cases (one_of text_operators operator)) [
        | inl f ↦ (
          value (pattern_of operator arg) ∷ [],
          rw (not_in, not_between, e, f, missing) refl,
          refl,
        )
        | inr f ↦ (arg ∷ [], rw (not_in, not_between, e, f, not_null, missing) refl, refl)
      ]
    ]
