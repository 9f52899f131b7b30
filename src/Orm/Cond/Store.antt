-- ===== src/Orm/Cond/Store.antt =====
-- client/orm/orm_conds.go: the store, and the methods of `Condition`.
use beego.Common.{
  ℕ, zero, suc, ◌-◌, ltb, ◌==◌, Bool, true, false, ◌&&◌, ◌||◌, if◌then◌else◌, List, [], ◌∷◌, ◌++◌,
  Option, none, some, Text, length, get_elem?, set, replicate,
}
use beego.Common.Outcome.{Outcome, ok, panic}
use beego.Orm.Operator.{ArgFailure}

pub data Failure : Type 0 where
  sql_empty : Failure
  args_empty : Failure
  self_as_sub : Failure
  unknown_name : List Text → Failure
  bad_args : ArgFailure → Failure

pub record CondValue {ℓ} (A : Type ℓ) : Type ℓ where
  pub exprs : List Text
  pub args : List A
  pub cond : Option ℕ
  pub is_or : Bool
  pub is_not : Bool
  pub is_cond : Bool
  pub is_raw : Bool
  pub sql : Text

-- The header of a slice, also the only field of `Condition`. The nil slice has length 0 in no array.
pub record Slice : Type 0 where
  pub array : Option ℕ
  pub len : ℕ

pub record Store {ℓ} (A : Type ℓ) : Type ℓ where
  pub arrays : List (List (CondValue A))
  pub conds : List Slice

-- `strings.Split(s, "__")`
abbrev pub push : ℕ → List Text → List Text
push c [] = (c ∷ []) ∷ []
push c (part ∷ parts) = (c ∷ part) ∷ parts

unfoldable pub split_sep : Text → List Text
split_sep [] = [] ∷ []
split_sep (c ∷ []) = (c ∷ []) ∷ []
split_sep (c ∷ d ∷ s) = elim ((c == b'_') && (d == b'_')) [
  | true ↦ [] ∷ split_sep s
  | false ↦ push c (split_sep (d ∷ s))
]

abbrev pub is_nil {κ} : {B : Type κ} → List B → Bool
is_nil [] = true
is_nil (x ∷ xs) = false

abbrev pub same : Option ℕ → ℕ → Bool
same none p = false
same (some q) p = q == p

-- What a place outside the store would have.
abbrev pub or_nil {κ} : {B : Type κ} → Option (List B) → List B
or_nil none = []
or_nil (some vs) = vs

abbrev pub or_nil_slice : Option Slice → Slice
or_nil_slice none = record { array = none; len = 0 }
or_nil_slice (some s) = s

module _ {ℓ} {A : Type ℓ} where
  abbrev pub plain : CondValue A
  plain = record {
    exprs = [];
    args = [];
    cond = none;
    is_or = false;
    is_not = false;
    is_cond = false;
    is_raw = false;
    sql = [];
  }

  -- The array of a slice, empty for nil.
  unfoldable pub array_of : Store A → Option ℕ → List (CondValue A)
  array_of m none = []
  array_of m (some a) = or_nil (get_elem? m.arrays a)

  abbrev pub take : ℕ → List (CondValue A) → List (CondValue A)
  take zero vs = []
  take (suc n) [] = []
  take (suc n) (v ∷ vs) = v ∷ take n vs

  -- The elements of a slice.
  unfoldable pub elements : Store A → Slice → List (CondValue A)
  elements m s = take s.len (array_of m s.array)

  -- `c.params` of the condition at a place.
  unfoldable pub header : Store A → ℕ → Slice
  header m p = or_nil_slice (get_elem? m.conds p)

  -- The elements of the condition at a place.
  unfoldable pub read : Store A → ℕ → List (CondValue A)
  read m p = elements m (header m p)

  unfoldable pub write : Store A → Option ℕ → ℕ → CondValue A → Store A
  write m none i v = m
  write m (some a) i v = record m { arrays = set m.arrays a (set (array_of m (some a)) i v) }

  -- A new array, with a slice of its first elements.
  unfoldable pub allocate : Store A → ℕ → List (CondValue A) → Store A × Slice
  allocate m len vs = (
    record m { arrays = m.arrays ++ (vs ∷ []) },
    record { array = some (length m.arrays); len = len },
  )

  -- `&c` of a condition with these params.
  unfoldable pub new_cond : Store A → Slice → Store A × ℕ
  new_cond m s = (record m { conds = m.conds ++ (s ∷ []) }, length m.conds)

  -- `NewCondition`
  unfoldable pub new_condition : Store A → Store A × ℕ
  new_condition m = new_cond m (record { array = none; len = 0 })

  -- `IsEmpty`
  unfoldable pub is_empty : Store A → ℕ → Bool
  is_empty m p = (header m p).len == 0

  -- `make` and `copy`, and the address of the copy.
  unfoldable pub clone : Store A → ℕ → Store A × ℕ
  clone m p = let (m', s) = allocate m (header m p).len (read m p) in new_cond m' s

  -- The guard of the methods that take an expression.
  abbrev pub no_args : Text → List A → Bool
  no_args expr args = is_nil expr || is_nil args

module _ {ℓ} {A : Type ℓ} (grow : ℕ → ℕ) where
  -- `append` of one element
  unfoldable pub append : Store A → Slice → CondValue A → Store A × Slice
  append m s v =
      if ltb s.len (length (array_of m s.array))
      then ((write m s.array s.len v, record s { len = suc s.len }))
      else allocate m (suc s.len) (elements m s ++ (v ∷ replicate (grow s.len - suc s.len) plain))

  -- What the methods on a value do: `append` to the params of the copy, and the address of the copy.
  unfoldable pub add_value : Store A → ℕ → CondValue A → Store A × ℕ
  add_value m p v = let (m', s) = append m (header m p) v in new_cond m' s

  unfoldable pub raw : Store A → ℕ → Text → Text → Outcome Failure (Store A × ℕ)
  raw m p expr sql =
      if is_nil sql
      then panic sql_empty
      else ok (add_value m p (record plain { exprs = split_sep expr; sql = sql; is_raw = true }))

  -- `And`
  unfoldable pub and_expr : Store A → ℕ → Text → List A → Outcome Failure (Store A × ℕ)
  and_expr m p expr args =
      if no_args expr args
      then panic args_empty
      else ok (add_value m p (record plain { exprs = split_sep expr; args = args }))

  -- `AndNot`
  unfoldable pub and_not : Store A → ℕ → Text → List A → Outcome Failure (Store A × ℕ)
  and_not m p expr args =
      if no_args expr args
      then panic args_empty
      else ok (add_value m p (record plain { exprs = split_sep expr; args = args; is_not = true }))

  -- `Or`
  unfoldable pub or_expr : Store A → ℕ → Text → List A → Outcome Failure (Store A × ℕ)
  or_expr m p expr args =
      if no_args expr args
      then panic args_empty
      else ok (add_value m p (record plain { exprs = split_sep expr; args = args; is_or = true }))

  -- `OrNot`
  unfoldable pub or_not : Store A → ℕ → Text → List A → Outcome Failure (Store A × ℕ)
  or_not m p expr args =
      if no_args expr args
      then panic args_empty
      else ok (
          add_value m p
            (record plain { exprs = split_sep expr; args = args; is_not = true; is_or = true }))

  -- The last steps of the methods that take a condition: on the copy `c`, `append` unless `cond` is nil.
  unfoldable pub add_cond : Store A → ℕ → Option ℕ → (ℕ → CondValue A) → Store A × ℕ
  add_cond m c none v = (m, c)
  add_cond m c (some q) v =
      let (m', s) = append m (header m c) (v q) in (record m' { conds = set m'.conds c s }, c)

  -- `AndCond`, which compares the conditions before it copies the receiver.
  unfoldable pub and_cond : Store A → ℕ → Option ℕ → Outcome Failure (Store A × ℕ)
  and_cond m p cond =
      if same cond p
      then panic self_as_sub
      else let (m', c) = clone m p in
        ok (add_cond m' c cond (λ q. record plain { cond = some q; is_cond = true }))

  -- The other three copy it first.
  unfoldable pub copy_then :
      Store A → ℕ → Option ℕ → (ℕ → CondValue A) → Outcome Failure (Store A × ℕ)
  copy_then m p cond v =
      let (m', c) = clone m p in
      if same cond c then panic self_as_sub else ok (add_cond m' c cond v)

  unfoldable pub and_not_cond : Store A → ℕ → Option ℕ → Outcome Failure (Store A × ℕ)
  and_not_cond m p cond =
      copy_then m p cond (λ q. record plain { cond = some q; is_cond = true; is_not = true })

  unfoldable pub or_cond : Store A → ℕ → Option ℕ → Outcome Failure (Store A × ℕ)
  or_cond m p cond =
      copy_then m p cond (λ q. record plain { cond = some q; is_cond = true; is_or = true })

  unfoldable pub or_not_cond : Store A → ℕ → Option ℕ → Outcome Failure (Store A × ℕ)
  or_not_cond m p cond =
      copy_then m p cond
        (λ q. record plain { cond = some q; is_cond = true; is_not = true; is_or = true })
