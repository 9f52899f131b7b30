-- ===== src/Orm/Cond/Older.antt =====
-- client/orm/orm_conds.go: the conditions that the methods can build. A condition holds only conditions that
-- are older than it is.
use beego.Common.{
  ℕ, ◌<◌, ◌≡◌, refl, if◌then◌else◌, Bool, true, false, List, [], Option, none, some, Text, length,
  All,
}
use beego.Common.Outcome.{Outcome, ok, panic, ok-injective}
use beego.Orm.Cond.Store.{
  CondValue, Store, read, clone, new_condition, add_value, add_cond, copy_then, same, is_nil,
  no_args, raw, and_expr, and_not, or_expr, or_not, and_cond, and_not_cond, or_cond, or_not_cond,
}

-- A pointer to a condition of the store, or nil.
abbrev pub Known {ℓ} : {A : Type ℓ} → Store A → Option ℕ → Type 0
Known m none = Unit
Known m (some q) = q < length m.conds

-- The call of a method on the condition at `p`, with its result.
pub data Call {ℓ} {A : Type ℓ} (grow : ℕ → ℕ) (m : Store A) (p : ℕ) (r : Store A × ℕ) : Type ℓ where
  raw_call : (expr sql : Text) → raw grow m p expr sql ≡ ok r → Call grow m p r
  and_call : (expr : Text) (args : List A) → and_expr grow m p expr args ≡ ok r → Call grow m p r
  and_not_call : (expr : Text) (args : List A) → and_not grow m p expr args ≡ ok r → Call grow m p r
  or_call : (expr : Text) (args : List A) → or_expr grow m p expr args ≡ ok r → Call grow m p r
  or_not_call : (expr : Text) (args : List A) → or_not grow m p expr args ≡ ok r → Call grow m p r
  and_cond_call : (cond : Option ℕ) → Known m cond → and_cond grow m p cond ≡ ok r → Call grow m p r
  and_not_cond_call :
      (cond : Option ℕ) → Known m cond → and_not_cond grow m p cond ≡ ok r → Call grow m p r
  or_cond_call : (cond : Option ℕ) → Known m cond → or_cond grow m p cond ≡ ok r → Call grow m p r
  or_not_cond_call :
      (cond : Option ℕ) → Known m cond → or_not_cond grow m p cond ≡ ok r → Call grow m p r

-- From an empty store, by NewCondition and the methods.
pub data Reach {ℓ} {A : Type ℓ} (grow : ℕ → ℕ) : Store A → Type ℓ where
  start : Reach grow (record { arrays = []; conds = [] })
  fresh : {m : Store A} → Reach grow m → Reach grow (new_condition m).0
  call :
      {m : Store A} (p : ℕ) (r : Store A × ℕ)
      → Reach grow m
      → p < length m.conds
      → Call grow m p r
      → Reach grow r.0

-- The condition that a value holds is older than `p`.
abbrev pub OlderThan : ℕ → Option ℕ → Type 0
OlderThan p none = Unit
OlderThan p (some q) = q < p

abbrev pub Below {ℓ} : {A : Type ℓ} → ℕ → CondValue A → Type 0
Below p v = OlderThan p v.cond

abbrev pub Bounded {ℓ} : {A : Type ℓ} → Store A → Type 0
Bounded m = (p : ℕ) → All (Below p) (read m p)

-- What a call does: it adds a value that holds no condition, or one that holds the condition that it is given.
pub data Effect {ℓ} {A : Type ℓ} (grow : ℕ → ℕ) (m : Store A) (p : ℕ) (r : Store A × ℕ)
    : Type ℓ where
  added : (v : CondValue A) → v.cond ≡ none → add_value grow m p v ≡ r → Effect grow m p r
  nested :
      (cond : Option ℕ) (v : ℕ → CondValue A)
      → Known m cond
      → ((q : ℕ) → (v q).cond ≡ some q)
      → add_cond grow (clone m p).0 (clone m p).1 cond v ≡ r
      → Effect grow m p r

module _ {ℓ} {A : Type ℓ} (grow : ℕ → ℕ) where
  guarded :
      {E : Type 0} (b : Bool) (e : E) {r r' : Store A × ℕ}
      → ◌≡◌ {A = Outcome E (Store A × ℕ)} (if b then panic e else ok r) (ok r')
      → r ≡ r'
  guarded true e h = cc
  guarded false e h = ok-injective h

  pub Call-Effect : (m : Store A) (p : ℕ) (r : Store A × ℕ) → Call grow m p r → Effect grow m p r
  unfolding raw and_expr and_not or_expr or_not and_cond and_not_cond or_cond or_not_cond copy_then
  Call-Effect m p r (raw_call expr sql h) = added _ refl (guarded (is_nil sql) _ h)
  Call-Effect m p r (and_call expr args h) = added _ refl (guarded (no_args expr args) _ h)
  Call-Effect m p r (and_not_call expr args h) = added _ refl (guarded (no_args expr args) _ h)
  Call-Effect m p r (or_call expr args h) = added _ refl (guarded (no_args expr args) _ h)
  Call-Effect m p r (or_not_call expr args h) = added _ refl (guarded (no_args expr args) _ h)
  Call-Effect m p r (and_cond_call cond known h) =
      nested cond _ known (λ q. refl) (guarded (same cond p) _ h)
  Call-Effect m p r (and_not_cond_call cond known h) =
      nested cond _ known (λ q. refl) (guarded (same cond (clone m p).1) _ h)
  Call-Effect m p r (or_cond_call cond known h) =
      nested cond _ known (λ q. refl) (guarded (same cond (clone m p).1) _ h)
  Call-Effect m p r (or_not_cond_call cond known h) =
      nested cond _ known (λ q. refl) (guarded (same cond (clone m p).1) _ h)
