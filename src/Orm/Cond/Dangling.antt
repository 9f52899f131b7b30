-- ===== src/Orm/Cond/Dangling.antt =====
-- client/orm/db_tables.go: `getCondSQL` of a condition that holds an empty one.
use beego.Common.{
  ℕ, zero, suc, arith, ◌==◌, ◌≡◌, refl, ap, true, false, List, [], ◌∷◌, ◌++◌, Option, some, Text,
  codes, append_nil,
}
use beego.Common.Outcome.{Outcome, ok, panic, fuel_out, ◌>>=◌}
use beego.Orm.Operator.{Arg}
use beego.Orm.Cond.Store.{
  CondValue, Store, Failure, plain, take, is_empty, header, read, elements, array_of,
}
use beego.Orm.Cond.Where.{Base, Models, value_sql, values_sql, with_where, get_cond_sql}

module _ {ℓ} {A : Type ℓ} where
  not-taken :
      (n : ℕ) (vs ws : List (CondValue A)) {v : CondValue A} → take n vs ≡ v ∷ ws → (n == 0) ≡ false
  not-taken zero vs ws e = cc
  not-taken (suc n) vs ws e = ground arith

  -- A condition that has an element is not empty.
  read-is_empty :
      (m : Store A) (p : ℕ) {v : CondValue A} {vs : List (CondValue A)}
      → read m p ≡ v ∷ vs
      → is_empty m p ≡ false
  unfolding read elements is_empty
  read-is_empty m p {v} {vs} e = not-taken (header m p).len (array_of m (header m p).array) vs e

module _ {ℓ κ μ} {A : Type ℓ} {F : Type κ} {T : Type μ} (base : Base F)
    (models : Models A F T) where
  -- What is written behind the SQL.
  abbrev pub followed_by :
      Text → Outcome Failure (T × (Text × List Arg)) → Outcome Failure (T × (Text × List Arg))
  followed_by s (ok (t, (where_sql, params))) = ok (t, (where_sql ++ s, params))
  followed_by s (panic e) = panic e
  followed_by s fuel_out = fuel_out

  bind_followed_by :
      (s : Text) (r : Outcome Failure (T × (Text × List Arg)))
      (f g : T × (Text × List Arg) → Outcome Failure (T × (Text × List Arg)))
      → ((x : T × (Text × List Arg)) → f x ≡ followed_by s (g x))
      → (r >>= f) ≡ followed_by s (r >>= g)
  bind_followed_by s (ok x) f g h = h x
  bind_followed_by s (panic e) f g h = refl
  bind_followed_by s fuel_out f g h = refl

  abbrev holder : ℕ → CondValue A
  holder q = record plain { cond = some q; is_cond = true }

  -- The loop after its first round, over a condition that ends with one whose SQL is empty.
  values_sql-last :
      (sub : T → Option ℕ → Outcome Failure (T × (Text × List Arg))) (q : ℕ)
      (vs : List (CondValue A)) (t : T) (where_sql : Text) (params : List Arg)
      → ((t' : T) → sub t' (some q) ≡ ok (t', ([], [])))
      → values_sql base models sub t false (vs ++ (holder q ∷ [])) where_sql params
        ≡ followed_by (codes "AND ") (values_sql base models sub t false vs where_sql params)
  unfolding values_sql value_sql
  values_sql-last sub q [] t where_sql params h =
      rw (h t) (ap (λ ps. ok (t, (where_sql ++ codes "AND ", ps))) (append_nil params))
  values_sql-last sub q (v ∷ vs) t where_sql params h =
      bind_followed_by (codes "AND ") (value_sql base models sub t v) _ _
        (λ r. values_sql-last sub q vs r.0 _ _ h)

  no_where :
      (r : Outcome Failure (T × (Text × List Arg)))
      → (r >>= λ r. ok (r.0, (with_where base models true r.1.0, r.1.1))) ≡ r
  no_where (ok (t, ([], params))) = refl
  no_where (ok (t, (c ∷ w, params))) = refl
  no_where (panic e) = refl
  no_where fuel_out = refl

  get_cond_sql-held :
      (n : ℕ) (m : Store A) (t : T) (p : ℕ)
      → is_empty m p ≡ false
      → get_cond_sql base models (suc n) m t (some p) true
        ≡ values_sql base models
            (λ t' cond. get_cond_sql base models n m t' cond true)
            t
            true
            (read m p)
            []
            []
  unfolding get_cond_sql
  get_cond_sql-held n m t p e = rw e (no_where _)

  get_cond_sql-empty :
      (n : ℕ) (m : Store A) (q : ℕ)
      → is_empty m q ≡ true
      → (t : T) → get_cond_sql base models (suc n) m t (some q) true ≡ ok (t, ([], []))
  unfolding get_cond_sql
  get_cond_sql-empty n m q e t = rw e refl

  -- A condition `c` that holds the elements of a condition `p` that is not empty and then an empty condition, as the
  -- method AndCond makes it: its SQL, inside another condition, is that of `p` with `AND ` behind it, which no
  -- operand follows, with the same arguments and joins, and it fails as that of `p` does.
  pub get_cond_sql-dangling :
      (n : ℕ) (m : Store A) (t : T) (p c q : ℕ) (v : CondValue A) (vs : List (CondValue A))
      → read m p ≡ v ∷ vs
      → read m c ≡ read m p ++ (record plain { cond = some q; is_cond = true } ∷ [])
      → is_empty m q ≡ true
      → get_cond_sql base models (suc (suc n)) m t (some c) true
        ≡ followed_by (codes "AND ") (get_cond_sql base models (suc (suc n)) m t (some p) true)
  get_cond_sql-dangling n m t p c q v vs e joined empty =
      let whole : read m c ≡ v ∷ (vs ++ (holder q ∷ [])) = rw (joined, e) refl in
      rw
        (
          get_cond_sql-held (suc n) m t c (read-is_empty m c whole),
          get_cond_sql-held (suc n) m t p (read-is_empty m p e),
          whole,
          e,
        )
        (unfold values_sql in
          bind_followed_by (codes "AND ") _ _ _
            (λ r. values_sql-last _ q vs r.0 _ _ (get_cond_sql-empty n m q empty)))
