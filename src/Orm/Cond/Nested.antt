-- ===== src/Orm/Cond/Nested.antt =====
-- client/orm/orm_conds.go: the methods that take a condition, and two conditions made from one.
use beego.Common.{
  ℕ, ◌<◌, ◌==◌, ◌≡◌, refl, ap, ◌∙◌, ◌≢◌, true, false, List, [], ◌∷◌, ◌++◌, some, arith, length,
  get_elem?, set, length-append, get_elem?-set_self, get_elem?-set_ne,
}
use beego.Common.Outcome.{Outcome, ok, panic}
use beego.Orm.Cond.Store.{
  Failure, CondValue, Slice, Store, plain, or_nil_slice, take, elements, header, read, allocate,
  new_cond, clone, self_as_sub, append, add_cond, copy_then, and_cond, or_cond,
}
use beego.Orm.Cond.Sharing.{Fits, elements-append}
use beego.Orm.Cond.Valid.{clone-IsValid}
use beego.Orm.Cond.Methods.{
  IsValid, array_of-conds, read-clone, read-clone_other, clone-full, append-conds,
  read-append_other,
}

module _ {ℓ} {A : Type ℓ} where
  pub clone-place : (m : Store A) (p : ℕ) → (clone m p).1 ≡ length m.conds
  unfolding clone new_cond allocate
  clone-place m p = refl

  pub length-clone : (m : Store A) (p : ℕ) → (clone m p).1 < length (clone m p).0.conds
  unfolding clone new_cond allocate
  length-clone m p =
      omega (arith, length-append m.conds ((allocate m (header m p).len (read m p)).1 ∷ []))

  pub elements-conds :
      (m : Store A) (cs : List Slice) (s : Slice)
      → elements (record m { conds = cs }) s ≡ elements m s
  unfolding elements
  elements-conds m cs s = ap (take s.len) (array_of-conds m cs s.array)

module _ {ℓ} {A : Type ℓ} (grow : ℕ → ℕ) where
  pub read-add_cond :
      (m : Store A) (c q : ℕ) (v : ℕ → CondValue A)
      → Fits m (header m c)
      → c < length m.conds
      → read (add_cond grow m c (some q) v).0 c ≡ read m c ++ (v q ∷ [])
  unfolding add_cond read header
  read-add_cond m c q v fits there =
      let m' = (append grow m (header m c) (v q)).0 in
      let s = (append grow m (header m c) (v q)).1 in
      rw (get_elem?-set_self m'.conds c s (rw (append-conds grow m (header m c) (v q)) there))
        (elements-conds m' (set m'.conds c s) s ∙ elements-append grow m (header m c) (v q) fits)

  pub read-add_cond_other :
      (m : Store A) (c d q : ℕ) (v : ℕ → CondValue A)
      → c ≢ d
      → read (add_cond grow m c (some q) v).0 d ≡ read (append grow m (header m c) (v q)).0 d
  unfolding add_cond read header
  read-add_cond_other m c d q v h =
      let m' = (append grow m (header m c) (v q)).0 in
      let s = (append grow m (header m c) (v q)).1 in
      rw (get_elem?-set_ne m'.conds {i = c} {j = d} s h)
        (elements-conds m' (set m'.conds c s) (or_nil_slice (get_elem? m'.conds d)))

  -- What AndCond does after its guard, and the others before theirs.
  joined :
      (m : Store A) (p q d : ℕ) (v : ℕ → CondValue A)
      → IsValid m
      → d < length m.conds
      → (read (add_cond grow (clone m p).0 (clone m p).1 (some q) v).0 (clone m p).1
          ≡ read m p ++ (v q ∷ []))
        × (read (add_cond grow (clone m p).0 (clone m p).1 (some q) v).0 d ≡ read m d)
  joined m p q d v valid there =
      let m' = (clone m p).0 in
      let c = (clone m p).1 in
      let valid' = clone-IsValid m p valid in
      let full = clone-full m p (valid p).0 in
      (
        read-add_cond m' c q v (valid' c).0 (length-clone m p)
            ∙ ap (λ vs. vs ++ (v q ∷ [])) (read-clone m p),
        read-add_cond_other m' c d q v (λ e. absurd (omega (arith, there, e, clone-place m p)))
            ∙ read-append_other grow m' (header m' c) d (v q) valid' (λ h. cc)
            ∙ read-clone_other m p d valid there,
      )

  -- A copy, whose place is new, is never the given condition, so that the guard lets this be appended.
  copy_then_lem :
      (m : Store A) (p q d : ℕ) (v : ℕ → CondValue A)
      → IsValid m
      → q < length m.conds
      → d < length m.conds
      → (r : Store A × ℕ) × (copy_then grow m p (some q) v ≡ ok r)
        × (read r.0 r.1 ≡ read m p ++ (v q ∷ []))
        × (read r.0 d ≡ read m d)
  unfolding copy_then
  copy_then_lem m p q d v valid inside there =
      let (a, b) = joined m p q d v valid there in
      let other : (q == (clone m p).1) ≡ false = rw (clone-place m p) (ground arith) in
      (add_cond grow (clone m p).0 (clone m p).1 (some q) v, rw other refl, unfold add_cond in a, b)

  -- What a method that takes a condition does, with the value that it is to append: it returns a condition that has the
  -- elements of `p` and then this value, and the condition `d` stays as it was.
  abbrev pub Appends : Store A → ℕ → ℕ → CondValue A → Outcome Failure (Store A × ℕ) → Type ℓ
  Appends m p d v result =
      (r : Store A × ℕ) × (result ≡ ok r)
      × (read r.0 r.1 ≡ read m p ++ (v ∷ []))
      × (read r.0 d ≡ read m d)

  -- A condition of the store may be given to OrCond on itself, which returns it with itself as its last element:
  -- the guard compares the new copy. AndCond panics there.
  pub or_cond_self :
      (m : Store A) (p : ℕ)
      → IsValid m
      → p < length m.conds
      → (and_cond grow m p (some p) ≡ panic self_as_sub)
        × (r : Store A × ℕ) × (or_cond grow m p (some p) ≡ ok r)
        × (read r.0 r.1
            ≡ read m p ++ (record plain { cond = some p; is_cond = true; is_or = true } ∷ []))
  unfolding and_cond or_cond
  or_cond_self m p valid there =
      let self : (p == p) ≡ true = ground arith in
      let (r, e, a, b) =
        copy_then_lem m p p p (λ q. record plain { cond = some q; is_cond = true; is_or = true })
          valid there there in
      (rw self refl, r, e, a)
