-- ===== src/Orm/Cond/Bounded.antt =====
-- client/orm/orm_conds.go: each condition that the methods build holds only older ones.
use beego.Common.{
  ℕ, zero, suc, ◌≤◌, ◌<◌, ltb, ◌==◌, ◌≡◌, ap, sym, ◌∙◌, subst, List, [], ◌∷◌, ◌++◌, Option, none,
  some, arith, length, get_elem?, set, All, All-append, All-map, Bool-cases, inl, inr, ltb→lt,
  ==_iff,
}
use beego.Orm.Cond.Store.{
  CondValue, Slice, Store, take, array_of, elements, header, read, write, allocate, clone, new_cond,
  new_condition, append, add_value, add_cond, or_nil_slice,
}
use beego.Orm.Cond.Sharing.{
  elements-append, elements-append_other, append_room, array_of-write, array_of-write_other,
}
use beego.Orm.Cond.Methods.{
  IsValid, room, append-conds, read-new_cond, read-new_cond_other, read-clone, read-allocate,
  read-append_other, clone-full,
}
use beego.Orm.Cond.Valid.{
  one_of, add_value-IsValid, add_cond-IsValid, clone-IsValid, new_cond-IsValid,
}
use beego.Orm.Cond.Nested.{
  elements-conds, read-add_cond, read-add_cond_other, clone-place, length-clone,
}
use beego.Orm.Cond.Older.{
  OlderThan, Below, Bounded, Effect, added, nested, Call-Effect, Reach, start, fresh, call,
}

module _ {ℓ} {A : Type ℓ} where
  pub later : (p q : ℕ) (v : CondValue A) → p ≤ q → Below p v → Below q v
  later p q v h b = later_of v.cond b
    where
      later_of : (c : Option ℕ) → OlderThan p c → OlderThan q c
      later_of none b = tt
      later_of (some r) b = omega arith

  take-set-All :
      (P : CondValue A → Type 0) (n i : ℕ) (vs : List (CondValue A)) (v : CondValue A)
      → P v
      → All P (take n vs)
      → All P (take n (set vs i v))
  take-set-All P zero i vs v pv h = tt
  take-set-All P (suc n) i [] v pv h = tt
  take-set-All P (suc n) zero (x ∷ vs) v pv (h, hs) = (pv, hs)
  take-set-All P (suc n) (suc i) (x ∷ vs) v pv (h, hs) = (h, take-set-All P n i vs v pv hs)

  take-write-All :
      (P : CondValue A → Type 0) (m : Store A) (b d : Option ℕ) (n i : ℕ) (v : CondValue A)
      → i < length (array_of m b)
      → P v
      → All P (take n (array_of m d))
      → All P (take n (array_of (write m b i v) d))
  take-write-All P m none d n i v h pv hs = unfold write in hs
  take-write-All P m (some a) none n i v h pv hs =
      rw (array_of-write_other m a none i v (λ e. cc)) hs
  take-write-All P m (some a) (some c) n i v h pv hs = elim (Bool-cases (c == a)) [
    | inl e ↦
        let same : ◌≡◌ {A = Option ℕ} (some c) (some a) = ap some ((==_iff c a).0 e) in
        rw (same, array_of-write m (some a) i v h)
          (take-set-All P n i (array_of m (some a)) v pv (rw same at hs))
    | inr e ↦ rw (array_of-write_other m a (some c) i v (λ q. ground (arith, q))) hs
  ]

  read-at :
      (m : Store A) (cs : List Slice) (d : ℕ) {s : Slice}
      → or_nil_slice (get_elem? cs d) ≡ s
      → read (record m { conds = cs }) d ≡ elements m s
  unfolding read header
  read-at m cs d {s} e = ap (elements (record m { conds = cs })) e ∙ elements-conds m cs s

  new_cond-Bounded :
      (m : Store A) (s : Slice)
      → Bounded m
      → All (Below (length m.conds)) (elements m s)
      → Bounded (new_cond m s).0
  new_cond-Bounded m s b new d = elim (Bool-cases (ltb d (length m.conds))) [
    | inl old ↦ rw (read-new_cond_other m s d (ltb→lt d (length m.conds) old)) (b d)
    | inr out ↦ elim (one_of m.conds s d) [
      | inl e ↦
          let as_was : read (new_cond m s).0 d ≡ read m d =
            unfold new_cond read header in read-at m (m.conds ++ (s ∷ [])) d e in
          rw as_was (b d)
      | inr e ↦
          let as_new : read (new_cond m s).0 d ≡ elements m s =
            unfold new_cond in read-at m (m.conds ++ (s ∷ [])) d e in
          rw as_new (
            All-map (Below (length m.conds)) (Below d) (elements m s)
              (λ v h. later (length m.conds) d v (ground arith) h) new)
    ]
  ]

empty-Bounded {ℓ} :
    (A : Type ℓ)
    → IsValid {A = A} (record { arrays = []; conds = [] })
      × Bounded {A = A} (record { arrays = []; conds = [] })
unfolding header read elements array_of
empty-Bounded A = ((λ p. (omega arith, tt)), λ p. tt)

module _ {ℓ} {A : Type ℓ} (grow : ℕ → ℕ) where
  append-Bounded :
      (m : Store A) (s : Slice) (v : CondValue A)
      → IsValid m
      → v.cond ≡ none
      → Bounded m
      → Bounded (append grow m s v).0
  append-Bounded m s v valid free b d =
      let same : read (append grow m s v).0 d ≡ elements (append grow m s v).0 (header m d) =
        unfold read header in
        ap (λ cs. elements (append grow m s v).0 (or_nil_slice (get_elem? cs d)))
          (append-conds grow m s v) in
      rw same (elim (Bool-cases (room m s)) [
        | inl h ↦ rw (append_room grow m s v h) (
            unfold elements in
            take-write-All (Below d) m s.array (header m d).array (header m d).len s.len v
              (ltb→lt s.len (length (array_of m s.array)) h) (rw free tt)
              (unfold read elements in b d))
        | inr h ↦
            rw (elements-append_other grow m s (header m d) v (valid d).1 (λ x. cc))
              (unfold read in b d)
      ])

  -- The elements of the receiver and a value that holds an older condition.
  one_more :
      (p q : ℕ) (vs : List (CondValue A)) (v : CondValue A)
      → p ≤ q
      → All (Below p) vs
      → Below q v
      → All (Below q) (vs ++ (v ∷ []))
  one_more p q vs v h b bv =
      All-append (Below q) vs (v ∷ []) (All-map (Below p) (Below q) vs (λ x. later p q x h) b)
        (bv, tt)

  add_value-Bounded :
      (m : Store A) (p : ℕ) (v : CondValue A)
      → IsValid m
      → p < length m.conds
      → v.cond ≡ none
      → Bounded m
      → Bounded (add_value grow m p v).0
  unfolding add_value
  add_value-Bounded m p v valid there free b =
      let m' = (append grow m (header m p) v).0 in
      let s = (append grow m (header m p) v).1 in
      new_cond-Bounded m' s (append-Bounded m (header m p) v valid free b) (
        rw (append-conds grow m (header m p) v) (
          rw (elements-append grow m (header m p) v (valid p).0) (
            one_more p (length m.conds) (elements m (header m p)) v (omega arith)
              (unfold read in b p) (rw free tt))))

  clone-Bounded :
      (m : Store A) (p : ℕ) → IsValid m → p < length m.conds → Bounded m → Bounded (clone m p).0
  clone-Bounded m p valid there b =
      let m' = (allocate m (header m p).len (read m p)).0 in
      let s = (allocate m (header m p).len (read m p)).1 in
      let copied : elements m' s ≡ read m p = sym (read-new_cond m' s) ∙ whole in
      unfold clone in
      new_cond-Bounded m' s
        (λ d. rw (read-allocate m (header m p).len d (read m p) (valid d).1) (b d))
        (rw copied (
          All-map (Below p) (Below (length m'.conds)) (read m p)
            (λ x. later p (length m'.conds) x (unfold allocate in omega arith)) (b p)))
    where
      whole :
          read
            (new_cond
              (allocate m (header m p).len (read m p)).0
              (allocate m (header m p).len (read m p)).1).0
            (new_cond
              (allocate m (header m p).len (read m p)).0
              (allocate m (header m p).len (read m p)).1).1
          ≡ read m p
      whole = unfold clone in read-clone m p

  nested-Bounded :
      (m : Store A) (p q : ℕ) (v : ℕ → CondValue A)
      → IsValid m
      → p < length m.conds
      → q < length m.conds
      → ((q : ℕ) → (v q).cond ≡ some q)
      → Bounded m
      → Bounded (add_cond grow (clone m p).0 (clone m p).1 (some q) v).0
  nested-Bounded m p q v valid there known holds b d =
      let m' = (clone m p).0 in
      let c = (clone m p).1 in
      let valid' = clone-IsValid m p valid in
      let b' = clone-Bounded m p valid there b in
      let full = clone-full m p (valid p).0 in
      elim (Bool-cases (c == d)) [
        | inl e ↦
            let same : c ≡ d = (==_iff c d).0 e in
            subst (λ (n : ℕ). All (Below n) (read (add_cond grow m' c (some q) v).0 n)) same
              (rw (read-add_cond grow m' c q v (valid' c).0 (length-clone m p)) (
                one_more c c (read m' c) (v q) (omega arith) (b' c)
                  (rw (holds q) (rw (clone-place m p) known))))
        | inr e ↦
            rw
              (read-add_cond_other grow m' c d q v (λ h. ground (arith, h))
                ∙ read-append_other grow m' (header m' c) d (v q) valid' (λ h. cc))
              (b' d)
      ]

  Effect-Bounded :
      (m : Store A) (p : ℕ) (r : Store A × ℕ)
      → IsValid m
      → p < length m.conds
      → Bounded m
      → Effect grow m p r
      → IsValid r.0 × Bounded r.0
  Effect-Bounded m p r valid there b (added v free e) =
      subst (λ (r : Store A × ℕ). IsValid r.0 × Bounded r.0) e
        (add_value-IsValid grow m p v valid, add_value-Bounded m p v valid there free b)
  Effect-Bounded m p r valid there b (nested none v known holds e) =
      subst (λ (r : Store A × ℕ). IsValid r.0 × Bounded r.0) e
        (unfold add_cond in (clone-IsValid m p valid, clone-Bounded m p valid there b))
  Effect-Bounded m p r valid there b (nested (some q) v known holds e) =
      subst (λ (r : Store A × ℕ). IsValid r.0 × Bounded r.0) e
        (
          add_cond-IsValid grow (clone m p).0 (clone m p).1 (some q) v (clone-IsValid m p valid),
          nested-Bounded m p q v valid there known holds b,
        )

  fresh-Bounded :
      (m : Store A)
      → IsValid m
      → Bounded m
      → IsValid (new_condition m).0 × Bounded (new_condition m).0
  unfolding new_condition elements array_of
  fresh-Bounded m valid b = (
    new_cond-IsValid m (record { array = none; len = 0 }) valid (omega arith, tt),
    new_cond-Bounded m (record { array = none; len = 0 }) b tt,
  )

  -- After NewCondition and any calls of the methods, on conditions that there are and with such conditions or nil as
  -- arguments, the slices lie within their arrays, and each condition holds only conditions older
  -- than itself, also where one call has written into the array of another condition.
  pub Reach-Bounded : {m : Store A} → Reach grow m → IsValid m × Bounded m
  Reach-Bounded start = empty-Bounded A
  Reach-Bounded (fresh {m} reached) =
      let (valid, b) = Reach-Bounded reached in fresh-Bounded m valid b
  Reach-Bounded (call {m} p r reached there c) =
      let (valid, b) = Reach-Bounded reached in
      Effect-Bounded m p r valid there b (Call-Effect grow m p r c)
