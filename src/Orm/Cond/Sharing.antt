-- ===== src/Orm/Cond/Sharing.antt =====
-- client/orm/orm_conds.go: which conditions a method changes. The methods on a value append to the array
-- that the receiver has, so that two conditions made from one may share an element.
use beego.Common.{
  ℕ, zero, suc, ◌-◌, ◌≤◌, ◌<◌, ltb, ◌==◌, ◌≡◌, refl, sym, ap, ◌≢◌, true, false, List, [], ◌∷◌, ◌++◌,
  Option, none, some, arith, length, get_elem?, set, replicate, length-set, get_elem?-set_self,
  get_elem?-set_ne, get_elem?-append_last, get_elem?-append_left, get_elem?-some, Bool-cases,
  Option-cases, inl, inr, ltb→lt, ==_iff,
}
use beego.Orm.Cond.Store.{
  CondValue, Slice, Store, plain, or_nil, or_nil_slice, take, array_of, elements, header, write,
  allocate, new_cond, append,
}

module _ {ℓ} {A : Type ℓ} where
  pub take-set :
      (i n : ℕ) (vs : List (CondValue A)) (v : CondValue A)
      → n ≤ i
      → take n (set vs i v) ≡ take n vs
  take-set i zero vs v h = refl
  take-set i (suc n) [] v h = refl
  take-set zero (suc n) (x ∷ vs) v h = absurd (omega (arith, h))
  take-set (suc i) (suc n) (x ∷ vs) v h = ap (λ r. x ∷ r) (take-set i n vs v (omega arith))

  take-set_last :
      (i : ℕ) (vs : List (CondValue A)) (v : CondValue A)
      → i < length vs
      → take (suc i) (set vs i v) ≡ take i vs ++ (v ∷ [])
  take-set_last i [] v h = absurd (omega (arith, h))
  take-set_last zero (x ∷ vs) v h = refl
  take-set_last (suc i) (x ∷ vs) v h = ap (λ r. x ∷ r) (take-set_last i vs v (omega arith))

  take-append_last :
      (n : ℕ) (vs rest : List (CondValue A)) (v : CondValue A)
      → n ≤ length vs
      → take (suc n) (take n vs ++ (v ∷ rest)) ≡ take n vs ++ (v ∷ [])
  take-append_last zero vs rest v h = refl
  take-append_last (suc n) [] rest v h = absurd (omega (arith, h))
  take-append_last (suc n) (x ∷ vs) rest v h =
      ap (λ r. x ∷ r) (take-append_last n vs rest v (omega arith))

  -- The slice lies within its array, and a place that is written is one of the store.
  abbrev pub Fits : Store A → Slice → Type 0
  Fits m s = s.len ≤ length (array_of m s.array)

  pub array_of-write :
      (m : Store A) (b : Option ℕ) (i : ℕ) (v : CondValue A)
      → i < length (array_of m b)
      → array_of (write m b i v) b ≡ set (array_of m b) i v
  unfolding array_of write
  array_of-write m none i v h = absurd (omega (arith, h))
  array_of-write m (some a) i v h = elim (Option-cases (get_elem? m.arrays a)) [
    | inl e ↦ absurd (omega (arith, rw e at h))
    | inr (vs, e) ↦
        rw
          (get_elem?-set_self m.arrays a (set (or_nil (get_elem? m.arrays a)) i v)
            (get_elem?-some m.arrays a e))
          refl
  ]

  pub array_of-write_other :
      (m : Store A) (a : ℕ) (b : Option ℕ) (i : ℕ) (v : CondValue A)
      → b ≢ some a
      → array_of (write m (some a) i v) b ≡ array_of m b
  unfolding array_of write
  array_of-write_other m a none i v h = refl
  array_of-write_other m a (some b) i v h =
      rw
        (get_elem?-set_ne m.arrays {i = a} {j = b} (set (or_nil (get_elem? m.arrays a)) i v)
          (λ e. h (ap some (sym e))))
        refl

  pub take-write :
      (m : Store A) (b d : Option ℕ) (i n : ℕ) (v : CondValue A)
      → i < length (array_of m b)
      → (d ≡ b → n ≤ i)
      → take n (array_of (write m b i v) d) ≡ take n (array_of m d)
  unfolding write
  take-write m none d i n v h apart = refl
  take-write m (some a) none i n v h apart =
      ap (take n) (array_of-write_other m a none i v (λ e. cc))
  take-write m (some a) (some c) i n v h apart = elim (Bool-cases (c == a)) [
    | inl e ↦
        let same : ◌≡◌ {A = Option ℕ} (some c) (some a) = ap some ((==_iff c a).0 e) in
        rw (same, array_of-write m (some a) i v h)
          (take-set i n (array_of m (some a)) v (apart same))
    | inr e ↦ ap (take n) (array_of-write_other m a (some c) i v (λ q. ground (arith, q)))
  ]

  length-set_inner :
      (xs : List (List (CondValue A))) (a c i : ℕ) (v : CondValue A)
      → length (or_nil (get_elem? (set xs a (set (or_nil (get_elem? xs a)) i v)) c))
        ≡ length (or_nil (get_elem? xs c))
  length-set_inner [] a c i v = refl
  length-set_inner (x ∷ xs) zero zero i v = length-set x i v
  length-set_inner (x ∷ xs) zero (suc c) i v = refl
  length-set_inner (x ∷ xs) (suc a) zero i v = refl
  length-set_inner (x ∷ xs) (suc a) (suc c) i v = length-set_inner xs a c i v

  pub length-write :
      (m : Store A) (b d : Option ℕ) (i : ℕ) (v : CondValue A)
      → length (array_of (write m b i v) d) ≡ length (array_of m d)
  unfolding write array_of
  length-write m none d i v = refl
  length-write m (some a) none i v = refl
  length-write m (some a) (some c) i v = length-set_inner m.arrays a c i v

  -- A slice that the store may have: it lies within its array, and the array is one of the store.
  abbrev pub InStore : Store A → Option ℕ → Type 0
  InStore m none = Unit
  InStore m (some a) = a < length m.arrays

  pub array_of-allocate :
      (m : Store A) (b : Option ℕ) (n : ℕ) (vs : List (CondValue A))
      → InStore m b
      → array_of (allocate m n vs).0 b ≡ array_of m b
  unfolding array_of allocate
  array_of-allocate m none n vs h = refl
  array_of-allocate m (some b) n vs h = ap or_nil (get_elem?-append_left m.arrays (vs ∷ []) b h)

  pub array_of-allocated :
      (m : Store A) (n : ℕ) (vs : List (CondValue A))
      → array_of (allocate m n vs).0 (allocate m n vs).1.array ≡ vs
  unfolding array_of allocate
  array_of-allocated m n vs = ap or_nil (get_elem?-append_last m.arrays vs)

  pub header-new_cond : (m : Store A) (s : Slice) → header (new_cond m s).0 (new_cond m s).1 ≡ s
  unfolding header new_cond
  header-new_cond m s = ap or_nil_slice (get_elem?-append_last m.conds s)

  pub header-new_cond_other :
      (m : Store A) (s : Slice) (d : ℕ)
      → d < length m.conds
      → header (new_cond m s).0 d ≡ header m d
  unfolding header new_cond
  header-new_cond_other m s d h = ap or_nil_slice (get_elem?-append_left m.conds (s ∷ []) d h)

module _ {ℓ} {A : Type ℓ} (grow : ℕ → ℕ) where
  pub append_room :
      (m : Store A) (s : Slice) (v : CondValue A)
      → ltb s.len (length (array_of m s.array)) ≡ true
      → append grow m s v ≡ (write m s.array s.len v, record s { len = suc s.len })
  unfolding append
  append_room m s v room = rw room refl

  pub append_full :
      (m : Store A) (s : Slice) (v : CondValue A)
      → ltb s.len (length (array_of m s.array)) ≡ false
      → append grow m s v
        ≡ allocate m (suc s.len) (elements m s ++ (v ∷ replicate (grow s.len - suc s.len) plain))
  unfolding append
  append_full m s v full = rw full refl

  -- `append` gives the elements of the slice and the new one.
  pub elements-append :
      (m : Store A) (s : Slice) (v : CondValue A)
      → Fits m s
      → elements (append grow m s v).0 (append grow m s v).1 ≡ elements m s ++ (v ∷ [])
  unfolding elements allocate
  elements-append m s v fits = elim (Bool-cases (ltb s.len (length (array_of m s.array)))) [
    | inl room ↦
        let h = ltb→lt s.len (length (array_of m s.array)) room in
        rw (append_room m s v room)
          (rw (array_of-write m s.array s.len v h) (take-set_last s.len (array_of m s.array) v h))
    | inr full ↦ rw (append_full m s v full) (
        rw (array_of-allocated m (suc s.len) _)
          (take-append_last s.len (array_of m s.array) _ v fits))
  ]

  -- It changes no slice but a longer one of the same array.
  pub elements-append_other :
      (m : Store A) (s d : Slice) (v : CondValue A)
      → InStore m d.array
      → (ltb s.len (length (array_of m s.array)) ≡ true → d.array ≡ s.array → d.len ≤ s.len)
      → elements (append grow m s v).0 d ≡ elements m d
  unfolding elements
  elements-append_other m s d v there apart =
      elim (Bool-cases (ltb s.len (length (array_of m s.array)))) [
        | inl room ↦ rw (append_room m s v room) (
            take-write m s.array d.array s.len d.len v
              (ltb→lt s.len (length (array_of m s.array)) room) (apart room))
        | inr full ↦
            rw (append_full m s v full) (ap (take d.len) (array_of-allocate m d.array _ _ there))
      ]
