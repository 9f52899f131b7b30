-- ===== src/Orm/Cond/Valid.antt =====
-- client/orm/orm_conds.go: each method keeps the slices of the conditions within their arrays.
use beego.Common.{
  ℕ, zero, suc, ◌-◌, ◌≤◌, ◌⊎◌, ◌≡◌, refl, List, [], ◌∷◌, ◌++◌, Option, none, some, arith, length,
  get_elem?, set, replicate, length-append, length-set, Bool-cases, inl, inr, ltb→lt,
}
use beego.Orm.Cond.Store.{
  CondValue, Slice, Store, plain, or_nil_slice, array_of, elements, header, read, write, allocate,
  new_cond, clone, append, add_value, add_cond,
}
use beego.Orm.Cond.Sharing.{
  Fits, InStore, array_of-allocate, array_of-allocated, append_room, append_full, length-write,
}
use beego.Orm.Cond.Methods.{IsValid, room, array_of-conds, length-take, length-read, append-conds}

pub one_of :
    (cs : List Slice) (s : Slice) (p : ℕ)
    → (or_nil_slice (get_elem? (cs ++ (s ∷ [])) p) ≡ or_nil_slice (get_elem? cs p))
      ⊎ (or_nil_slice (get_elem? (cs ++ (s ∷ [])) p) ≡ s)
one_of [] s zero = inr refl
one_of [] s (suc p) = inl refl
one_of (c ∷ cs) s zero = inl refl
one_of (c ∷ cs) s (suc p) = one_of cs s p

one_of_set :
    (cs : List Slice) (i : ℕ) (s : Slice) (p : ℕ)
    → (or_nil_slice (get_elem? (set cs i s) p) ≡ or_nil_slice (get_elem? cs p))
      ⊎ (or_nil_slice (get_elem? (set cs i s) p) ≡ s)
one_of_set [] i s p = inl refl
one_of_set (c ∷ cs) zero s zero = inr refl
one_of_set (c ∷ cs) zero s (suc p) = inl refl
one_of_set (c ∷ cs) (suc i) s zero = inl refl
one_of_set (c ∷ cs) (suc i) s (suc p) = one_of_set cs i s p

module _ {ℓ} {A : Type ℓ} where
  abbrev pub Ok : Store A → Slice → Type 0
  Ok m s = Fits m s × InStore m s.array

  length-elements : (m : Store A) (s : Slice) → Fits m s → length (elements m s) ≡ s.len
  unfolding elements
  length-elements m s fits = length-take s.len (array_of m s.array) fits

  InStore-write :
      (m : Store A) (a b : Option ℕ) (i : ℕ) (v : CondValue A)
      → InStore m b
      → InStore (write m a i v) b
  unfolding write
  InStore-write m none b i v h = h
  InStore-write m (some a) none i v h = tt
  InStore-write m (some a) (some b) i v h =
      omega (arith, length-set m.arrays a (set (array_of m (some a)) i v))

  Ok-write :
      (m : Store A) (a : Option ℕ) (s : Slice) (i : ℕ) (v : CondValue A)
      → Ok m s
      → Ok (write m a i v) s
  Ok-write m a s i v (fits, there) =
      (rw (length-write m a s.array i v) fits, InStore-write m a s.array i v there)

  InStore-allocate :
      (m : Store A) (b : Option ℕ) (n : ℕ) (vs : List (CondValue A))
      → InStore m b
      → InStore (allocate m n vs).0 b
  unfolding allocate
  InStore-allocate m none n vs h = tt
  InStore-allocate m (some b) n vs h = omega (arith, length-append m.arrays (vs ∷ []))

  Ok-allocate :
      (m : Store A) (s : Slice) (n : ℕ) (vs : List (CondValue A))
      → Ok m s
      → Ok (allocate m n vs).0 s
  Ok-allocate m s n vs (fits, there) =
      (rw (array_of-allocate m s.array n vs there) fits, InStore-allocate m s.array n vs there)

  Ok-allocated :
      (m : Store A) (n : ℕ) (vs : List (CondValue A))
      → n ≤ length vs
      → Ok (allocate m n vs).0 (allocate m n vs).1
  Ok-allocated m n vs h = (
    rw (array_of-allocated m n vs) (unfold allocate in h),
    unfold allocate in omega (arith, length-append m.arrays (vs ∷ [])),
  )

  InStore-conds :
      (m : Store A) (cs : List Slice) (b : Option ℕ)
      → InStore m b
      → InStore (record m { conds = cs }) b
  InStore-conds m cs none h = tt
  InStore-conds m cs (some b) h = h

  pub Ok-conds :
      (m : Store A) (cs : List Slice) (s : Slice) → Ok m s → Ok (record m { conds = cs }) s
  Ok-conds m cs s (fits, there) =
      (rw (array_of-conds m cs s.array) fits, InStore-conds m cs s.array there)

  pub new_cond-IsValid : (m : Store A) (s : Slice) → IsValid m → Ok m s → IsValid (new_cond m s).0
  unfolding new_cond header
  new_cond-IsValid m s valid fine p = elim (one_of m.conds s p) [
    | inl e ↦ rw e (Ok-conds m (m.conds ++ (s ∷ [])) _ (valid p))
    | inr e ↦ rw e (Ok-conds m (m.conds ++ (s ∷ [])) s fine)
  ]

  pub set-IsValid :
      (m : Store A) (c : ℕ) (s : Slice)
      → IsValid m
      → Ok m s
      → IsValid (record m { conds = set m.conds c s })
  unfolding header
  set-IsValid m c s valid fine p = elim (one_of_set m.conds c s p) [
    | inl e ↦ rw e (Ok-conds m (set m.conds c s) _ (valid p))
    | inr e ↦ rw e (Ok-conds m (set m.conds c s) s fine)
  ]

  allocated_header :
      (m : Store A) (n : ℕ) (vs : List (CondValue A)) (q : ℕ)
      → Ok (allocate m n vs).0 (header m q)
      → Ok (allocate m n vs).0 (header (allocate m n vs).0 q)
  unfolding header allocate
  allocated_header m n vs q fine = fine

  pub clone-IsValid : (m : Store A) (p : ℕ) → IsValid m → IsValid (clone m p).0
  unfolding clone
  clone-IsValid m p valid =
      let n = (header m p).len in
      let vs = read m p in
      new_cond-IsValid (allocate m n vs).0 (allocate m n vs).1
        (λ q. allocated_header m n vs q (Ok-allocate m (header m q) n vs (valid q)))
        (Ok-allocated m n vs (omega (arith, length-read m p (valid p).0)))

module _ {ℓ} {A : Type ℓ} (grow : ℕ → ℕ) where
  append-Ok : (m : Store A) (s d : Slice) (v : CondValue A) → Ok m d → Ok (append grow m s v).0 d
  append-Ok m s d v fine = elim (Bool-cases (room m s)) [
    | inl h ↦ rw (append_room grow m s v h) (Ok-write m s.array d s.len v fine)
    | inr h ↦ rw (append_full grow m s v h) (Ok-allocate m d _ _ fine)
  ]

  append-Ok_new :
      (m : Store A) (s : Slice) (v : CondValue A)
      → Ok m s
      → Ok (append grow m s v).0 (append grow m s v).1
  append-Ok_new m s v (fits, there) = elim (Bool-cases (room m s)) [
    | inl h ↦ rw (append_room grow m s v h) (
      rw (length-write m s.array s.array s.len v)
          (omega (arith, ltb→lt s.len (length (array_of m s.array)) h)),
      InStore-write m s.array s.array s.len v there,
    )
    | inr h ↦ rw (append_full grow m s v h) (Ok-allocated m (suc s.len) _ long_enough)
  ]
    where
      long_enough :
          suc s.len ≤ length (elements m s ++ (v ∷ replicate (grow s.len - suc s.len) plain))
      long_enough = omega (
        arith,
        length-append (elements m s) (v ∷ replicate (grow s.len - suc s.len) plain),
        length-elements m s fits,
      )

  append-IsValid :
      (m : Store A) (s : Slice) (v : CondValue A) → IsValid m → IsValid (append grow m s v).0
  unfolding header
  append-IsValid m s v valid p =
      rw (append-conds grow m s v) (append-Ok m s (or_nil_slice (get_elem? m.conds p)) v (valid p))

  pub add_value-IsValid :
      (m : Store A) (p : ℕ) (v : CondValue A) → IsValid m → IsValid (add_value grow m p v).0
  unfolding add_value
  add_value-IsValid m p v valid =
      new_cond-IsValid (append grow m (header m p) v).0 (append grow m (header m p) v).1
        (append-IsValid m (header m p) v valid) (append-Ok_new m (header m p) v (valid p))

  pub add_cond-IsValid :
      (m : Store A) (c : ℕ) (cond : Option ℕ) (v : ℕ → CondValue A)
      → IsValid m
      → IsValid (add_cond grow m c cond v).0
  unfolding add_cond
  add_cond-IsValid m c none v valid = valid
  add_cond-IsValid m c (some q) v valid =
      set-IsValid (append grow m (header m c) (v q)).0 c (append grow m (header m c) (v q)).1
        (append-IsValid m (header m c) (v q) valid) (append-Ok_new m (header m c) (v q) (valid c))
