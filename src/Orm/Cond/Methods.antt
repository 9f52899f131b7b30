-- ===== src/Orm/Cond/Methods.antt =====
-- client/orm/orm_conds.go: what the methods of `Condition` return, and what they do to other conditions.
use beego.Common.{
  ℕ, zero, suc, ◌≤◌, ◌<◌, ltb, ◌≡◌, refl, ap, ◌∙◌, Bool, true, false, List, [], ◌∷◌, ◌++◌, Option,
  none, some, arith, length, get_elem?, Bool-cases, inl, inr,
}
use beego.Orm.Cond.Store.{
  CondValue, Slice, Store, or_nil_slice, take, array_of, elements, header, read, write, allocate,
  new_cond, clone, append, add_value,
}
use beego.Orm.Cond.Sharing.{
  Fits, InStore, array_of-allocate, array_of-allocated, header-new_cond, header-new_cond_other,
  elements-append, elements-append_other, append_full, append_room,
}

-- The slices of the conditions lie within arrays of the store.
abbrev pub IsValid {ℓ} : {A : Type ℓ} → Store A → Type 0
IsValid m = (p : ℕ) → Fits m (header m p) × InStore m (header m p).array

module _ {ℓ} {A : Type ℓ} where
  -- The conditions of the store do not matter to its arrays.
  pub array_of-conds :
      (m : Store A) (cs : List Slice) (b : Option ℕ)
      → array_of (record m { conds = cs }) b ≡ array_of m b
  unfolding array_of
  array_of-conds m cs none = refl
  array_of-conds m cs (some a) = refl

  pub array_of-new_cond :
      (m : Store A) (s : Slice) (b : Option ℕ) → array_of (new_cond m s).0 b ≡ array_of m b
  unfolding new_cond
  array_of-new_cond m s b = array_of-conds m (m.conds ++ (s ∷ [])) b

  pub read-new_cond :
      (m : Store A) (s : Slice) → read (new_cond m s).0 (new_cond m s).1 ≡ elements m s
  unfolding read elements
  read-new_cond m s =
      rw (header-new_cond m s) (ap (take s.len) (unfold new_cond in array_of-conds m _ s.array))

  pub read-new_cond_other :
      (m : Store A) (s : Slice) (d : ℕ) → d < length m.conds → read (new_cond m s).0 d ≡ read m d
  unfolding read elements
  read-new_cond_other m s d h =
      rw (header-new_cond_other m s d h)
        (ap (take (header m d).len) (unfold new_cond in array_of-conds m _ (header m d).array))

  take-take : (n : ℕ) (vs : List (CondValue A)) → take n (take n vs) ≡ take n vs
  take-take zero vs = refl
  take-take (suc n) [] = refl
  take-take (suc n) (v ∷ vs) = ap (λ r. v ∷ r) (take-take n vs)

  pub length-take : (n : ℕ) (vs : List (CondValue A)) → n ≤ length vs → length (take n vs) ≡ n
  length-take zero vs h = refl
  length-take (suc n) [] h = absurd (omega (arith, h))
  length-take (suc n) (v ∷ vs) h = ap suc (length-take n vs (omega arith))

  pub read-allocate :
      (m : Store A) (n d : ℕ) (vs : List (CondValue A))
      → InStore m (header m d).array
      → read (allocate m n vs).0 d ≡ read m d
  unfolding read elements header allocate
  read-allocate m n d vs h =
      ap (take (header m d).len) (array_of-allocate m (header m d).array n vs h)

  pub read-clone : (m : Store A) (p : ℕ) → read (clone m p).0 (clone m p).1 ≡ read m p
  unfolding clone read elements
  read-clone m p =
      let n = (header m p).len in
      let vs = take n (array_of m (header m p).array) in
      let m' = (allocate m n vs).0 in
      let s = (allocate m n vs).1 in
      read-new_cond m' s
      ∙ (ap (take s.len) (array_of-allocated m n vs)
          ∙ (unfold allocate in take-take n (array_of m (header m p).array)))

  pub read-clone_other :
      (m : Store A) (p d : ℕ) → IsValid m → d < length m.conds → read (clone m p).0 d ≡ read m d
  unfolding clone
  read-clone_other m p d valid there =
      let n = (header m p).len in
      let vs = read m p in
      read-new_cond_other (allocate m n vs).0 (allocate m n vs).1 d (unfold allocate in there)
      ∙ read-allocate m n d vs (valid d).1

  abbrev pub room : Store A → Slice → Bool
  room m s = ltb s.len (length (array_of m s.array))

  pub length-read :
      (m : Store A) (p : ℕ) → Fits m (header m p) → length (read m p) ≡ (header m p).len
  unfolding read elements
  length-read m p fits = length-take (header m p).len (array_of m (header m p).array) fits

  -- The copy fills its array.
  pub clone-full :
      (m : Store A) (p : ℕ)
      → Fits m (header m p)
      → room (clone m p).0 (header (clone m p).0 (clone m p).1) ≡ false
  unfolding clone
  clone-full m p fits =
      let n = (header m p).len in
      let vs = read m p in
      let m' = (allocate m n vs).0 in
      let s = (allocate m n vs).1 in
      rw
        (
          header-new_cond m' s,
          array_of-new_cond m' s s.array,
          array_of-allocated m n vs,
          length-read m p fits,
        )
        (unfold allocate in ground arith)

module _ {ℓ} {A : Type ℓ} (grow : ℕ → ℕ) where
  pub append-conds :
      (m : Store A) (s : Slice) (v : CondValue A) → (append grow m s v).0.conds ≡ m.conds
  append-conds m s v = elim (Bool-cases (ltb s.len (length (array_of m s.array)))) [
    | inl h ↦ rw (append_room grow m s v h) (write-conds s.array)
    | inr full ↦ rw (append_full grow m s v full) (unfold allocate in refl)
  ]
    where
      write-conds : (b : Option ℕ) → (write m b s.len v).conds ≡ m.conds
      write-conds none = unfold write in refl
      write-conds (some a) = unfold write in refl

  pub read-append_other :
      (m : Store A) (s : Slice) (d : ℕ) (v : CondValue A)
      → IsValid m
      → (room m s ≡ true → (header m d).array ≡ s.array → (header m d).len ≤ s.len)
      → read (append grow m s v).0 d ≡ read m d
  unfolding read header
  read-append_other m s d v valid apart =
      ap (λ cs. elements (append grow m s v).0 (or_nil_slice (get_elem? cs d))) (append-conds m s v)
      ∙ elements-append_other grow m s (header m d) v (valid d).1 apart

  -- A method on a value returns the elements of the receiver and the new one, and changes no condition but one
  -- that is longer in the array of the receiver.
  pub add_value_lem :
      (m : Store A) (p d : ℕ) (v : CondValue A)
      → IsValid m
      → d < length m.conds
      → (room m (header m p) ≡ true
          → (header m d).array ≡ (header m p).array
          → (header m d).len ≤ (header m p).len)
      → (read (add_value grow m p v).0 (add_value grow m p v).1 ≡ read m p ++ (v ∷ []))
        × (read (add_value grow m p v).0 d ≡ read m d)
  unfolding add_value read elements
  add_value_lem m p d v valid there apart =
      let m' = (append grow m (header m p) v).0 in
      let s = (append grow m (header m p) v).1 in
      (
        read-new_cond m' s ∙ elements-append grow m (header m p) v (valid p).0,
        read-new_cond_other m' s d (rw (append-conds m (header m p) v) there)
            ∙ read-append_other m (header m p) d v valid apart,
      )
