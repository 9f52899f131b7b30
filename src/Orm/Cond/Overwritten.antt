-- ===== src/Orm/Cond/Overwritten.antt =====
-- client/orm/orm_conds.go: two conditions made from one by the methods on a value.
use beego.Common.{
  ℕ, suc, ◌<◌, ◌≡◌, subst, sym, ap, ◌∙◌, true, List, [], ◌∷◌, ◌++◌, arith, length, get_elem?,
  length-append, Text, Bool-cases, inl, inr,
}
use beego.Common.Outcome.{ok, ok-injective}
use beego.Orm.Cond.Store.{
  CondValue, Slice, Store, plain, elements, header, read, new_cond, or_nil_slice, append, add_value,
  no_args, and_expr, split_sep,
}
use beego.Orm.Cond.Sharing.{length-write, header-new_cond, header-new_cond_other, append_room}
use beego.Orm.Cond.Valid.{add_value-IsValid}
use beego.Orm.Cond.Methods.{IsValid, room, array_of-new_cond, append-conds, add_value_lem}

-- What `And` appends.
abbrev pub expression {ℓ} : {A : Type ℓ} → Text → List A → CondValue A
expression expr args = record plain { exprs = split_sep expr; args = args }

module _ {ℓ} {A : Type ℓ} (grow : ℕ → ℕ) where
  length-add_value :
      (m : Store A) (p : ℕ) (v : CondValue A)
      → ((add_value grow m p v).1 ≡ length m.conds)
        × (length (add_value grow m p v).0.conds ≡ suc (length m.conds))
  unfolding add_value new_cond
  length-add_value m p v = (
    ap length (append-conds grow m (header m p) v),
    omega (
      arith,
      length-append (append grow m (header m p) v).0.conds ((append grow m (header m p) v).1 ∷ []),
      ap length (append-conds grow m (header m p) v),
    ),
  )

  header-add_value :
      (m : Store A) (p : ℕ) (v : CondValue A)
      → room m (header m p) ≡ true
      → header (add_value grow m p v).0 (add_value grow m p v).1
        ≡ record (header m p) { len = suc (header m p).len }
  unfolding add_value
  header-add_value m p v h =
      header-new_cond (append grow m (header m p) v).0 (append grow m (header m p) v).1
      ∙ ap (λ r. r.1) (append_room grow m (header m p) v h)

  header-add_value_other :
      (m : Store A) (p d : ℕ) (v : CondValue A)
      → d < length m.conds
      → header (add_value grow m p v).0 d ≡ header m d
  unfolding add_value
  header-add_value_other m p d v there =
      header-new_cond_other (append grow m (header m p) v).0 (append grow m (header m p) v).1 d
        (rw (append-conds grow m (header m p) v) there)
      ∙ (unfold header in
          ap (λ cs. or_nil_slice (get_elem? cs d)) (append-conds grow m (header m p) v))

  room-add_value :
      (m : Store A) (p : ℕ) (v : CondValue A)
      → room m (header m p) ≡ true
      → room (add_value grow m p v).0 (header m p) ≡ true
  unfolding add_value
  room-add_value m p v h =
      let s = header m p in
      rw (array_of-new_cond (append grow m s v).0 (append grow m s v).1 s.array)
        (rw (append_room grow m s v h) (rw (length-write m s.array s.array s.len v) h))

  twice :
      (m : Store A) (p : ℕ) (v w : CondValue A)
      → IsValid m
      → p < length m.conds
      → room m (header m p) ≡ true
      → (read (add_value grow (add_value grow m p v).0 p w).0 (add_value grow m p v).1
          ≡ read m p ++ (w ∷ []))
        × (read
              (add_value grow (add_value grow m p v).0 p w).0
              (add_value grow (add_value grow m p v).0 p w).1
            ≡ read m p ++ (w ∷ []))
  twice m p v w valid there h =
      let m' = (add_value grow m p v).0 in
      let a = (add_value grow m p v).1 in
      let m'' = (add_value grow m' p w).0 in
      let b = (add_value grow m' p w).1 in
      let same : header m' p ≡ header m p = header-add_value_other m p p v there in
      let h' : room m' (header m' p) ≡ true = rw same (room-add_value m p v h) in
      let first = header-add_value m p v h in
      let kept : header m'' a ≡ header m' a =
        header-add_value_other m' p a w (omega (arith, length-add_value m p v)) in
      let second : header m'' b ≡ record (header m' p) { len = suc (header m' p).len } =
        header-add_value m' p w h' in
      let now : read m'' b ≡ read m p ++ (w ∷ []) =
        (add_value_lem grow m' p p w (add_value-IsValid grow m p v valid)
          (omega (arith, there, length-add_value m p v)) (λ x y. omega arith)).0
        ∙ ap (λ vs. vs ++ (w ∷ []))
            (add_value_lem grow m p p v valid there (λ x y. omega arith)).1 in
      let one : header m'' a ≡ header m'' b =
        kept ∙ first ∙ sym (ap (λ (s : Slice). record s { len = suc s.len }) same) ∙ sym second in
      let alike : read m'' a ≡ read m'' b = unfold read in ap (elements m'') one in
      (alike ∙ now, now)

  and_expr-ok :
      (m : Store A) (p : ℕ) (expr : Text) (args : List A) {r : Store A × ℕ}
      → and_expr grow m p expr args ≡ ok r
      → add_value grow m p (expression expr args) ≡ r
  unfolding and_expr
  and_expr-ok m p expr args h = elim (Bool-cases (no_args expr args)) [
    | inl bad ↦ cc
    | inr good ↦ ok-injective (rw good at h)
  ]

  -- Two calls of And on one condition whose array has room: the second writes over the element that the first
  -- appended, and both conditions read as the receiver with the second expression.
  pub and_expr-twice :
      (m : Store A) (p : ℕ) (expr expr' : Text) (args args' : List A) (one two : Store A × ℕ)
      → IsValid m
      → p < length m.conds
      → room m (header m p) ≡ true
      → and_expr grow m p expr args ≡ ok one
      → and_expr grow one.0 p expr' args' ≡ ok two
      → (read one.0 one.1 ≡ read m p ++ (expression expr args ∷ []))
        × (read two.0 one.1 ≡ read m p ++ (expression expr' args' ∷ []))
        × (read two.0 two.1 ≡ read m p ++ (expression expr' args' ∷ []))
  and_expr-twice m p expr expr' args args' one two valid there h e f =
      let v = expression expr args in
      let w = expression expr' args' in
      let one_is = and_expr-ok m p expr args e in
      let two_is = and_expr-ok one.0 p expr' args' f in
      let Overwritten : Store A × ℕ → Store A × ℕ → Type ℓ =
        λ r s. (read s.0 r.1 ≡ read m p ++ (w ∷ [])) × (read s.0 s.1 ≡ read m p ++ (w ∷ [])) in
      let later : Overwritten one two =
        subst
          (λ (r : Store A × ℕ). (s : Store A × ℕ) → add_value grow r.0 p w ≡ s → Overwritten r s)
          one_is
          (λ s q.
            subst (λ (s : Store A × ℕ). Overwritten (add_value grow m p v) s) q
              (twice m p v w valid there h))
          two two_is in
      (
        subst (λ (r : Store A × ℕ). read r.0 r.1 ≡ read m p ++ (v ∷ [])) one_is
            (add_value_lem grow m p p v valid there (λ x y. omega arith)).0,
        later.0,
        later.1,
      )
