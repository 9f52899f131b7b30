-- ===== src/Common/Dict.antt =====
-- Go maps with string keys, as association lists.
use beego.Common.{
  ◌≡◌, refl, Bool, true, false, List, [], ◌∷◌, Option, none, some, arith, if◌then◌else◌, Text,
  text_eq, text_eq_iff, Bool-cases, inl, inr,
}

abbrev pub Dict {ℓ} : Type ℓ → Type ℓ
Dict V = List (Text × V)

module _ {ℓ} {V : Type ℓ} where
  unfoldable pub lookup : Text → Dict V → Option V
  lookup key [] = none
  lookup key ((j, v) ∷ entries) = if text_eq j key then some v else lookup key entries

  -- `m[k] = v`
  unfoldable pub insert : Text → V → Dict V → Dict V
  insert key v [] = (key, v) ∷ []
  insert key v ((j, old) ∷ entries) =
      if text_eq j key then (key, v) ∷ entries else (j, old) ∷ insert key v entries

  -- `delete(m, k)`
  unfoldable pub erase : Text → Dict V → Dict V
  erase key [] = []
  erase key ((j, old) ∷ entries) =
      let entries' = erase key entries in if text_eq j key then entries' else (j, old) ∷ entries'

  pub lookup-insert :
      (key j : Text) (v : V) (entries : Dict V)
      → lookup j (insert key v entries) ≡ (if text_eq key j then some v else lookup j entries)
  unfolding lookup insert
  lookup-insert key j v [] = refl
  lookup-insert key j v ((i, old) ∷ entries) =
      ground (
        arith,
        text_eq_iff key j,
        text_eq_iff i key,
        text_eq_iff i j,
        lookup-insert key j v entries,
      )

  pub lookup-erase :
      (key j : Text) (entries : Dict V)
      → lookup j (erase key entries) ≡ (if text_eq key j then none else lookup j entries)
  unfolding lookup erase
  lookup-erase key j [] = ground arith
  lookup-erase key j ((i, old) ∷ entries) =
      ground
        (arith, text_eq_iff key j, text_eq_iff i key, text_eq_iff i j, lookup-erase key j entries)

  -- Each key stands once, as in a Go map.
  abbrev pub Distinct : Dict V → Type ℓ
  Distinct [] = Unit
  Distinct ((key, v) ∷ entries) = (lookup key entries ≡ none) × Distinct entries

  pub insert-Distinct :
      (key : Text) (v : V) (entries : Dict V) → Distinct entries → Distinct (insert key v entries)
  unfolding insert lookup
  insert-Distinct key v [] d = (refl, tt)
  insert-Distinct key v ((j, old) ∷ entries) (absent, d) = elim (Bool-cases (text_eq j key)) [
    | inl same ↦ let e : j ≡ key = (text_eq_iff j key).0 same in rw same (rw e at absent, d)
    | inr other ↦ rw other (
      rw (lookup-insert key j v entries) (rw (flip other) absent),
      insert-Distinct key v entries d,
    )
  ]
    where
      flip : text_eq j key ≡ false → text_eq key j ≡ false
      flip h = ground (arith, text_eq_iff j key, text_eq_iff key j)

  pub erase-Distinct :
      (key : Text) (entries : Dict V) → Distinct entries → Distinct (erase key entries)
  unfolding erase lookup
  erase-Distinct key [] d = tt
  erase-Distinct key ((j, old) ∷ entries) (absent, d) = elim (Bool-cases (text_eq j key)) [
    | inl same ↦ rw same (erase-Distinct key entries d)
    | inr other ↦ rw other (
      rw (lookup-erase key j entries, absent) (if_same (text_eq key j)),
      erase-Distinct key entries d,
    )
  ]
    where
      if_same : (b : Bool) → ◌≡◌ {A = Option V} (if b then none else none) none
      if_same true = refl
      if_same false = refl
