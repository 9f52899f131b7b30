-- ===== src/Common/Texts.antt =====
-- Go strings as lists of code points, their equality, and the splitting functions of the package
-- strings that the program calls.
use Prim.Native.Char.{code}
use Prim.Native.Nat.{ℕ}
use Prim.Native.String.{String}
use mathlib.Core.Bool.{Bool, true, false, ◌&&◌, ◌||◌}
use mathlib.Core.List.{List, [], ◌∷◌, ◌++◌, reverse}
use mathlib.Core.Logic.{◌↔◌, inl, inr}
use mathlib.Core.Path.{◌≡◌, refl, sym, ap, ◌∙◌}
use native.Mathlib.Omega.{arith}
use beego.Common.Tests.{◌==◌, if◌then◌else◌, Bool-cases}
use beego.Common.Lists.{append_nil, reverse_aux-append}

abbrev pub Text : Type 0
Text = List ℕ

-- The code points of a literal.
abbrev pub codes : String → Text
codes String.[] = []
codes (String.◌∷◌ c s) = code c ∷ codes s

abbrev pub text_eq : Text → Text → Bool
text_eq [] [] = true
text_eq [] (_ ∷ _) = false
text_eq (_ ∷ _) [] = false
text_eq (c ∷ s) (d ∷ t) = (c == d) && text_eq s t

pub text_eq_sound : (s t : Text) → text_eq s t ≡ true → s ≡ t
text_eq_sound [] [] h = refl
text_eq_sound [] (_ ∷ _) h = ground arith
text_eq_sound (_ ∷ _) [] h = ground arith
text_eq_sound (c ∷ s) (d ∷ t) h = ground (arith, text_eq_sound s t)

pub text_eq_refl : (s : Text) → text_eq s s ≡ true
text_eq_refl [] = refl
text_eq_refl (c ∷ s) = ground (arith, text_eq_refl s)

pub text_eq_iff : (s t : Text) → (text_eq s t ≡ true) ↔ (s ≡ t)
text_eq_iff s t = (text_eq_sound s t, λ e. rw e (text_eq_refl t))

-- `strings.Split(s, sep)` for a separator of one character: always at least one part. The current
-- part is kept reversed.
split_from : ℕ → Text → Text → List Text
split_from sep part [] = reverse part ∷ []
split_from sep part (c ∷ s) =
    let closed = reverse part ∷ split_from sep [] s in
    let longer = split_from sep (c ∷ part) s in if c == sep then closed else longer

unfoldable pub split : ℕ → Text → List Text
unfolding split_from
split sep s = split_from sep [] s

-- `strings.Join(elems, sep)`
unfoldable pub join : Text → List Text → Text
join sep [] = []
join sep (s ∷ []) = s
join sep (s ∷ t ∷ elems) = s ++ (sep ++ join sep (t ∷ elems))

longer : (part : Text) (c : ℕ) (s : Text) → reverse (c ∷ part) ++ s ≡ reverse part ++ c ∷ s
longer part c s = sym (reverse_aux-append part (c ∷ []) s) ∙ reverse_aux-append part [] (c ∷ s)

eq_self : (c : ℕ) → c == c ≡ true
eq_self c = ground arith

split_from-nonempty :
    (sep : ℕ) (part s : Text)
    → (t : Text) × (parts : List Text) × (split_from sep part s ≡ t ∷ parts)
unfolding split_from
split_from-nonempty sep part [] = (reverse part, [], refl)
split_from-nonempty sep part (c ∷ s) = elim (Bool-cases (c == sep)) [
  | inl e ↦ (reverse part, split_from sep [] s, rw e refl)
  | inr e ↦ rw e (split_from-nonempty sep (c ∷ part) s)
]

join_closed :
    (sep : ℕ) (part s : Text) (parts : List Text)
    → ((t : Text) × (rest : List Text) × (parts ≡ t ∷ rest))
    → join (sep ∷ []) parts ≡ s
    → join (sep ∷ []) (part ∷ parts) ≡ part ++ sep ∷ s
unfolding join
join_closed sep part s parts (t, rest, e) h = rw e (ap (λ r. part ++ sep ∷ r) (rw e at h))

-- Splitting at a character and joining by it again gives the text back.
join-split_from :
    (sep : ℕ) (part s : Text) → join (sep ∷ []) (split_from sep part s) ≡ reverse part ++ s
unfolding split_from join
join-split_from sep part [] = sym (append_nil (reverse part))
join-split_from sep part (c ∷ s) = elim (Bool-cases (c == sep)) [
  | inl e ↦
      rw (e, same c sep e)
        (join_closed sep (reverse part) s (split_from sep [] s) (split_from-nonempty sep [] s)
          (join-split_from sep [] s))
  | inr e ↦ rw e (join-split_from sep (c ∷ part) s ∙ longer part c s)
]
  where
    same : (a b : ℕ) → a == b ≡ true → a ≡ b
    same a b h = ground arith

pub join-split : (sep : ℕ) (s : Text) → join (sep ∷ []) (split sep s) ≡ s
unfolding split
join-split sep s = join-split_from sep [] s

unfoldable pub holds : ℕ → Text → Bool
holds c [] = false
holds c (d ∷ s) = (d == c) || holds c s

split_from-free :
    (sep : ℕ) (part s : Text)
    → holds sep s ≡ false
    → split_from sep part s ≡ (reverse part ++ s) ∷ []
unfolding split_from holds
split_from-free sep part [] h = ap (λ r. r ∷ []) (sym (append_nil (reverse part)))
split_from-free sep part (c ∷ s) h = elim (Bool-cases (c == sep)) [
  | inl e ↦ ground arith
  | inr e ↦ rw e (split_from-free sep (c ∷ part) s (rw e at h) ∙ ap (λ r. r ∷ []) (longer part c s))
]

split_from-append :
    (sep : ℕ) (part s t : Text)
    → holds sep s ≡ false
    → split_from sep part (s ++ sep ∷ t) ≡ (reverse part ++ s) ∷ split_from sep [] t
unfolding split_from holds
split_from-append sep part [] t h = rw (eq_self sep, append_nil (reverse part)) refl
split_from-append sep part (c ∷ s) t h = elim (Bool-cases (c == sep)) [
  | inl e ↦ ground arith
  | inr e ↦ rw e (
      split_from-append sep (c ∷ part) s t (rw e at h)
      ∙ ap (λ r. r ∷ split_from sep [] t) (longer part c s))
]

pub split-free : (sep : ℕ) (s : Text) → holds sep s ≡ false → split sep s ≡ s ∷ []
unfolding split
split-free sep s h = split_from-free sep [] s h

pub split-append :
    (sep : ℕ) (s t : Text) → holds sep s ≡ false → split sep (s ++ sep ∷ t) ≡ s ∷ split sep t
unfolding split
split-append sep s t h = split_from-append sep [] s t h

-- A text with one separator splits into its two sides.
pub split-pair :
    (sep : ℕ) (s t : Text)
    → holds sep s ≡ false
    → holds sep t ≡ false
    → split sep (s ++ sep ∷ t) ≡ s ∷ t ∷ []
unfolding split
split-pair sep s t hs ht =
    split_from-append sep [] s t hs ∙ ap (λ r. s ∷ r) (split_from-free sep [] t ht)

-- `strings.FieldsFunc(s, f)`: the maximal runs of characters that `f` rejects.
fields_from : (ℕ → Bool) → Text → Text → List Text
fields_from is_sep [] [] = []
fields_from is_sep (d ∷ part) [] = reverse (d ∷ part) ∷ []
fields_from is_sep [] (c ∷ s) =
    let skipped = fields_from is_sep [] s in
    let begun = fields_from is_sep (c ∷ []) s in if is_sep c then skipped else begun
fields_from is_sep (d ∷ part) (c ∷ s) =
    let closed = reverse (d ∷ part) ∷ fields_from is_sep [] s in
    let longer = fields_from is_sep (c ∷ d ∷ part) s in if is_sep c then closed else longer

unfoldable pub fields_func : (ℕ → Bool) → Text → List Text
unfolding fields_from
fields_func is_sep s = fields_from is_sep [] s
