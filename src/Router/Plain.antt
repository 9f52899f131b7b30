-- ===== src/Router/Plain.antt =====
-- server/web/tree.go: segments without wildcards, and the paths that are made of them.
use beego.Common.{
  ℕ, ◌≡◌, refl, ap, ◌∙◌, Bool, true, false, not, ◌&&◌, ◌||◌, ◌==◌, if◌then◌else◌, List, [], ◌∷◌,
  ◌++◌, reverse, arith, Text, codes, split, holds, split-free, split-append, append_nil,
}
use mathlib.Core.List.{reverse-append, reverse-reverse}
use beego.Common.Paths.{trim, trim_left, trim_right, has_prefix, cut_at}
use beego.Router.Segment.{is_empty, split_path, split_segment}

-- A segment of a path: without slashes, and such that trimming leaves it as it is.
unfoldable pub is_clean : Text → Bool
is_clean seg = not (is_empty seg) && (not (holds b'/' seg) && not (holds b' ' seg))

abbrev pub all_clean : List Text → Bool
all_clean [] = true
all_clean (seg ∷ segs) = is_clean seg && all_clean segs

-- A segment of a route that is no wildcard.
unfoldable pub is_fixed : Text → Bool
is_fixed seg = not (holds b':' seg) && not (has_prefix seg (codes "*"))

abbrev pub is_plain : Text → Bool
is_plain seg = is_clean seg && is_fixed seg

abbrev pub all_plain : List Text → Bool
all_plain [] = true
all_plain (seg ∷ segs) = is_plain seg && all_plain segs

pub all_plain-clean : (segs : List Text) → all_plain segs ≡ true → all_clean segs ≡ true
all_plain-clean [] h = refl
all_plain-clean (seg ∷ segs) h = ground (arith, all_plain-clean segs)

-- The path of the segments.
unfoldable pub slashed : List Text → Text
slashed [] = []
slashed (seg ∷ segs) = b'/' ∷ (seg ++ slashed segs)

pub split_segment-plain :
    (seg : Text)
    → is_plain seg ≡ true
    → split_segment seg ≡ record { iswild = false; params = []; regexp_str = [] }
unfolding is_fixed split_segment
split_segment-plain seg h = ground arith

pub clean-no_slash : (seg : Text) → is_clean seg ≡ true → holds b'/' seg ≡ false
unfolding is_clean
clean-no_slash seg h = ground arith

pub clean-cons :
    (seg : Text)
    → is_clean seg ≡ true
    → (c : ℕ) × (s : Text) × (seg ≡ c ∷ s) × ((c == b'/') ≡ false) × ((c == b' ') ≡ false)
unfolding is_clean holds
clean-cons [] h = cc
clean-cons (c ∷ s) h = (c, s, refl, ground arith, ground arith)

cut_at-free : (sep : ℕ) (s : Text) → holds sep s ≡ false → cut_at sep s ≡ (s, [])
unfolding cut_at holds
cut_at-free sep [] h = refl
cut_at-free sep (c ∷ s) h = ground (arith, cut_at-free sep s)

cut_at-append :
    (sep : ℕ) (s t : Text) → holds sep s ≡ false → cut_at sep (s ++ sep ∷ t) ≡ (s, sep ∷ t)
unfolding cut_at holds
cut_at-append sep [] t h = ground arith
cut_at-append sep (c ∷ s) t h = ground (arith, cut_at-append sep s t)

-- The first segment is cut off.
pub cut_at-slashed :
    (seg : Text) (segs : List Text)
    → is_clean seg ≡ true
    → cut_at b'/' (seg ++ slashed segs) ≡ (seg, slashed segs)
unfolding slashed
cut_at-slashed seg [] h =
    ap (cut_at b'/') (append_nil seg) ∙ cut_at-free b'/' seg (clean-no_slash seg h)
cut_at-slashed seg (s ∷ segs) h = cut_at-append b'/' seg (s ++ slashed segs) (clean-no_slash seg h)

split-slashed :
    (seg : Text) (segs : List Text)
    → is_clean seg ≡ true
    → all_clean segs ≡ true
    → split b'/' (seg ++ slashed segs) ≡ seg ∷ segs
unfolding slashed
split-slashed seg [] h k =
    ap (split b'/') (append_nil seg) ∙ split-free b'/' seg (clean-no_slash seg h)
split-slashed seg (s ∷ segs) h k =
    split-append b'/' seg (s ++ slashed segs) (clean-no_slash seg h)
    ∙ ap (λ r. seg ∷ r) (split-slashed s segs (ground arith) (ground arith))

-- Trimming at the end.
abbrev ends_uncut : (ℕ → Bool) → Text → Bool
ends_uncut cut [] = false
ends_uncut cut (c ∷ []) = not (cut c)
ends_uncut cut (c ∷ d ∷ s) = ends_uncut cut (d ∷ s)

ends_uncut-split :
    (cut : ℕ → Bool) (s : Text)
    → ends_uncut cut s ≡ true
    → (t : Text) × (c : ℕ) × (s ≡ t ++ c ∷ []) × (cut c ≡ false)
ends_uncut-split cut [] h = cc
ends_uncut-split cut (c ∷ []) h = ([], c, refl, ground arith)
ends_uncut-split cut (c ∷ d ∷ s) h =
    let (t, e, p, q) = ends_uncut-split cut (d ∷ s) h in (c ∷ t, e, ap (λ r. c ∷ r) p, q)

trim_right-uncut : (cut : ℕ → Bool) (s : Text) → ends_uncut cut s ≡ true → trim_right cut s ≡ s
unfolding trim_right trim_left
trim_right-uncut cut s h =
    let (t, c, p, q) = ends_uncut-split cut s h in
    rw (p, reverse-append t (c ∷ []), q, reverse-append (c ∷ []) (reverse t), reverse-reverse t)
      refl

abbrev slash_or_space : ℕ → Bool
slash_or_space c = (c == b'/') || (c == b' ')

ends_uncut-clean :
    (seg : Text)
    → is_empty seg ≡ false
    → holds b'/' seg ≡ false
    → holds b' ' seg ≡ false
    → ends_uncut slash_or_space seg ≡ true
unfolding holds
ends_uncut-clean [] h k l = cc
ends_uncut-clean (c ∷ []) h k l = ground arith
ends_uncut-clean (c ∷ d ∷ s) h k l = ends_uncut-clean (d ∷ s) refl (ground arith) (ground arith)

ends_uncut-append :
    (cut : ℕ → Bool) (s t : Text) → ends_uncut cut t ≡ true → ends_uncut cut (s ++ t) ≡ true
ends_uncut-append cut [] t h = h
ends_uncut-append cut (c ∷ []) [] h = cc
ends_uncut-append cut (c ∷ []) (d ∷ t) h = h
ends_uncut-append cut (c ∷ d ∷ s) t h = ends_uncut-append cut (d ∷ s) t h

ends_uncut-slashed :
    (seg : Text) (segs : List Text)
    → is_clean seg ≡ true
    → all_clean segs ≡ true
    → ends_uncut slash_or_space (seg ++ slashed segs) ≡ true
unfolding slashed
ends_uncut-slashed seg [] h k =
    rw (append_nil seg)
      (unfold is_clean in ends_uncut-clean seg (ground arith) (ground arith) (ground arith))
ends_uncut-slashed seg (s ∷ segs) h k =
    ends_uncut-append slash_or_space seg (b'/' ∷ (s ++ slashed segs)) (
      ends_uncut-append slash_or_space (b'/' ∷ []) (s ++ slashed segs)
        (ends_uncut-slashed s segs (ground arith) (ground arith)))

pub trim_left-slashed :
    (cut : ℕ → Bool) (seg : Text) (segs : List Text)
    → is_clean seg ≡ true
    → cut b'/' ≡ true
    → ((c : ℕ) → (c == b'/') ≡ false → (c == b' ') ≡ false → cut c ≡ false)
    → trim_left cut (slashed (seg ∷ segs)) ≡ seg ++ slashed segs
unfolding slashed trim_left
trim_left-slashed cut seg segs h k l =
    let (c, s, e, p, q) = clean-cons seg h in
    let uncut : cut c ≡ false = l c p q in rw (k, e, uncut) refl

-- Splitting a path gives its segments.
pub split_path-slashed :
    (seg : Text) (segs : List Text)
    → is_clean seg ≡ true
    → all_clean segs ≡ true
    → split_path (slashed (seg ∷ segs)) ≡ seg ∷ segs
unfolding split_path trim
split_path-slashed seg segs h k =
    rw
      (
        trim_left-slashed slash_or_space seg segs h refl (λ c p q. ground arith),
        trim_right-uncut slash_or_space (seg ++ slashed segs) (ends_uncut-slashed seg segs h k),
        split-slashed seg segs h k,
      )
      (not_empty seg h)
  where
    not_empty :
        (s : Text)
        → is_clean s ≡ true
        → (if is_empty (s ++ slashed segs) then [] else seg ∷ segs) ≡ seg ∷ segs
    not_empty s p = let (c, s', e, _, _) = clean-cons s p in rw e refl
