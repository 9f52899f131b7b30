-- ===== src/Common/Paths.antt =====
-- What the program uses of the packages strings and path, on texts of ASCII characters.
use beego.Common.{
  ◌≡◌, refl, ℕ, Bool, true, false, ◌&&◌, ◌||◌, ◌==◌, if◌then◌else◌, List, [], ◌∷◌, ◌++◌, reverse,
  Text, text_eq, codes, split, join,
}

unfoldable pub trim_left : (ℕ → Bool) → Text → Text
trim_left cut [] = []
trim_left cut (c ∷ s) = let rest = trim_left cut s in if cut c then rest else c ∷ s

-- `strings.TrimRight` and `strings.Trim`, by the characters that `cut` accepts.
unfoldable pub trim_right : (ℕ → Bool) → Text → Text
trim_right cut s = reverse (trim_left cut (reverse s))

unfoldable pub trim : (ℕ → Bool) → Text → Text
trim cut s = trim_right cut (trim_left cut s)

-- `strings.HasPrefix(s, prefix)`
abbrev pub has_prefix : Text → Text → Bool
has_prefix s [] = true
has_prefix [] (d ∷ t) = false
has_prefix (c ∷ s) (d ∷ t) = (c == d) && has_prefix s t

unfoldable pub has_suffix : Text → Text → Bool
has_suffix s suffix = has_prefix (reverse s) (reverse suffix)

-- The text before the first `sep`, and what follows, `sep` included.
unfoldable pub cut_at : ℕ → Text → Text × Text
cut_at sep [] = ([], [])
cut_at sep (c ∷ s) =
    let rest = cut_at sep s in if c == sep then ([], c ∷ s) else (c ∷ rest.0, rest.1)

-- `path.Clean`: the parts kept so far stand backwards in `kept`.
unfoldable pub clean_parts : Bool → List Text → List Text → List Text
clean_parts rooted kept [] = reverse kept
clean_parts rooted kept (part ∷ parts) =
    let skipped = clean_parts rooted kept parts in
    let pushed = clean_parts rooted (part ∷ kept) parts in
    if text_eq part [] || text_eq part (codes ".")
    then skipped
    else if text_eq part (codes "..")
    then elim kept [
      | [] ↦ if rooted then skipped else pushed
      | top ∷ below ↦ if text_eq top (codes "..") then pushed else clean_parts rooted below parts
    ]
    else pushed

abbrev pub or_dot : Text → Text
or_dot [] = codes "."
or_dot (c ∷ s) = c ∷ s

unfoldable pub clean : Text → Text
clean s =
    let rooted = has_prefix s (codes "/") in
    or_dot (
      (if rooted then codes "/" else []) ++ join (codes "/") (clean_parts rooted [] (split b'/' s)))

unfoldable pub non_empty : List Text → List Text
non_empty [] = []
non_empty ([] ∷ elems) = non_empty elems
non_empty ((c ∷ s) ∷ elems) = (c ∷ s) ∷ non_empty elems

-- `path.Join`
abbrev clean_unless_empty : List Text → Text
clean_unless_empty [] = []
clean_unless_empty (s ∷ elems) = clean (join (codes "/") (s ∷ elems))

unfoldable pub path_join : List Text → Text
path_join elems = clean_unless_empty (non_empty elems)

clean_up : clean (codes "a//b/../c/.") ≡ codes "a/c"
unfolding clean clean_parts split join
clean_up = refl
