-- ===== src/Router/Match.antt =====
-- server/web/tree.go: `Match`, `match` and the `match` of a leaf. The parameters of a request are those that
-- `SetParam` of server/web/context/input.go keeps.
use beego.Common.{
  ℕ, ltb, Bool, true, false, ◌&&◌, ◌==◌, if◌then◌else◌, List, [], ◌∷◌, ◌++◌, Option, none, some,
  Text, text_eq, codes, length, drop, reverse, split,
}
use beego.Common.Outcome.{Outcome, ok, panic, ◌>>=◌}
use beego.Common.Dict.{Dict, insert}
use beego.Common.Paths.{has_suffix, cut_at, path_join, trim_left}
use beego.Router.Tree.{
  Regexp, Failure, index_out_of_range, LeafInfo, Tree, node, Trees, empty, cons, Child, nil, at,
  prefix_of, rest_of,
}

abbrev pub Params : Type 0
Params = Dict Text

-- All but the last element, and the last.
unfoldable pub unsnoc {ℓ} : {A : Type ℓ} → List A → Option (List A × A)
unsnoc [] = none
unsnoc (x ∷ []) = some ([], x)
unsnoc (x ∷ y ∷ xs) = elim (unsnoc (y ∷ xs)) [ none ↦ none | some (ys, z) ↦ some (x ∷ ys, z) ]

-- The names before `:path` and `:ext`, if a leaf ends with these.
unfoldable pub before_path_ext : List Text → Option (List Text)
before_path_ext [] = none
before_path_ext (w ∷ []) = none
before_path_ext (v ∷ w ∷ []) =
    if text_eq v (codes ":path") && text_eq w (codes ":ext") then some [] else none
before_path_ext (v ∷ w ∷ x ∷ ws) = elim (before_path_ext (w ∷ x ∷ ws)) [
  | none ↦ none
  | some names ↦ some (v ∷ names)
]

-- `:ext` is what follows the first dot of the last value, where it has one; then `:path`.
abbrev pub set_ext : Text → Params → Params
set_ext [] ctx = ctx
set_ext (_ ∷ ext) ctx = insert (codes ":ext") ext ctx

unfoldable pub set_path_ext : List Text → Text → Params → Params
set_path_ext values lastone ctx =
    let strs = cut_at b'.' lastone in
    insert (codes ":path") (path_join (path_join values ∷ strs.0 ∷ [])) (set_ext strs.1 ctx)

-- The loop over the names before `:path`, and what follows it: the values that are left.
unfoldable pub set_named : List Text → List Text → Params → Outcome Failure (List Text × Params)
set_named [] values ctx = ok (values, ctx)
set_named (n ∷ names) [] ctx = panic index_out_of_range
set_named (n ∷ names) (v ∷ values) ctx = set_named names values (insert n v ctx)

abbrev pub last_ext : List Text → Params → Params
last_ext values ctx = elim (unsnoc values) [
  | none ↦ ctx
  | some (_, lastone) ↦ set_ext (cut_at b'.' lastone).1 ctx
]

abbrev pub set_rest : List Text → List Text → Params → Params
set_rest all values ctx = elim (unsnoc values) [
  | none ↦ insert (codes ":path") [] (last_ext all ctx)
  | some (vs, lastone) ↦ set_path_ext vs lastone ctx
]

-- The loops that set a parameter for each name, as far as there are values.
unfoldable pub set_all : List Text → List Text → Params → Params
set_all [] values ctx = ctx
set_all (n ∷ names) [] ctx = ctx
set_all (n ∷ names) (v ∷ values) ctx = set_all names values (insert n v ctx)

-- A leaf without an expression: the parameters, if it matches.
abbrev pub match_id : List Text → List Text → Params → Outcome Failure (Option Params)
match_id wildcards values ctx =
    if length wildcards == length values then ok (some (set_all wildcards values ctx)) else ok none

abbrev pub match_path_ext : List Text → List Text → Params → Outcome Failure (Option Params)
match_path_ext [] values ctx = elim (unsnoc values) [
  | none ↦ panic index_out_of_range
  | some (vs, lastone) ↦ ok (some (set_path_ext vs lastone ctx))
]
match_path_ext (n ∷ names) values ctx =
    if ltb (length values) 2
    then ok none
    else set_named (n ∷ names) values ctx >>= λ r. ok (some (set_rest values r.0 r.1))

abbrev pub is_splat : List Text → Bool
is_splat [] = false
is_splat (w ∷ []) = text_eq w (codes ":splat")
is_splat (w ∷ x ∷ ws) = false

unfoldable pub match_names : Text → List Text → List Text → Params → Outcome Failure (Option Params)
match_names tree_pattern [] [] ctx = ok (some ctx)
match_names tree_pattern wildcards values ctx =
    if is_splat wildcards
    then ok (some (insert (codes ":splat") tree_pattern ctx))
    else elim (before_path_ext wildcards) [
      | some names ↦ match_path_ext names values ctx
      | none ↦ match_id wildcards values ctx
    ]

-- What follows the first segment of a path, its parts as the loop before the leaves takes them: a path that is
-- not empty begins with a slash.
unfoldable pub more_values : Text → List Text
more_values [] = []
more_values (_ ∷ pattern) = split b'/' pattern

-- Whether a segment may stand without one of the allowed extensions.
abbrev pub may_drop : Text → Text → Text → Bool
may_drop tree_pattern seg str = has_suffix seg str && has_suffix tree_pattern seg

-- `seg[:len(seg)-len(str)]`
unfoldable pub without : Text → Text → Text
without seg str = reverse (drop (length str) (reverse seg))

abbrev pub set_found {ℓ} : {R : Type ℓ} → Option R → Text → Params → Params
set_found none str ctx = ctx
set_found (some r) str ctx = insert (codes ":ext") (rest_of str) ctx

-- A run object that may be nil, with the parameters.
abbrev pub Found : Type 0 → Type 0
Found R = Outcome Failure (Option R × Params)

-- A step that is taken only while nothing is found.
abbrev pub unless_found : {R : Type 0} → Option R × Params → (Params → Found R) → Found R
unless_found (some r, ctx) f = ok (some r, ctx)
unless_found (none, ctx) f = f ctx

-- The characters that `match` skips.
abbrev pub is_slash : ℕ → Bool
is_slash c = c == b'/'

module _ {R : Type 0} (re : Regexp) where
  unfoldable pub leaf_match :
      LeafInfo R → Text → List Text → Params → Outcome Failure (Option Params)
  leaf_match leaf tree_pattern values ctx = elim leaf.regexps [
    | none ↦ match_names tree_pattern leaf.wildcards values ctx
    | some expr ↦ elim (re.submatches expr (path_join values)) [
      | none ↦ ok none
      | some matches ↦ ok (some (set_all leaf.wildcards matches ctx))
    ]
  ]

  -- The loops over the leaves: the first that matches.
  unfoldable pub first_leaf : List (LeafInfo R) → Text → List Text → Params → Found R
  first_leaf [] tree_pattern values ctx = ok (none, ctx)
  first_leaf (l ∷ leaves) tree_pattern values ctx = leaf_match l tree_pattern values ctx >>= λ r.
      elim r [
        | none ↦ first_leaf leaves tree_pattern values ctx
        | some ctx' ↦ ok (some l.run_object, ctx')
      ]

  abbrev pub child_leaves : Child R → List (LeafInfo R)
  child_leaves nil = []
  child_leaves (at (node _ _ _ leaves)) = leaves

  -- At the end of the path.
  abbrev pub match_end : Child R → List (LeafInfo R) → Text → List Text → Params → Found R
  match_end wild leaves tree_pattern values ctx = first_leaf leaves tree_pattern values ctx >>= λ r.
      unless_found r (first_leaf (child_leaves wild) tree_pattern values)

  -- `match_at` is `match` after the slashes at the front of the pattern.
  unfoldable mutual
    pub match_at : Tree R → Text → Text → List Text → Params → Found R
    match_at (node prefix fix wild leaves) tree_pattern [] values ctx =
        match_end wild leaves tree_pattern values ctx
    match_at (node prefix fix wild leaves) tree_pattern (c ∷ s) values ctx =
        let seg = (cut_at b'/' (c ∷ s)).0 in
        let rest = (cut_at b'/' (c ∷ s)).1 in
        match_fix fix seg rest tree_pattern values ctx >>= λ r.
        unless_found r.1 (λ ctx. match_ext fix seg (codes ".json") rest r.0 values none ctx >>= λ g.
        match_ext fix seg (codes ".xml") rest r.0 values g.0 g.1 >>= λ h.
        match_ext fix seg (codes ".html") rest r.0 values h.0 h.1)
        >>= λ f. unless_found f (match_child wild r.0 rest (values ++ (seg ∷ []))) >>= λ g.
            unless_found g (first_leaf leaves r.0 (values ++ (seg ∷ more_values rest)))

    -- The loop over the fixed routers. With what it finds it returns the tree pattern, which it shortens when
    -- a prefix fits.
    pub match_fix :
        Trees R
        → Text
        → Text
        → Text
        → List Text
        → Params
        → Outcome Failure (Text × (Option R × Params))
    match_fix empty seg rest tree_pattern values ctx = ok (tree_pattern, (none, ctx))
    match_fix (cons t ts) seg rest tree_pattern values ctx = elim (text_eq (prefix_of t) seg) [
      | false ↦ match_fix ts seg rest tree_pattern values ctx
      | true ↦ match_at t (rest_of rest) (trim_left is_slash rest) values ctx >>= λ f. elim f.0 [
        | some r ↦ ok (rest_of rest, f)
        | none ↦ match_fix ts seg rest (rest_of rest) values f.1
      ]
    ]

    -- The loop over the fixed routers for one extension; what a later one finds replaces what was found.
    pub match_ext : Trees R → Text → Text → Text → Text → List Text → Option R → Params → Found R
    match_ext empty seg str rest tree_pattern values found ctx = ok (found, ctx)
    match_ext (cons t ts) seg str rest tree_pattern values found ctx =
        elim (may_drop tree_pattern seg str && text_eq (prefix_of t) (without seg str)) [
          | false ↦ match_ext ts seg str rest tree_pattern values found ctx
          | true ↦ match_at t tree_pattern (trim_left is_slash rest) values ctx >>= λ f.
              match_ext ts seg str rest tree_pattern values f.0 (set_found f.0 str f.1)
        ]

    pub match_child : Child R → Text → Text → List Text → Params → Found R
    match_child nil tree_pattern pattern values ctx = ok (none, ctx)
    match_child (at t) tree_pattern pattern values ctx =
        match_at t tree_pattern (trim_left is_slash pattern) values ctx

  unfoldable pub match_tree : Tree R → Text → Text → List Text → Params → Found R
  match_tree t tree_pattern pattern values ctx =
      match_at t tree_pattern (trim_left is_slash pattern) values ctx

  -- `Match`
  unfoldable pub match_path : Tree R → Text → Params → Found R
  match_path t [] ctx = ok (none, ctx)
  match_path t (c ∷ pattern) ctx =
      if c == b'/' then match_tree t pattern (c ∷ pattern) [] ctx else ok (none, ctx)
