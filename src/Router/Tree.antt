-- ===== src/Router/Tree.antt =====
-- server/web/tree.go: `Tree`, `leafInfo` and `addseg`. A slice is a list, so that what two calls append to one
-- slice is never in one array; that a route under `?` is added twice from one slice is in no theorem. The
-- package regexp is a parameter; an expression is kept as its text.
use beego.Common.{
  Bool, false, not, ◌&&◌, ◌||◌, if◌then◌else◌, List, [], ◌∷◌, ◌++◌, Option, none, some, Text,
  text_eq, codes,
}
use beego.Common.Outcome.{Outcome, ok, panic, ◌>>=◌}
use beego.Slice.{in_slice}
use beego.Router.Segment.{Segment, is_empty, split_path, split_segment}

-- `regexp.Compile`, which fails on some texts, and `FindStringSubmatch` without the match of the whole expression.
pub record Regexp : Type 0 where
  pub compiles : Text → Bool
  pub submatches : Text → Text → Option (List Text)

pub data Failure : Type 0 where
  must_compile index_out_of_range : Failure

pub record LeafInfo (R : Type 0) : Type 0 where
  pub wildcards : List Text
  pub regexps : Option Text
  pub run_object : R

-- `node prefix fixrouters wildcard leaves`; `nil` is the nil of the pointer to a tree.
mutual
  pub data Tree (R : Type 0) : Type 0 where
    node : Text → Trees R → Child R → List (LeafInfo R) → Tree R

  pub data Trees (R : Type 0) : Type 0 where
    empty : Trees R
    cons : Tree R → Trees R → Trees R

  pub data Child (R : Type 0) : Type 0 where
    nil : Child R
    at : Tree R → Child R

abbrev pub new_tree : {R : Type 0} → Text → Tree R
new_tree prefix = node prefix empty nil []

abbrev pub prefix_of : {R : Type 0} → Tree R → Text
prefix_of (node prefix _ _ _) = prefix

-- The expressions before the text of a segment, one for each parameter so far.
unfoldable pub wildcard_regexps : List Text → Text
wildcard_regexps [] = []
wildcard_regexps (w ∷ wildcards) =
    (if text_eq w (codes ":splat") then codes "(.+)/" else codes "([^/]+)/")
    ++ wildcard_regexps wildcards

unfoldable pub slash_regexps : List Text → Text
slash_regexps [] = []
slash_regexps (_ ∷ params) = codes "/([^/]+)" ++ slash_regexps params

abbrev pub rest_of {ℓ} : {A : Type ℓ} → List A → List A
rest_of [] = []
rest_of (_ ∷ xs) = xs

abbrev pub is_optional : List Text → Bool
is_optional [] = false
is_optional (p ∷ params) = text_eq p (codes ":")

-- The expression of a segment after the rules for `*`.
unfoldable pub star_rules : Text → Segment → List Text → Text → Text
star_rules seg s wildcards reg =
    if text_eq seg (codes "*") && not (is_empty wildcards) && is_empty reg
    then codes "(.+)"
    else if not s.iswild && in_slice (codes ":splat") wildcards
    then seg
    else s.regexp_str

-- The parameters and the expression that a wild segment adds.
unfoldable pub wild_part : Text → List Text → Text → List Text → Text → List Text × Text
wild_part seg params regexp_str wildcards reg =
    if not (is_empty regexp_str)
    then (
      params,
      if is_empty reg then wildcard_regexps wildcards ++ regexp_str else codes "/" ++ regexp_str,
    )
    else if not (is_empty reg)
    then if text_eq seg (codes "*.*")
      then (rest_of params, codes "/([^.]+).(.+)")
      else (params, slash_regexps params)
    else if text_eq seg (codes "*.*")
    then (rest_of params, [])
    else (params, [])

module _ {R : Type 0} where
  -- The first of the fixed routers with a prefix is changed, or one is added behind them.
  unfoldable pub update_fix :
      Text → (Tree R → Outcome Failure (Tree R)) → Trees R → Outcome Failure (Trees R)
  update_fix seg f empty = f (new_tree seg) >>= λ sub. ok (cons sub empty)
  update_fix seg f (cons t ts) =
      let rest = update_fix seg f ts >>= λ ts'. ok (cons t ts') in
      if text_eq (prefix_of t) seg then f t >>= (λ t'. ok (cons t' ts)) else rest

  unfoldable pub update_fixrouters :
      Text → (Tree R → Outcome Failure (Tree R)) → Tree R → Outcome Failure (Tree R)
  update_fixrouters seg f (node prefix fix wild leaves) =
      update_fix seg f fix >>= λ fix'. ok (node prefix fix' wild leaves)

  unfoldable pub update_wildcard :
      (Tree R → Outcome Failure (Tree R)) → Tree R → Outcome Failure (Tree R)
  update_wildcard f (node prefix fix nil leaves) =
      f (new_tree []) >>= λ wild. ok (node prefix fix (at wild) leaves)
  update_wildcard f (node prefix fix (at wild) leaves) =
      f wild >>= λ wild'. ok (node prefix fix (at wild') leaves)

  unfoldable pub add_leaf : LeafInfo R → Tree R → Tree R
  add_leaf leaf (node prefix fix wild leaves) = node prefix fix wild (leaf ∷ leaves)

  module _ (re : Regexp) where
    unfoldable pub new_leaf : R → List Text → Text → Outcome Failure (LeafInfo R)
    new_leaf route wildcards reg =
        if is_empty reg
        then ok (record { wildcards = wildcards; regexps = none; run_object = route })
        else if re.compiles (codes "^" ++ reg ++ codes "$")
        then ok (record {
          wildcards = wildcards;
          regexps = some (codes "^" ++ reg ++ codes "$");
          run_object = route;
        })
        else panic must_compile

    unfoldable pub addseg : List Text → R → List Text → Text → Tree R → Outcome Failure (Tree R)
    addseg [] route wildcards reg t = new_leaf route wildcards reg >>= λ leaf. ok (add_leaf leaf t)
    addseg (seg ∷ segments) route wildcards reg t =
        let s = split_segment seg in
        let optional = is_optional s.params in
        let params = if optional then rest_of s.params else s.params in
        let part = wild_part seg params (star_rules seg s wildcards reg) wildcards reg in
        let skipped = addseg segments route wildcards reg t in
        (if optional then skipped else ok t) >>= λ t'.
        if s.iswild || in_slice (codes ":splat") wildcards
        then update_wildcard (addseg segments route (wildcards ++ part.0) (reg ++ part.1)) t'
        else update_fixrouters seg (addseg segments route wildcards reg) t'

    unfoldable pub add_router : Text → R → Tree R → Outcome Failure (Tree R)
    add_router pattern route t = addseg (split_path pattern) route [] [] t
