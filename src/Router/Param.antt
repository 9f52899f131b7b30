-- ===== src/Router/Param.antt =====
-- server/web/tree.go: routes whose last segment is a parameter.
use beego.Common.{
  ℕ, ◌≡◌, refl, ◌∙◌, Bool, true, false, ◌&&◌, ◌==◌, List, [], ◌∷◌, ◌++◌, Option, none, some, arith,
  Text, text_eq, codes, holds, append_nil, append_assoc,
}
use beego.Common.Outcome.{ok}
use beego.Common.Dict.{insert}
use beego.Common.Paths.{trim_left}
use beego.Slice.{in_slice}
use beego.Router.Segment.{
  Scan, is_empty, is_word, scan, scan_step, scan_start, scan_end, split_segment,
}
use beego.Router.Plain.{is_clean, slashed, split_path-slashed}
use beego.Router.Tree.{
  add_router, Regexp, LeafInfo, Tree, node, Trees, empty, nil, at, star_rules, wild_part,
  update_wildcard, new_leaf, add_leaf, addseg,
}
use beego.Router.Match.{
  match_path, Params, match_tree, match_at, match_child, first_leaf, leaf_match, match_names,
  before_path_ext, set_all,
}
use beego.Router.Static.{match_tree-plain, after_fix}
use beego.Router.Table.{no_ext, TreesStatic, trees_lookup, match_ext-no_ext, match_fix-static}

abbrev pub all_word : Text → Bool
all_word [] = true
all_word (c ∷ s) = is_word c && all_word s

-- The loop of `splitSegment` while a name is read.
abbrev naming : Text → Scan
naming param = record scan_start { start = true; param = param }

word-no_colon : (c : ℕ) → is_word c ≡ true → (c == b':') ≡ false
word-no_colon c h = ground arith

scan_step-word :
    (c : ℕ) (s : Text) (escaped : Bool) (param : Text)
    → is_word c ≡ true
    → scan_step escaped c s (naming param) ≡ naming (param ++ (c ∷ []))
unfolding scan_step
scan_step-word c s escaped param h = rw (word-no_colon c h) (rw h refl)

scan-word :
    (s : Text) (escaped : Bool) (param : Text)
    → all_word s ≡ true
    → scan escaped s (naming param) ≡ naming (param ++ s)
unfolding scan
scan-word [] escaped param h = rw (append_nil param) refl
scan-word (c ∷ s) escaped param h = rw (scan_step-word c s escaped param (ground arith)) (
    scan-word s (c == b'\\') (param ++ (c ∷ [])) (ground arith)
    ∙ rw (append_assoc param (c ∷ []) s) refl)

named_end :
    (name : Text)
    → is_empty name ≡ false
    → scan_end (naming name)
      ≡ record { iswild = true; params = (b':' ∷ name) ∷ []; regexp_str = [] }
unfolding scan_end
named_end [] h = cc
named_end (c ∷ name) h = refl

word-clean :
    (name : Text) → all_word name ≡ true → (holds b'/' name ≡ false) × (holds b' ' name ≡ false)
unfolding holds
word-clean [] h = (refl, refl)
word-clean (c ∷ name) h = ground (arith, word-clean name)

name-clean : (name : Text) → all_word name ≡ true → is_clean (b':' ∷ name) ≡ true
unfolding is_clean holds
name-clean name h = ground (arith, word-clean name h)

-- The segment of a parameter.
split_segment-param :
    (name : Text)
    → all_word name ≡ true
    → is_empty name ≡ false
    → split_segment (b':' ∷ name)
      ≡ record { iswild = true; params = (b':' ∷ name) ∷ []; regexp_str = [] }
unfolding split_segment holds scan scan_step
split_segment-param name h k = rw (scan-word name false [] h) (named_end name k)

is_optional-name : (name : Text) → is_empty name ≡ false → text_eq (b':' ∷ name) (codes ":") ≡ false
is_optional-name [] h = cc
is_optional-name (c ∷ name) h = refl

module _ {R : Type 0} where
  -- At a tree with a parameter as its only wildcard: a fixed route wins, and else the segment is the value.
  abbrev pub param_result : Option R → Text → R → Text → Params → Option R × Params
  param_result (some r) name route v ctx = (some r, ctx)
  param_result none name route v ctx = (some route, insert (b':' ∷ name) v ctx)

module _ {R : Type 0} (re : Regexp) where
  -- The tree of a parameter that ends a route.
  abbrev pub param_leaf : Text → R → LeafInfo R
  param_leaf name route = record {
    wildcards = (b':' ∷ name) ∷ [];
    regexps = none;
    run_object = route;
  }

  abbrev pub param_tree : Text → R → Tree R
  param_tree name route = node [] empty nil (param_leaf name route ∷ [])

  addseg-param :
      (name prefix : Text) (route : R) (fix : Trees R) (leaves : List (LeafInfo R))
      → all_word name ≡ true
      → is_empty name ≡ false
      → addseg re ((b':' ∷ name) ∷ []) route [] [] (node prefix fix nil leaves)
        ≡ ok (node prefix fix (at (param_tree name route)) leaves)
  unfolding addseg star_rules wild_part update_wildcard new_leaf add_leaf in_slice
  addseg-param name prefix route fix leaves h k =
      rw (split_segment-param name h k) (rw (is_optional-name name k) refl)

  param-matches :
      (name v tp : Text) (route : R) (ctx : Params)
      → text_eq name (codes "splat") ≡ false
      → match_child re (at (param_tree name route)) tp [] (v ∷ []) ctx
        ≡ ok (some route, insert (b':' ∷ name) v ctx)
  unfolding match_child match_at first_leaf leaf_match match_names before_path_ext set_all trim_left
  param-matches name v tp route ctx h = rw h refl

  match_tree-param :
      (name prefix v tp : Text) (route : R) (fix : Trees R) (leaves : List (LeafInfo R))
      (ctx : Params)
      → text_eq name (codes "splat") ≡ false
      → TreesStatic fix
      → is_clean v ≡ true
      → no_ext v ≡ true
      → match_tree re
          (node prefix fix (at (param_tree name route)) leaves)
          tp
          (slashed (v ∷ []))
          []
          ctx
        ≡ ok (param_result (trees_lookup fix v []) name route v ctx)
  unfolding no_ext slashed
  match_tree-param name prefix v tp route fix leaves ctx h s k l =
      let (tp', e) = match_fix-static re fix v [] tp ctx s refl refl in
      match_tree-plain re prefix fix (at (param_tree name route)) leaves tp v [] [] ctx k
      ∙ rw e (after (trees_lookup fix v []) tp')
    where
      after :
          (found : Option R) (tp' : Text)
          → after_fix re fix (at (param_tree name route)) leaves v [] [] (tp', (found, ctx))
            ≡ ok (param_result found name route v ctx)
      after (some r) tp' = refl
      after none tp' =
          rw (match_ext-no_ext re fix v (codes ".json") [] tp' [] none ctx (ground arith)) (
            rw (match_ext-no_ext re fix v (codes ".xml") [] tp' [] none ctx (ground arith)) (
              rw (match_ext-no_ext re fix v (codes ".html") [] tp' [] none ctx (ground arith))
                (rw (param-matches name v tp' route ctx h) refl)))

  -- A parameter that is added to a tree of routes without wildcards: a request of one segment without an
  -- allowed extension is given the fixed route of this segment, where there is one, and else the new route,
  -- with the segment as the value of the parameter.
  pub match_path-add_param :
      (name prefix v : Text) (route : R) (fix : Trees R) (leaves : List (LeafInfo R)) (ctx : Params)
      → all_word name ≡ true
      → is_empty name ≡ false
      → text_eq name (codes "splat") ≡ false
      → TreesStatic fix
      → is_clean v ≡ true
      → no_ext v ≡ true
      → (t : Tree R) × (add_router re
            (slashed ((b':' ∷ name) ∷ []))
            route
            (node prefix fix nil leaves)
          ≡ ok t)
        × (match_path re t (slashed (v ∷ [])) ctx
            ≡ ok (param_result (trees_lookup fix v []) name route v ctx))
  unfolding add_router match_path slashed
  match_path-add_param name prefix v route fix leaves ctx h k l s m n = (
    node prefix fix (at (param_tree name route)) leaves,
    rw (split_path-slashed (b':' ∷ name) [] (name-clean name h) refl)
        (addseg-param name prefix route fix leaves h k),
    match_tree-param name prefix v (v ++ []) route fix leaves ctx l s m n,
  )
