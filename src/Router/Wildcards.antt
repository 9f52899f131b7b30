-- ===== src/Router/Wildcards.antt =====
-- server/web/tree.go: what the routes `/*` and `/*.*` take, and where that goes wrong.
use beego.Common.{
  ◌≡◌, refl, ap, ◌∙◌, true, List, [], ◌∷◌, ◌++◌, none, some, arith, Text, text_eq_refl, codes,
  append_nil, split,
}
use beego.Common.Outcome.{ok, panic, ◌>>=◌}
use beego.Common.Dict.{insert}
use beego.Common.Paths.{trim, trim_left, trim_right}
use beego.Slice.{in_slice}
use beego.Router.Segment.{split_path, split_segment}
use beego.Router.Plain.{is_clean, slashed}
use beego.Router.Tree.{
  Regexp, index_out_of_range, LeafInfo, Tree, node, Trees, empty, cons, nil, at, star_rules,
  wild_part, update_wildcard, new_leaf, add_leaf, addseg, add_router,
}
use beego.Router.Match.{
  Params, match_tree, match_at, match_fix, match_ext, match_child, match_path, first_leaf,
  leaf_match, match_names, before_path_ext, unsnoc,
}
use beego.Router.Static.{match_tree-plain, match_fix-missed, after_fix}
use beego.Router.Table.{
  no_ext, TreeStatic, tree_lookup, trees_lookup, match_ext-no_ext, match_tree-static,
}

module _ {R : Type 0} (re : Regexp) where
  -- After the route `/*.*` is added to a tree with no leaves and no wildcard of its own, the request `/` panics:
  -- `match` of the leaf reads the last of no values.
  pub path_ext_root_panics :
      (prefix : Text) (route : R) (fix : Trees R) (ctx : Params)
      → (t : Tree R) × (add_router re (codes "/*.*") route (node prefix fix nil []) ≡ ok t)
        × (match_path re t (codes "/") ctx ≡ panic index_out_of_range)
  unfolding add_router split_path trim trim_left trim_right split split_segment addseg in_slice
      star_rules wild_part update_wildcard new_leaf add_leaf match_path match_tree match_at
      first_leaf leaf_match match_names before_path_ext unsnoc
  path_ext_root_panics prefix route fix ctx = (_, refl, refl)

  -- The tree of a route that ends with `/*`.
  abbrev pub splat_leaf : R → LeafInfo R
  splat_leaf route = record { wildcards = codes ":splat" ∷ []; regexps = none; run_object = route }

  abbrev pub splat_tree : R → Tree R
  splat_tree route = node [] empty nil (splat_leaf route ∷ [])

  addseg-splat :
      (prefix : Text) (route : R) (fix : Trees R) (leaves : List (LeafInfo R))
      → add_router re (codes "/*") route (node prefix fix nil leaves)
        ≡ ok (node prefix fix (at (splat_tree route)) leaves)
  unfolding add_router split_path trim trim_left trim_right split split_segment addseg in_slice
      star_rules wild_part update_wildcard new_leaf add_leaf
  addseg-splat prefix route fix leaves = refl

  -- Behind a first segment, the leaf of `/*` takes the tree pattern as it stands.
  splat-takes :
      (route : R) (tp v w : Text) (ctx : Params)
      → is_clean w ≡ true
      → match_child re (at (splat_tree route)) tp (slashed (w ∷ [])) (v ∷ []) ctx
        ≡ ok (some route, insert (codes ":splat") tp ctx)
  unfolding match_child match_tree match_fix match_ext first_leaf leaf_match match_names
  splat-takes route tp v w ctx h =
      match_tree-plain re [] empty nil (splat_leaf route ∷ []) tp w [] (v ∷ []) ctx h

  after_missed :
      (route : R) (fix : Trees R) (leaves : List (LeafInfo R)) (tp v w : Text) (ctx : Params)
      → no_ext v ≡ true
      → is_clean w ≡ true
      → after_fix re fix (at (splat_tree route)) leaves v (slashed (w ∷ [])) [] (tp, (none, ctx))
        ≡ ok (some route, insert (codes ":splat") tp ctx)
  unfolding no_ext
  after_missed route fix leaves tp v w ctx h k =
      rw
        (match_ext-no_ext re fix v (codes ".json") (slashed (w ∷ [])) tp [] none ctx (ground arith))
        (rw
          (match_ext-no_ext re fix v (codes ".xml") (slashed (w ∷ [])) tp [] none ctx
            (ground arith))
          (rw
            (match_ext-no_ext re fix v (codes ".html") (slashed (w ∷ [])) tp [] none ctx
              (ground arith))
            (rw (splat-takes route tp v w ctx k) refl)))

  -- The route `/*` alone gives the request `/v/w` the whole path `v/w` as its splat. Beside a fixed subtree
  -- with the prefix `v` that has no route for `w`, the same request to the same route is given `w` alone.
  pub splat_shadowed :
      (prefix v w : Text) (route : R) (fix : Trees R) (leaves below : List (LeafInfo R))
      (ctx : Params)
      → is_clean v ≡ true
      → no_ext v ≡ true
      → is_clean w ≡ true
      → no_ext w ≡ true
      → TreeStatic (node v fix nil below)
      → trees_lookup fix w [] ≡ none
      → ((t : Tree R) × (add_router re (codes "/*") route (node prefix empty nil leaves) ≡ ok t)
          × (match_path re t (slashed (v ∷ w ∷ [])) ctx
              ≡ ok (some route, insert (codes ":splat") (v ++ b'/' ∷ w) ctx)))
        × ((t : Tree R) × (add_router re
                (codes "/*")
                route
                (node prefix (cons (node v fix nil below) empty) nil leaves)
              ≡ ok t)
            × (match_path re t (slashed (v ∷ w ∷ [])) ctx
                ≡ ok (some route, insert (codes ":splat") w ctx)))
  unfolding match_path slashed match_fix tree_lookup
  splat_shadowed prefix v w route fix leaves below ctx h k l m s absent = (
    (
      node prefix empty (at (splat_tree route)) leaves,
      addseg-splat prefix route empty leaves,
      match_tree-plain re prefix empty (at (splat_tree route)) leaves (v ++ b'/' ∷ (w ++ [])) v
            (w ∷ []) [] ctx h
          ∙ after_missed route empty leaves (v ++ b'/' ∷ (w ++ [])) v w ctx k l
          ∙ ap (λ s. ok (some route, insert (codes ":splat") (v ++ b'/' ∷ s) ctx)) (append_nil w),
    ),
    (
      node prefix (cons (node v fix nil below) empty) (at (splat_tree route)) leaves,
      addseg-splat prefix route (cons (node v fix nil below) empty) leaves,
      match_tree-plain re prefix (cons (node v fix nil below) empty) (at (splat_tree route)) leaves
            (v ++ b'/' ∷ (w ++ [])) v (w ∷ []) [] ctx h
          ∙ ap
              (λ m.
                m
                >>= after_fix re (cons (node v fix nil below) empty) (at (splat_tree route)) leaves
                    v (slashed (w ∷ [])) [])
              missed
          ∙ after_missed route (cons (node v fix nil below) empty) leaves (w ++ []) v w ctx k l
          ∙ ap (λ s. ok (some route, insert (codes ":splat") s ctx)) (append_nil w),
    ),
  )
    where
      missed :
          match_fix re
            (cons (node v fix nil below) empty)
            v
            (slashed (w ∷ []))
            (v ++ b'/' ∷ (w ++ []))
            []
            ctx
          ≡ ok (w ++ [], (none, ctx))
      missed =
          match_fix-missed re (node v fix nil below) empty v (slashed (w ∷ []))
            (v ++ b'/' ∷ (w ++ [])) [] ctx ctx (text_eq_refl v)
            (match_tree-static re (node v fix nil below) (w ∷ []) (w ++ []) ctx s (ground arith)
                (ground arith)
              ∙ rw absent refl)
