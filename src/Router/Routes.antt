-- ===== src/Router/Routes.antt =====
-- server/web/tree.go: routes without wildcards that are added one after the other refine a table in which the
-- last one under a path counts.
use beego.Common.{
  ◌≡◌, refl, ◌∙◌, Bool, true, false, not, ◌&&◌, if◌then◌else◌, List, [], ◌∷◌, ◌++◌, Option, none,
  some, arith, Text, text_eq,
}
use beego.Common.Outcome.{Outcome, ok, ◌>>=◌}
use beego.Router.Segment.{is_empty}
use beego.Router.Plain.{all_plain, all_clean, all_plain-clean, slashed, split_path-slashed}
use beego.Router.Tree.{
  update_fix, Regexp, Failure, LeafInfo, Tree, node, Trees, Child, nil, at, new_tree,
  update_fixrouters, new_leaf, add_leaf, addseg, add_router,
}
use beego.Router.Match.{Params, match_path}
use beego.Router.Static.{addseg-plain}
use beego.Router.Table.{
  all_no_ext, same_path, LeavesStatic, TreeStatic, TreesStatic, tree_lookup, trees_lookup, Updates,
  match_tree-static, update_fix-lookup,
}

module _ {R : Type 0} where
  -- The last route under a path, or else `before`.
  unfoldable pub last_under : List (List Text × R) → List Text → Option R → Option R
  last_under [] q before = before
  last_under ((p, route) ∷ routes) q before =
      last_under routes q (if same_path p q then some route else before)

  abbrev pub plain_routes : List (List Text × R) → Bool
  plain_routes [] = true
  plain_routes ((p, _) ∷ routes) = not (is_empty p) && (all_plain p && plain_routes routes)

module _ {R : Type 0} (re : Regexp) where
  leaf-lookup :
      (route : R) (prefix : Text) (fix : Trees R) (leaves : List (LeafInfo R))
      → TreesStatic fix
      → LeavesStatic leaves
      → Updates re [] route (addseg re [] route [] []) (node prefix fix nil leaves)
  unfolding addseg new_leaf add_leaf TreeStatic tree_lookup
  leaf-lookup route prefix fix leaves f s = (_, refl, refl, (f, (refl, refl, s)), look)
    where
      look :
          (q : List Text)
          → tree_lookup
              (node prefix fix nil
                (record { wildcards = []; regexps = none; run_object = route } ∷ leaves))
              q
            ≡ (if same_path [] q then some route else tree_lookup (node prefix fix nil leaves) q)
      look [] = refl
      look (seg ∷ q) = refl

  update_fixrouters-ok :
      (seg prefix : Text) (f : Tree R → Outcome Failure (Tree R)) (fix fix' : Trees R)
      (wild : Child R) (leaves : List (LeafInfo R))
      → update_fix seg f fix ≡ ok fix'
      → update_fixrouters seg f (node prefix fix wild leaves) ≡ ok (node prefix fix' wild leaves)
  unfolding update_fixrouters
  update_fixrouters-ok seg prefix f fix fix' wild leaves e = rw e refl

  deeper :
      (seg prefix : Text) (p : List Text) (route : R) (fix fix' : Trees R)
      (leaves : List (LeafInfo R))
      → ((s : Text) (q : List Text)
          → trees_lookup fix' s q
            ≡ (if text_eq seg s && same_path p q then some route else trees_lookup fix s q))
      → (q : List Text)
      → tree_lookup (node prefix fix' nil leaves) q
        ≡ (if same_path (seg ∷ p) q then some route else tree_lookup (node prefix fix nil leaves) q)
  unfolding tree_lookup
  deeper seg prefix p route fix fix' leaves found [] = refl
  deeper seg prefix p route fix fix' leaves found (s ∷ q) = found s q

  addseg-lookup :
      (p : List Text) (route : R) (t : Tree R)
      → all_plain p ≡ true
      → TreeStatic t
      → Updates re p route (addseg re p route [] []) t
  unfolding TreeStatic
  addseg-lookup p route (node prefix fix (at _) leaves) h s = absurd s
  addseg-lookup [] route (node prefix fix nil leaves) h (f, s) =
      leaf-lookup route prefix fix leaves f s
  addseg-lookup (seg ∷ p) route (node prefix fix nil leaves) h (f, s) =
      let (fix', e, f', found) =
        update_fix-lookup re seg p route (addseg re p route [] []) fix
          (λ t st. addseg-lookup p route t (ground arith) st) f in
      (
        node prefix fix' nil leaves,
        addseg-plain re seg p route (node prefix fix nil leaves) (ground arith)
            ∙ update_fixrouters-ok seg prefix (addseg re p route [] []) fix fix' nil leaves e,
        refl,
        (f', s),
        deeper seg prefix p route fix fix' leaves found,
      )

  -- `AddRouter` for each route in turn, under the path of its segments.
  unfoldable pub add_routers : List (List Text × R) → Tree R → Outcome Failure (Tree R)
  add_routers [] t = ok t
  add_routers ((p, route) ∷ routes) t =
      add_router re (slashed p) route t >>= λ t'. add_routers routes t'

  added :
      (p : List Text) (route : R) (t : Tree R)
      → is_empty p ≡ false
      → all_plain p ≡ true
      → add_router re (slashed p) route t ≡ addseg re p route [] [] t
  unfolding add_router
  added [] route t h k = cc
  added (seg ∷ p) route t h k =
      rw (split_path-slashed seg p (ground arith) (all_plain-clean p (ground arith))) refl

  add_routers-lookup :
      (routes : List (List Text × R)) (t : Tree R)
      → plain_routes routes ≡ true
      → TreeStatic t
      → (t' : Tree R) × (add_routers routes t ≡ ok t')
        × TreeStatic t'
        × ((q : List Text) → tree_lookup t' q ≡ last_under routes q (tree_lookup t q))
  unfolding add_routers last_under
  add_routers-lookup [] t h s = (t, refl, s, λ q. refl)
  add_routers-lookup ((p, route) ∷ routes) t h s =
      let (t1, e1, _, s1, found1) = addseg-lookup p route t (ground arith) s in
      let (t2, e2, s2, found2) = add_routers-lookup routes t1 (ground arith) s1 in
      (
        t2,
        rw (added p route t (ground arith) (ground arith)) (rw e1 e2),
        s2,
        λ q. found2 q ∙ rw (found1 q) refl,
      )

  -- Routes without wildcards, added one after the other to a new tree: this succeeds, and a request whose path
  -- has no segment with an allowed extension is given the route that was added last under this path, or none
  -- if there is none, and no parameters.
  pub match_path-add_routers :
      (routes : List (List Text × R)) (seg : Text) (q : List Text) (ctx : Params)
      → plain_routes routes ≡ true
      → all_clean (seg ∷ q) ≡ true
      → all_no_ext (seg ∷ q) ≡ true
      → (t : Tree R) × (add_routers routes (new_tree []) ≡ ok t)
        × (match_path re t (slashed (seg ∷ q)) ctx ≡ ok (last_under routes (seg ∷ q) none, ctx))
  unfolding match_path slashed TreeStatic tree_lookup
  match_path-add_routers routes seg q ctx h k l =
      let (t, e, s, found) = add_routers-lookup routes (new_tree []) h (tt, tt) in
      (
        t,
        e,
        match_tree-static re t (seg ∷ q) (seg ++ slashed q) ctx s k l ∙ rw (found (seg ∷ q)) refl,
      )
