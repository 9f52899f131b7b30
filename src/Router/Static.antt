-- ===== src/Router/Static.antt =====
-- server/web/tree.go: routes without wildcards.
use beego.Common.{
  ◌≡◌, refl, ◌∙◌, true, false, List, [], ◌∷◌, ◌++◌, Option, none, some, arith, Text, text_eq,
  text_eq_refl, codes, Bool-cases, inl, inr,
}
use beego.Common.Outcome.{Outcome, ok, ◌>>=◌}
use beego.Common.Paths.{trim_left}
use beego.Slice.{in_slice}
use beego.Router.Plain.{
  is_clean, is_plain, all_plain, all_plain-clean, slashed, split_segment-plain, cut_at-slashed,
  trim_left-slashed, split_path-slashed,
}
use beego.Router.Tree.{
  Regexp, Failure, LeafInfo, Tree, node, Trees, empty, cons, Child, prefix_of, new_tree, rest_of,
  update_fix, update_fixrouters, new_leaf, add_leaf, addseg, add_router,
}
use beego.Router.Match.{
  Params, Found, unless_found, match_tree, match_at, match_fix, match_ext, match_child, match_path,
  first_leaf, leaf_match, match_names, is_slash, more_values,
}

module _ {R : Type 0} (re : Regexp) where
  pub addseg-plain :
      (seg : Text) (segs : List Text) (route : R) (t : Tree R)
      → is_plain seg ≡ true
      → addseg re (seg ∷ segs) route [] [] t ≡ update_fixrouters seg (addseg re segs route [] []) t
  unfolding addseg in_slice
  addseg-plain seg segs route t h = rw (addseg, split_segment-plain seg h) refl

  -- The rounds of `match` at a first segment that is plain.
  abbrev pub after_fix :
      Trees R
      → Child R
      → List (LeafInfo R)
      → Text
      → Text
      → List Text
      → Text × (Option R × Params)
      → Found R
  after_fix fix wild leaves seg rest values r =
      unless_found r.1 (λ ctx.
        match_ext re fix seg (codes ".json") rest r.0 values none ctx >>= λ g.
        match_ext re fix seg (codes ".xml") rest r.0 values g.0 g.1 >>= λ h.
        match_ext re fix seg (codes ".html") rest r.0 values h.0 h.1)
      >>= λ f. unless_found f (match_child re wild r.0 rest (values ++ (seg ∷ []))) >>= λ g.
          unless_found g (first_leaf re leaves r.0 (values ++ (seg ∷ more_values rest)))

  pub match_tree-plain :
      (prefix : Text) (fix : Trees R) (wild : Child R) (leaves : List (LeafInfo R)) (tp seg : Text)
      (segs values : List Text) (ctx : Params)
      → is_clean seg ≡ true
      → match_tree re (node prefix fix wild leaves) tp (slashed (seg ∷ segs)) values ctx ≡ (
          match_fix re fix seg (slashed segs) tp values ctx
          >>= after_fix fix wild leaves seg (slashed segs) values)
  unfolding match_tree match_at is_clean
  match_tree-plain prefix fix wild leaves tp [] segs values ctx h = cc
  match_tree-plain prefix fix wild leaves tp (c ∷ s) segs values ctx h =
      rw (trim_left-slashed is_slash (c ∷ s) segs h refl (λ d p q. p))
        (rw (cut_at-slashed (c ∷ s) segs h) refl)

  -- A round of the loop over the fixed routers.
  pub match_fix-other :
      (t : Tree R) (ts : Trees R) (seg rest tp : Text) (values : List Text) (ctx : Params)
      → text_eq (prefix_of t) seg ≡ false
      → match_fix re (cons t ts) seg rest tp values ctx ≡ match_fix re ts seg rest tp values ctx
  unfolding match_fix
  match_fix-other t ts seg rest tp values ctx h = rw (h, match_fix) refl

  pub match_fix-found :
      (t : Tree R) (ts : Trees R) (seg rest tp : Text) (values : List Text) (ctx ctx' : Params)
      (r : R)
      → text_eq (prefix_of t) seg ≡ true
      → match_tree re t (rest_of rest) rest values ctx ≡ ok (some r, ctx')
      → match_fix re (cons t ts) seg rest tp values ctx ≡ ok (rest_of rest, (some r, ctx'))
  unfolding match_fix match_tree
  match_fix-found t ts seg rest tp values ctx ctx' r h m = rw (h, match_fix) (rw m refl)

  pub match_fix-missed :
      (t : Tree R) (ts : Trees R) (seg rest tp : Text) (values : List Text) (ctx ctx' : Params)
      → text_eq (prefix_of t) seg ≡ true
      → match_tree re t (rest_of rest) rest values ctx ≡ ok (none, ctx')
      → match_fix re (cons t ts) seg rest tp values ctx
        ≡ match_fix re ts seg rest (rest_of rest) values ctx'
  unfolding match_fix match_tree
  match_fix-missed t ts seg rest tp values ctx ctx' h m = rw (h, match_fix) (rw m refl)

  -- What it takes of the change of a subtree for the change of the fixed routers to be found.
  abbrev Finds : R → Text → (Tree R → Outcome Failure (Tree R)) → Tree R → Type 0
  Finds route rest f t =
      (t' : Tree R) × (f t ≡ ok t')
      × (prefix_of t' ≡ prefix_of t)
      × ((ctx : Params) → match_tree re t' (rest_of rest) rest [] ctx ≡ ok (some route, ctx))

  update_fix-found :
      (route : R) (seg rest : Text) (f : Tree R → Outcome Failure (Tree R)) (fix : Trees R)
      → ((t : Tree R) → Finds route rest f t)
      → (fix' : Trees R) × (update_fix seg f fix ≡ ok fix')
        × ((tp : Text) (ctx : Params)
            → match_fix re fix' seg rest tp [] ctx ≡ ok (rest_of rest, (some route, ctx)))
  unfolding update_fix match_fix match_tree
  update_fix-found route seg rest f empty found =
      let (t, e, p, m) = found (new_tree seg) in
      (
        cons t empty,
        rw e refl,
        λ tp ctx. rw (p, match_fix) (rw (text_eq_refl seg) (rw (m ctx) refl)),
      )
  update_fix-found route seg rest f (cons t ts) found =
      elim (Bool-cases (text_eq (prefix_of t) seg)) [
        | inl same ↦
            let (t', e, p, m) = found t in
            (
              cons t' ts,
              rw same (rw e refl),
              λ tp ctx. rw (p, match_fix) (rw same (rw (m ctx) refl)),
            )
        | inr other ↦
            let (fix', e, m) = update_fix-found route seg rest f ts found in
            (cons t fix', rw (other, e) refl, λ tp ctx. rw (other, match_fix) (m tp ctx))
      ]

  leaf-found :
      (route : R) (prefix : Text) (fix : Trees R) (wild : Child R) (leaves : List (LeafInfo R))
      → (t' : Tree R) × (addseg re [] route [] [] (node prefix fix wild leaves) ≡ ok t')
        × (prefix_of t' ≡ prefix)
        × ((tp : Text) (ctx : Params)
            → match_tree re t' tp (slashed []) [] ctx ≡ ok (some route, ctx))
  unfolding addseg new_leaf add_leaf match_tree match_at trim_left slashed first_leaf leaf_match
      match_names
  leaf-found route prefix fix wild leaves = (_, refl, refl, λ tp ctx. refl)

  -- A route is found under its own segments, whatever the tree had before, and sets no parameters.
  addseg-found :
      (segs : List Text) (route : R) (t : Tree R)
      → all_plain segs ≡ true
      → (t' : Tree R) × (addseg re segs route [] [] t ≡ ok t')
        × (prefix_of t' ≡ prefix_of t)
        × ((tp : Text) (ctx : Params)
            → match_tree re t' tp (slashed segs) [] ctx ≡ ok (some route, ctx))
  unfolding update_fixrouters
  addseg-found [] route (node prefix fix wild leaves) h = leaf-found route prefix fix wild leaves
  addseg-found (seg ∷ segs) route (node prefix fix wild leaves) h =
      let plain : is_plain seg ≡ true = ground arith in
      let below : all_plain segs ≡ true = ground arith in
      let (fix', e, m) =
        update_fix-found route seg (slashed segs) (addseg re segs route [] []) fix (λ t.
          let (t', e', p, found) = addseg-found segs route t below in
          (t', e', p, found (rest_of (slashed segs)))) in
      (
        node prefix fix' wild leaves,
        addseg-plain seg segs route (node prefix fix wild leaves) plain ∙ rw e refl,
        refl,
        λ tp ctx.
            match_tree-plain prefix fix' wild leaves tp seg segs [] ctx (ground arith)
            ∙ rw (m tp ctx) refl,
      )

  -- A route that is added under plain segments is found under the path of these segments, whatever the tree
  -- had before, and the request gets no parameters from it.
  pub match_path-add_router :
      (seg : Text) (segs : List Text) (route : R) (t : Tree R) (ctx : Params)
      → is_plain seg ≡ true
      → all_plain segs ≡ true
      → (t' : Tree R) × (add_router re (slashed (seg ∷ segs)) route t ≡ ok t')
        × (match_path re t' (slashed (seg ∷ segs)) ctx ≡ ok (some route, ctx))
  unfolding add_router match_path slashed
  match_path-add_router seg segs route t ctx h k =
      let (t', e, _, found) = addseg-found (seg ∷ segs) route t (ground arith) in
      (
        t',
        rw (split_path-slashed seg segs (ground arith) (all_plain-clean segs k)) e,
        found (seg ++ slashed segs) ctx,
      )
