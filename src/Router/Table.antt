-- ===== src/Router/Table.antt =====
-- server/web/tree.go: a tree whose routes have no wildcards, as a table of routes.
use beego.Common.{
  suc, length, ◌≡◌, refl, ◌∙◌, Bool, true, false, not, ◌&&◌, ◌==◌, if◌then◌else◌, List, [], ◌∷◌,
  Option, none, some, arith, Text, text_eq, text_eq_iff, codes, Bool-cases, Option-cases, inl, inr,
}
use beego.Common.Outcome.{Outcome, ok}
use beego.Common.Paths.{trim_left, has_suffix}
use beego.Router.Plain.{all_clean, slashed}
use beego.Router.Tree.{
  Regexp, Failure, LeafInfo, Tree, node, Trees, empty, cons, nil, at, prefix_of, new_tree, rest_of,
  update_fix,
}
use beego.Router.Match.{
  Params, unless_found, match_tree, match_at, match_fix, match_ext, match_child, first_leaf,
  leaf_match, match_names, before_path_ext, more_values,
}
use beego.Router.Static.{
  match_tree-plain, match_fix-other, match_fix-found, match_fix-missed, after_fix,
}

-- A segment without one of the extensions that `match` may leave out.
unfoldable pub no_ext : Text → Bool
no_ext seg =
    not (has_suffix seg (codes ".json"))
    && (not (has_suffix seg (codes ".xml")) && not (has_suffix seg (codes ".html")))

abbrev pub all_no_ext : List Text → Bool
all_no_ext [] = true
all_no_ext (seg ∷ segs) = no_ext seg && all_no_ext segs

abbrev pub same_path : List Text → List Text → Bool
same_path [] [] = true
same_path [] (_ ∷ _) = false
same_path (_ ∷ _) [] = false
same_path (s ∷ p) (t ∷ q) = text_eq s t && same_path p q

module _ {R : Type 0} where
  abbrev pub LeavesStatic : List (LeafInfo R) → Type 0
  LeavesStatic [] = Unit
  LeavesStatic (l ∷ ls) = (l.wildcards ≡ []) × (l.regexps ≡ none) × LeavesStatic ls

  -- A tree of routes without wildcards.
  unfoldable mutual
    pub TreeStatic : Tree R → Type 0
    TreeStatic (node prefix fix nil leaves) = TreesStatic fix × LeavesStatic leaves
    TreeStatic (node prefix fix (at _) leaves) = ⊥

    pub TreesStatic : Trees R → Type 0
    TreesStatic empty = Unit
    TreesStatic (cons t ts) = TreeStatic t × TreesStatic ts

  abbrev pub first_object : List (LeafInfo R) → Option R
  first_object [] = none
  first_object (l ∷ ls) = some l.run_object

  abbrev pub or_else : Option R → Option R → Option R
  or_else (some r) o = some r
  or_else none o = o

  -- The route that a tree has for the segments of a path.
  unfoldable mutual
    pub tree_lookup : Tree R → List Text → Option R
    tree_lookup (node prefix fix wild leaves) [] = first_object leaves
    tree_lookup (node prefix fix wild leaves) (seg ∷ segs) = trees_lookup fix seg segs

    pub trees_lookup : Trees R → Text → List Text → Option R
    trees_lookup empty seg segs = none
    trees_lookup (cons t ts) seg segs =
        let found = or_else (tree_lookup t segs) (trees_lookup ts seg segs) in
        if text_eq (prefix_of t) seg then found else trees_lookup ts seg segs

  module _ (re : Regexp) where
    pub match_ext-no_ext :
        (fix : Trees R) (seg str rest tp : Text) (values : List Text) (found : Option R)
        (ctx : Params)
        → has_suffix seg str ≡ false
        → match_ext re fix seg str rest tp values found ctx ≡ ok (found, ctx)
    unfolding match_ext
    match_ext-no_ext empty seg str rest tp values found ctx h = refl
    match_ext-no_ext (cons t ts) seg str rest tp values found ctx h =
        rw (h, match_ext) (match_ext-no_ext ts seg str rest tp values found ctx h)

    -- A leaf without wildcards does not match where there are values.
    first_leaf-values :
        (leaves : List (LeafInfo R)) (tp v : Text) (values : List Text) (ctx : Params)
        → LeavesStatic leaves
        → first_leaf re leaves tp (v ∷ values) ctx ≡ ok (none, ctx)
    unfolding first_leaf leaf_match match_names before_path_ext
    first_leaf-values [] tp v values ctx s = refl
    first_leaf-values (l ∷ leaves) tp v values ctx (w, r, s) =
        let apart : (0 == suc (length values)) ≡ false = ground arith in
        rw (r, w, apart) (first_leaf-values leaves tp v values ctx s)

    first_leaf-end :
        (leaves : List (LeafInfo R)) (tp : Text) (ctx : Params)
        → LeavesStatic leaves
        → first_leaf re leaves tp [] ctx ≡ ok (first_object leaves, ctx)
    unfolding first_leaf leaf_match match_names
    first_leaf-end [] tp ctx s = refl
    first_leaf-end (l ∷ leaves) tp ctx (w, r, s) = rw (r, w) refl

    match_end-static :
        (prefix : Text) (fix : Trees R) (leaves : List (LeafInfo R)) (tp : Text) (ctx : Params)
        → LeavesStatic leaves
        → match_tree re (node prefix fix nil leaves) tp (slashed []) [] ctx
          ≡ ok (first_object leaves, ctx)
    unfolding match_tree match_at trim_left slashed first_leaf
    match_end-static prefix fix leaves tp ctx s = rw (first_leaf-end leaves tp ctx s) (ended leaves)
      where
        ended :
            (ls : List (LeafInfo R))
            → unless_found (first_object ls, ctx) (λ ctx'. ok (none, ctx'))
              ≡ ok (first_object ls, ctx)
        ended [] = refl
        ended (l ∷ ls) = refl

    -- What follows the fixed routers, in a tree of routes without wildcards.
    after_fix-static :
        (fix : Trees R) (leaves : List (LeafInfo R)) (seg rest tp : Text) (found : Option R)
        (ctx : Params)
        → LeavesStatic leaves
        → no_ext seg ≡ true
        → after_fix re fix nil leaves seg rest [] (tp, (found, ctx)) ≡ ok (found, ctx)
    unfolding no_ext match_child
    after_fix-static fix leaves seg rest tp (some r) ctx s h = refl
    after_fix-static fix leaves seg rest tp none ctx s h =
        rw (match_ext-no_ext fix seg (codes ".json") rest tp [] none ctx (ground arith)) (
          rw (match_ext-no_ext fix seg (codes ".xml") rest tp [] none ctx (ground arith)) (
            rw (match_ext-no_ext fix seg (codes ".html") rest tp [] none ctx (ground arith))
              (first_leaf-values leaves tp seg (more_values rest) ctx s)))

    mutual
      unfolding match_fix tree_lookup TreeStatic

      pub match_tree-static :
          (t : Tree R) (segs : List Text) (tp : Text) (ctx : Params)
          → TreeStatic t
          → all_clean segs ≡ true
          → all_no_ext segs ≡ true
          → match_tree re t tp (slashed segs) [] ctx ≡ ok (tree_lookup t segs, ctx)
      match_tree-static (node prefix fix (at _) leaves) segs tp ctx s h k = absurd s
      match_tree-static (node prefix fix nil leaves) [] tp ctx (_, s) h k =
          match_end-static prefix fix leaves tp ctx s
      match_tree-static (node prefix fix nil leaves) (seg ∷ segs) tp ctx (f, s) h k =
          let (tp', e) = match_fix-static fix seg segs tp ctx f (ground arith) (ground arith) in
          match_tree-plain re prefix fix nil leaves tp seg segs [] ctx (ground arith)
          ∙ rw e (
              after_fix-static fix leaves seg (slashed segs) tp' (trees_lookup fix seg segs) ctx s
                (ground arith))

      pub match_fix-static :
          (fix : Trees R) (seg : Text) (segs : List Text) (tp : Text) (ctx : Params)
          → TreesStatic fix
          → all_clean segs ≡ true
          → all_no_ext segs ≡ true
          → (tp' : Text) × (match_fix re fix seg (slashed segs) tp [] ctx
              ≡ ok (tp', (trees_lookup fix seg segs, ctx)))
      match_fix-static empty seg segs tp ctx s h k = (tp, refl)
      match_fix-static (cons t ts) seg segs tp ctx (s, ss) h k =
          elim (Bool-cases (text_eq (prefix_of t) seg)) [
            | inr other ↦
                let (tp', e) = match_fix-static ts seg segs tp ctx ss h k in
                (tp', match_fix-other re t ts seg (slashed segs) tp [] ctx other ∙ rw other e)
            | inl same ↦
                let (tp', e) = match_fix-static ts seg segs (rest_of (slashed segs)) ctx ss h k in
                let below = match_tree-static t segs (rest_of (slashed segs)) ctx s h k in
                elim (Option-cases (tree_lookup t segs)) [
                  | inl q ↦ (
                    tp',
                    match_fix-missed re t ts seg (slashed segs) tp [] ctx ctx same (rw q at below)
                        ∙ rw (same, q) e,
                  )
                  | inr (r, q) ↦ (
                    rest_of (slashed segs),
                    match_fix-found re t ts seg (slashed segs) tp [] ctx ctx r same (rw q at below)
                        ∙ rw (same, q) refl,
                  )
                ]
          ]

    -- What an added route changes of a table.
    abbrev pub Updates : List Text → R → (Tree R → Outcome Failure (Tree R)) → Tree R → Type 0
    Updates p route f t =
        (t' : Tree R) × (f t ≡ ok t')
        × (prefix_of t' ≡ prefix_of t)
        × TreeStatic t'
        × ((q : List Text)
            → tree_lookup t' q ≡ (if same_path p q then some route else tree_lookup t q))

    pub update_fix-lookup :
        (seg : Text) (p : List Text) (route : R) (f : Tree R → Outcome Failure (Tree R))
        (fix : Trees R)
        → ((t : Tree R) → TreeStatic t → Updates p route f t)
        → TreesStatic fix
        → (fix' : Trees R) × (update_fix seg f fix ≡ ok fix')
          × TreesStatic fix'
          × ((s : Text) (q : List Text)
              → trees_lookup fix' s q
                ≡ (if text_eq seg s && same_path p q then some route else trees_lookup fix s q))
    unfolding update_fix tree_lookup TreeStatic
    update_fix-lookup seg p route f empty updates st =
        let (t', e, pre, st', found) = updates (new_tree seg) (tt, tt) in
        (cons t' empty, rw e refl, (st', tt), λ s q. rw (pre, found q) (ground arith))
    update_fix-lookup seg p route f (cons t ts) updates (st, sts) =
        elim (Bool-cases (text_eq (prefix_of t) seg)) [
          | inl same ↦
              let (t', e, pre, st', found) = updates t st in
              (
                cons t' ts,
                rw same (rw e refl),
                (st', sts),
                λ s q. rw (pre, found q) (ground (arith, text_eq_iff (prefix_of t) seg)),
              )
          | inr other ↦
              let (fix', e, st', found) = update_fix-lookup seg p route f ts updates sts in
              (
                cons t fix',
                rw (other, e) refl,
                (st, st'),
                λ s q. rw (found s q) (
                    ground (
                      arith,
                      text_eq_iff (prefix_of t) s,
                      text_eq_iff seg s,
                      text_eq_iff (prefix_of t) seg,
                    )),
              )
        ]
