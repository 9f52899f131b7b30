-- ===== src/Router/Examples.antt =====
-- The theorems on routes at concrete inputs.
use beego.Common.{holds, false, ℕ, ◌≡◌, refl, List, [], ◌∷◌, none, some, Text, codes}
use beego.Common.Outcome.{ok, panic}
use beego.Common.Dict.{insert}
use beego.Common.Paths.{has_suffix}
use beego.Router.Plain.{slashed, is_clean, is_fixed}
use beego.Router.Tree.{
  Regexp, index_out_of_range, Tree, node, Trees, empty, cons, nil, new_tree, add_router,
}
use beego.Router.Match.{match_path}
use beego.Router.Static.{match_path-add_router}
use beego.Router.Table.{no_ext, TreeStatic, tree_lookup, trees_lookup}
use beego.Router.Routes.{add_routers, last_under, match_path-add_routers}
use beego.Router.Param.{param_result, match_path-add_param}
use beego.Router.Wildcards.{path_ext_root_panics, splat_shadowed}

abbrev no_regexp : Regexp
no_regexp = record { compiles = λ _. false; submatches = λ _ _. none }

abbrev routes : List (List Text × ℕ)
routes =
    (codes "user" ∷ codes "list" ∷ [], 1)
    ∷ (codes "user" ∷ [], 2)
    ∷ (codes "user" ∷ codes "list" ∷ [], 3)
    ∷ []

abbrev users : Trees ℕ
users =
    cons
      (node (codes "list") empty nil
        (record { wildcards = []; regexps = none; run_object = 4 } ∷ []))
      empty

match_path-add_router_example :
    (t' : Tree ℕ) × (add_router no_regexp
        (slashed (codes "user" ∷ codes "list" ∷ []))
        7
        (node [] users nil [])
      ≡ ok t')
    × (match_path no_regexp t' (slashed (codes "user" ∷ codes "list" ∷ [])) [] ≡ ok (some 7, []))
unfolding is_clean is_fixed holds
match_path-add_router_example =
    match_path-add_router no_regexp (codes "user") (codes "list" ∷ []) 7 (node [] users nil []) []
      refl refl

match_path-add_routers_example :
    (t : Tree ℕ) × (add_routers no_regexp routes (new_tree []) ≡ ok t)
    × (match_path no_regexp t (slashed (codes "user" ∷ codes "list" ∷ [])) []
        ≡ ok (last_under routes (codes "user" ∷ codes "list" ∷ []) none, []))
unfolding is_clean is_fixed holds no_ext has_suffix
match_path-add_routers_example =
    match_path-add_routers no_regexp routes (codes "user") (codes "list" ∷ []) [] refl refl refl

match_path-add_param_example :
    (t : Tree ℕ) × (add_router no_regexp (slashed (codes ":id" ∷ [])) 9 (node [] users nil [])
      ≡ ok t)
    × (match_path no_regexp t (slashed (codes "17" ∷ [])) []
        ≡ ok (param_result (trees_lookup users (codes "17") []) (codes "id") 9 (codes "17") []))
unfolding is_clean holds no_ext has_suffix TreeStatic
match_path-add_param_example =
    match_path-add_param no_regexp (codes "id") [] (codes "17") 9 users [] [] refl refl refl
      (((tt, (refl, refl, tt)), tt)) refl refl

path_ext_root_panics_example :
    (t : Tree ℕ) × (add_router no_regexp (codes "/*.*") 5 (node [] users nil []) ≡ ok t)
    × (match_path no_regexp t (codes "/") [] ≡ panic index_out_of_range)
path_ext_root_panics_example = path_ext_root_panics no_regexp [] 5 users []

splat_shadowed_example :
    ((t : Tree ℕ) × (add_router no_regexp (codes "/*") 6 (node [] empty nil []) ≡ ok t)
      × (match_path no_regexp t (slashed (codes "user" ∷ codes "all" ∷ [])) []
          ≡ ok (some 6, insert (codes ":splat") (codes "user/all") [])))
    × ((t : Tree ℕ) × (add_router no_regexp
            (codes "/*")
            6
            (node [] (cons (node (codes "user") users nil []) empty) nil [])
          ≡ ok t)
        × (match_path no_regexp t (slashed (codes "user" ∷ codes "all" ∷ [])) []
            ≡ ok (some 6, insert (codes ":splat") (codes "all") [])))
unfolding is_clean holds no_ext has_suffix TreeStatic tree_lookup
splat_shadowed_example =
    splat_shadowed no_regexp [] (codes "user") (codes "all") 6 users [] [] [] refl refl refl refl
      (((tt, (refl, refl, tt)), tt), tt) refl
