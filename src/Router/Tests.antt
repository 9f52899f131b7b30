-- ===== src/Router/Tests.antt =====
-- server/web/tree.go: routes and requests of server/web/tree_test.go.
use beego.Common.{ℕ, ◌≡◌, refl, false, [], ◌∷◌, none, some, Text, codes, split, join, holds}
use beego.Common.Outcome.{ok, ◌>>=◌}
use beego.Common.Paths.{
  trim, trim_left, trim_right, cut_at, has_suffix, path_join, clean, clean_parts, non_empty,
}
use beego.Common.Dict.{insert}
use beego.Slice.{in_slice}
use beego.Router.Segment.{split_path, split_segment, scan, scan_step, scan_end}
use beego.Router.Tree.{
  Regexp, new_tree, add_router, addseg, star_rules, wild_part, update_fix, update_fixrouters,
  update_wildcard, new_leaf, add_leaf, wildcard_regexps, slash_regexps,
}
use beego.Router.Match.{
  Found, match_path, match_tree, match_at, first_leaf, leaf_match, match_names, before_path_ext,
  unsnoc, set_path_ext, set_named, set_all, more_values, without,
}

abbrev no_regexp : Regexp
no_regexp = record { compiles = λ _. false; submatches = λ _ _. none }

-- The route 1 under a pattern, and what a request finds.
request : Text → Text → Found ℕ
unfolding add_router addseg star_rules wild_part update_fix update_fixrouters update_wildcard
    new_leaf add_leaf in_slice split_path trim trim_left trim_right split split_segment holds scan
    scan_step scan_end match_path match_tree match_at first_leaf leaf_match match_names
    before_path_ext unsnoc set_path_ext set_named set_all more_values without has_suffix cut_at
    path_join clean clean_parts non_empty join insert wildcard_regexps slash_regexps
request pattern path =
    add_router no_regexp pattern 1 (new_tree []) >>= λ t. match_path no_regexp t path []

static_found : request (codes "/customer/login") (codes "/customer/login") ≡ ok (some 1, [])
unfolding request
static_found = refl

json_found :
    request (codes "/customer/login") (codes "/customer/login.json")
    ≡ ok (some 1, (codes ":ext", codes "json") ∷ [])
unfolding request
json_found = refl

splat_found :
    request (codes "/*") (codes "/customer/2009/12/11")
    ≡ ok (some 1, (codes ":splat", codes "customer/2009/12/11") ∷ [])
unfolding request
splat_found = refl

path_found :
    request (codes "/:name/*.*") (codes "/nice/api.json")
    ≡ ok (
      some 1,
      (codes ":name", codes "nice")
          ∷ (codes ":ext", codes "json")
          ∷ (codes ":path", codes "api")
          ∷ [],
    )
unfolding request
path_found = refl

optional_found :
    request (codes "/api/projects/:pid/members/?:mid") (codes "/api/projects/1/members")
    ≡ ok (some 1, (codes ":pid", codes "1") ∷ [])
unfolding request
optional_found = refl

optional_given :
    request (codes "/api/projects/:pid/members/?:mid") (codes "/api/projects/1/members/2")
    ≡ ok (some 1, (codes ":pid", codes "1") ∷ (codes ":mid", codes "2") ∷ [])
unfolding request
optional_given = refl

suffix_not_found : request (codes "/suffix/*") (codes "/suffix.html/a") ≡ ok (none, [])
unfolding request
suffix_not_found = refl
