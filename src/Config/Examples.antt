-- ===== src/Config/Examples.antt =====
-- The theorems on configuration values at concrete inputs.
use beego.Common.{◌≡◌, refl, [], Text, codes, holds}
use beego.Config.{expand_value_env}
use beego.Config.Laws.{expand_value_env_lem}

abbrev no_variable : Text → Text
no_variable key = []

expand_value_env_lem_example :
    (expand_value_env no_variable (codes "${GOASTA}") ≡ [])
    × (expand_value_env no_variable (codes "${GOASTA||/usr/local/go}") ≡ codes "/usr/local/go")
    × (expand_value_env no_variable (codes "xAtaxie") ≡ codes "xAtaxie")
    × (expand_value_env no_variable (codes "taxie.") ≡ codes "taxie.")
unfolding holds
expand_value_env_lem_example =
    expand_value_env_lem no_variable (codes "GOASTA") (codes "/usr/local/go") (codes "taxie") b'x'
      b'A' b'.' refl refl refl refl
