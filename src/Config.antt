-- ===== src/Config.antt =====
-- core/config/config.go: values with environment variables, the getters of `BaseConfiger`, and the adapters. The
-- reader of a configuration, `os.Getenv` and the parsers of package strconv are parameters.
use beego.Common.{
  ℕ, ◌==◌, Bool, true, false, ◌&&◌, ◌||◌, if◌then◌else◌, List, [], ◌∷◌, Option, none, some, ◌⊎◌,
  inl, inr, Text, codes, text_eq, split, reverse, drop,
}
use beego.Common.Dict.{Dict, lookup, insert}
use beego.Common.Outcome.{Outcome, ok, panic}
use beego.Common.Paths.{has_prefix, has_suffix}
mod Laws
mod Examples

-- The text before its last character.
abbrev pub init : Text → Text
init [] = []
init (c ∷ []) = []
init (c ∷ d ∷ s) = c ∷ init (d ∷ s)

abbrev pub next_is : ℕ → Text → Bool
next_is c [] = false
next_is c (d ∷ s) = d == c

-- The loop of `ExpandValueEnv` over what follows `${`: the name of the variable, and the default with the last brace
-- where there is one.
unfoldable pub scan_key : Text → Text × Text
scan_key [] = ([], [])
scan_key (c ∷ s) =
    let rest = scan_key s in
    if (c == b'|') && next_is b'|' s
    then ([], init (drop 1 s))
    else if c == b'}'
    then ([], [])
    else (c ∷ rest.0, rest.1)

abbrev pub not_short : Text → Bool
not_short [] = false
not_short (a ∷ []) = false
not_short (a ∷ b ∷ []) = false
not_short (a ∷ b ∷ c ∷ s) = true

abbrev pub last_is : ℕ → Text → Bool
last_is c [] = false
last_is c (d ∷ []) = d == c
last_is c (d ∷ e ∷ s) = last_is c (e ∷ s)

-- The tests for a value of the form `${...}`.
unfoldable pub is_variable : Text → Bool
is_variable value = not_short value && (has_prefix value (codes "${") && last_is b'}' value)

abbrev pub or_default : Text → Text → Text
or_default [] default_v = default_v
or_default (c ∷ s) default_v = c ∷ s

unfoldable pub expand_value_env : (Text → Text) → Text → Text
expand_value_env getenv value =
    let found = scan_key (drop 2 value) in
    if is_variable value then or_default (getenv found.0) found.1 else value

unfoldable pub one_of : List Text → Text → Bool
one_of [] s = false
one_of (t ∷ ts) s = let rest = one_of ts s in if text_eq t s then true else rest

abbrev pub true_words : List Text
true_words =
    codes "1"
    ∷ codes "t"
    ∷ codes "T"
    ∷ codes "true"
    ∷ codes "TRUE"
    ∷ codes "True"
    ∷ codes "YES"
    ∷ codes "yes"
    ∷ codes "Yes"
    ∷ codes "Y"
    ∷ codes "y"
    ∷ codes "ON"
    ∷ codes "on"
    ∷ codes "On"
    ∷ []

abbrev pub false_words : List Text
false_words =
    codes "0"
    ∷ codes "f"
    ∷ codes "F"
    ∷ codes "false"
    ∷ codes "FALSE"
    ∷ codes "False"
    ∷ codes "NO"
    ∷ codes "no"
    ∷ codes "No"
    ∷ codes "N"
    ∷ codes "n"
    ∷ codes "OFF"
    ∷ codes "off"
    ∷ codes "Off"
    ∷ []

-- `ParseBool` of a string, `none` for an error.
unfoldable pub parse_bool : Text → Option Bool
parse_bool s =
    if one_of true_words s then some true else if one_of false_words s then some false else none

-- An error of the reader or of a parser is `none`.
module _ (reader : Text → Option Text) where
  abbrev or_fail {ℓ} : {A : Type ℓ} → (Text → Option A) → Option Text → Option A
  or_fail parse none = none
  or_fail parse (some res) = parse res

  abbrev or_else {ℓ} : {A : Type ℓ} → A → Option A → A
  or_else default_val none = default_val
  or_else default_val (some a) = a

  unfoldable pub string : Text → Option Text
  string key = reader key

  -- `Int`, `Int64` and `Float`, with the parser that each calls.
  unfoldable pub number {ℓ} : {A : Type ℓ} → (Text → Option A) → Text → Option A
  number parse key = or_fail parse (reader key)

  unfoldable pub bool : Text → Option Bool
  bool key = or_fail parse_bool (reader key)

  -- The list is nil for an empty text.
  abbrev split_unless_empty : Text → List Text
  split_unless_empty [] = []
  split_unless_empty (c ∷ s) = split b';' (c ∷ s)

  unfoldable pub strings : Text → Option (List Text)
  strings key = or_fail (λ res. some (split_unless_empty res)) (string key)

  unfoldable pub default_string : Text → Text → Text
  default_string key default_val = or_default (or_else [] (string key)) default_val

  abbrev or_list : List Text → List Text → List Text
  or_list [] default_val = default_val
  or_list (s ∷ res) default_val = s ∷ res

  unfoldable pub default_strings : Text → List Text → List Text
  default_strings key default_val = or_list (or_else [] (strings key)) default_val

  unfoldable pub default_number {ℓ} : {A : Type ℓ} → (Text → Option A) → Text → A → A
  default_number parse key default_val = or_else default_val (number parse key)

  unfoldable pub default_bool : Text → Bool → Bool
  default_bool key default_val = or_else default_val (bool key)

pub data Failure : Type 0 where
  adapter_is_nil : Failure
  called_twice : Text → Failure

module _ {ℓ} {C : Type ℓ} where
  abbrev unless_there : Dict C → Text → C → Option C → Outcome Failure (Dict C)
  unless_there adapters name adapter none = ok (insert name adapter adapters)
  unless_there adapters name adapter (some old) = panic (called_twice name)

  -- `Register`, of an adapter or nil.
  unfoldable pub register : Dict C → Text → Option C → Outcome Failure (Dict C)
  register adapters name none = panic adapter_is_nil
  register adapters name (some adapter) = unless_there adapters name adapter (lookup name adapters)
