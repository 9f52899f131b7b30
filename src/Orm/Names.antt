-- ===== src/Orm/Names.antt =====
-- client/orm/utils.go: names of tables and columns, and the optional arguments of `ToStr`. A text stands for a
-- Go string of ASCII: `strings.ToLower` is given for that.
use beego.Common.{
  ℕ, ◌+◌, ◌-◌, ltb, leb, lt→ltb, get_elem?-some, ◌==◌, ◌≡◌, refl, Bool, true, false, not, ◌&&◌,
  ◌||◌, if◌then◌else◌, List, [], ◌∷◌, Option, none, some, Text, codes, text_eq, holds, length,
  get_elem?, arith,
}

abbrev pub is_upper : ℕ → Bool
is_upper c = leb 65 c && leb c 90

abbrev pub is_lower : ℕ → Bool
is_lower c = leb 97 c && leb c 122

-- `strings.ToLower`
unfoldable pub lower : ℕ → ℕ
lower c = if is_upper c then c + 32 else c

unfoldable pub to_lower : Text → Text
to_lower [] = []
to_lower (c ∷ s) = lower c ∷ to_lower s

-- The loop of `snakeString`; `first` is whether `i` is 0.
unfoldable pub snake_from : Bool → Bool → Text → Text
snake_from first j [] = []
snake_from first j (d ∷ s) =
    let rest = snake_from false (if d == b'_' then j else true) s in
    if not first && (is_upper d && j) then b'_' ∷ d ∷ rest else d ∷ rest

unfoldable pub snake_string : Text → Text
snake_string s = to_lower (snake_from true false s)

abbrev head_lower : Text → Bool
head_lower [] = false
head_lower (c ∷ s) = is_lower c

-- The loop of `snakeStringWithAcronym`; `before` is whether a small letter stands before.
unfoldable pub acronym_from : Bool → Bool → Text → Text
acronym_from first before [] = []
acronym_from first before (d ∷ s) =
    let rest = acronym_from false (is_lower d) s in
    if not first && (is_upper d && (before || head_lower s)) then b'_' ∷ d ∷ rest else d ∷ rest

unfoldable pub snake_string_with_acronym : Text → Text
snake_string_with_acronym s = to_lower (acronym_from true false s)

-- The loop of `camelString`.
unfoldable pub camel_from : Bool → Text → Text
camel_from flag [] = []
camel_from flag (d ∷ s) =
    let rest = camel_from (d == b'_') s in
    if d == b'_' then rest else if flag && is_lower d then (d - 32) ∷ rest else d ∷ rest

unfoldable pub camel_string : Text → Text
camel_string s = camel_from true s

camel-snake_from :
    (s : Text) → holds b'_' s ≡ false → camel_from false (to_lower (snake_from false true s)) ≡ s
unfolding camel_from to_lower snake_from lower holds
camel-snake_from [] h = refl
camel-snake_from (d ∷ s) h = ground (arith, camel-snake_from s)

-- A name without underscores that does not start with a small letter is got back from its snake form.
pub camel_string-snake_string :
    (d : ℕ) (s : Text)
    → holds b'_' (d ∷ s) ≡ false
    → is_lower d ≡ false
    → camel_string (snake_string (d ∷ s)) ≡ d ∷ s
unfolding camel_string snake_string camel_from to_lower snake_from lower holds
camel_string-snake_string d s h k = ground (arith, camel-snake_from s)

-- `nameStrategyMap`
abbrev pub name_strategy_map : Text → Option (Text → Text)
name_strategy_map strategy =
    if text_eq strategy (codes "snakeString")
    then some snake_string
    else if text_eq strategy (codes "snakeStringWithAcronym")
    then some snake_string_with_acronym
    else none

-- `nameStrategy = s`
abbrev assign : Text → Text → Text
assign name_strategy s = s

-- `SetNameStrategy`, from the strategy before to the one that it leaves.
unfoldable pub set_name_strategy : Text → Text → Text
set_name_strategy name_strategy s =
    assign
      (if text_eq (codes "snakeStringWithAcronym") s
        then name_strategy
        else assign name_strategy (codes "snakeString"))
      s

-- `argString.Get` and `argInt.Get`
abbrev pub or_zero {ℓ} : {A : Type ℓ} → A → Option A → A
or_zero zero_value none = zero_value
or_zero zero_value (some a) = a

abbrev pub first_of {ℓ} : {A : Type ℓ} → A → List A → A
first_of otherwise [] = otherwise
first_of otherwise (a ∷ args) = a

unfoldable pub arg_string_get : List Text → ℕ → List Text → Text
arg_string_get a i args = if ltb i (length a) then or_zero [] (get_elem? a i) else first_of [] args

unfoldable pub arg_int_get : List ℕ → ℕ → List ℕ → ℕ
arg_int_get a i args =
    let r = if ltb i (length a) then or_zero 0 (get_elem? a i) else 0 in first_of r args

-- Where a default is given, argInt.Get returns it, also for an index in range, where argString.Get returns the element.
pub arg_get_lem :
    (a : List ℕ) (b : List Text) (i d : ℕ) (e x : Text) (ds : List ℕ) (es : List Text)
    → get_elem? b i ≡ some x
    → (arg_int_get a i (d ∷ ds) ≡ d) × (arg_string_get b i (e ∷ es) ≡ x)
unfolding arg_int_get arg_string_get
arg_get_lem a b i d e x ds es h = (refl, rw (lt→ltb i (length b) (get_elem?-some b i h), h) refl)

abbrev pub without_underscores : Text → Text
without_underscores [] = []
without_underscores (c ∷ s) =
    let rest = without_underscores s in if c == b'_' then rest else c ∷ rest

snake_from-underscores :
    (first j : Bool) (s : Text)
    → without_underscores (to_lower (snake_from first j s)) ≡ to_lower (without_underscores s)
unfolding to_lower snake_from lower
snake_from-underscores first j [] = refl
snake_from-underscores first j (d ∷ s) =
    ground (arith, snake_from-underscores false true s, snake_from-underscores false j s)

acronym_from-underscores :
    (first before : Bool) (s : Text)
    → without_underscores (to_lower (acronym_from first before s))
      ≡ to_lower (without_underscores s)
unfolding to_lower acronym_from lower
acronym_from-underscores first before [] = refl
acronym_from-underscores first before (d ∷ s) =
    ground (arith, acronym_from-underscores false true s, acronym_from-underscores false false s)

-- Both strategies only add underscores and write small letters.
pub snake_strategies-underscores :
    (s : Text)
    → (without_underscores (snake_string s) ≡ to_lower (without_underscores s))
      × (without_underscores (snake_string_with_acronym s) ≡ to_lower (without_underscores s))
unfolding snake_string snake_string_with_acronym
snake_strategies-underscores s =
    (snake_from-underscores true false s, acronym_from-underscores true false s)
