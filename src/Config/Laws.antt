-- ===== src/Config/Laws.antt =====
-- core/config/config.go: what a value with an environment variable becomes.
use beego.Common.{
  ◌==◌, Bool, ◌&&◌, ℕ, ◌≡◌, refl, ap, sym, ◌∙◌, true, false, List, [], ◌∷◌, ◌++◌, Option, some,
  Text, codes, holds, arith, append_assoc, split, join, split-append, split-free,
}
use beego.Common.Paths.{has_prefix}
use beego.Config.{
  not_short, init, scan_key, is_variable, last_is, or_default, expand_value_env, string, strings,
}

init-append : (s : Text) (c : ℕ) → init (s ++ (c ∷ [])) ≡ s
init-append [] c = refl
init-append (d ∷ []) c = refl
init-append (d ∷ e ∷ s) c = ap (λ r. d ∷ r) (init-append (e ∷ s) c)

last_is-append : (s : Text) (c : ℕ) → last_is c (s ++ (c ∷ [])) ≡ true
last_is-append [] c = ground arith
last_is-append (d ∷ []) c = ground arith
last_is-append (d ∷ e ∷ s) c = last_is-append (e ∷ s) c

scan_key-plain :
    (key rest : Text)
    → holds b'|' key ≡ false
    → holds b'}' key ≡ false
    → scan_key (key ++ (b'}' ∷ rest)) ≡ (key, [])
unfolding scan_key holds
scan_key-plain [] rest h k = refl
scan_key-plain (c ∷ key) rest h k = ground (arith, scan_key-plain key rest)

scan_key-default :
    (key default_v : Text)
    → holds b'|' key ≡ false
    → holds b'}' key ≡ false
    → scan_key (key ++ (b'|' ∷ b'|' ∷ (default_v ++ (b'}' ∷ [])))) ≡ (key, default_v)
unfolding scan_key holds
scan_key-default [] default_v h k = ap (λ d. ([], d)) (init-append default_v b'}')
scan_key-default (c ∷ key) default_v h k = ground (arith, scan_key-default key default_v)

is_variable-append : (s : Text) → is_variable (b'$' ∷ b'{' ∷ (s ++ (b'}' ∷ []))) ≡ true
unfolding is_variable
is_variable-append [] = refl
is_variable-append (c ∷ s) = last_is-append (b'{' ∷ c ∷ s) b'}'

or_default-nil : (s : Text) → or_default s [] ≡ s
or_default-nil [] = refl
or_default-nil (c ∷ s) = refl

last_is-other : (s : Text) (c d : ℕ) → (d == c) ≡ false → last_is c (s ++ (d ∷ [])) ≡ false
last_is-other [] c d h = h
last_is-other (e ∷ []) c d h = h
last_is-other (e ∷ f ∷ s) c d h = last_is-other (f ∷ s) c d h

and_false : (b : Bool) → b && false ≡ false
and_false true = refl
and_false false = refl

unclosed : (s : Text) (c : ℕ) → (c == b'}') ≡ false → is_variable (s ++ (c ∷ [])) ≡ false
unfolding is_variable
unclosed s c h = rw (last_is-other s b'}' c h) (
    rw (and_false (has_prefix (s ++ (c ∷ [])) (codes "${")))
      (and_false (not_short (s ++ (c ∷ [])))))

unopened :
    (c d : ℕ) (s : Text) → ((c == b'$') && (d == b'{')) ≡ false → is_variable (c ∷ d ∷ s) ≡ false
unfolding is_variable
unopened c d s h = ground arith

-- A value `${key}` becomes the variable, and `${key||default}` becomes it or, where it is empty, the default, if the
-- name has no brace that closes and no bar. A value of two characters or more that do not begin with `${`
-- stays, and so does one that does not end with the brace.
pub expand_value_env_lem :
    (getenv : Text → Text) (key default_v value : Text) (c d last : ℕ)
    → holds b'|' key ≡ false
    → holds b'}' key ≡ false
    → ((c == b'$') && (d == b'{')) ≡ false
    → (last == b'}') ≡ false
    → (expand_value_env getenv (codes "${" ++ (key ++ codes "}")) ≡ getenv key)
      × (expand_value_env getenv (codes "${" ++ (key ++ (codes "||" ++ (default_v ++ codes "}"))))
          ≡ or_default (getenv key) default_v)
      × (expand_value_env getenv (c ∷ d ∷ value) ≡ c ∷ d ∷ value)
      × (expand_value_env getenv (value ++ (last ∷ [])) ≡ value ++ (last ∷ []))
unfolding expand_value_env
expand_value_env_lem getenv key default_v value c d last h k open_test close_test =
    let parts = b'|' ∷ b'|' ∷ default_v in
    let braced : is_variable (b'$' ∷ b'{' ∷ (key ++ (b'|' ∷ b'|' ∷ (default_v ++ (b'}' ∷ [])))))
        ≡ true =
      ap (λ (s : Text). is_variable (b'$' ∷ b'{' ∷ s)) (sym (append_assoc key parts (b'}' ∷ [])))
      ∙ is_variable-append (key ++ parts) in
    (
      rw (is_variable-append key, scan_key-plain key [] h k) (or_default-nil (getenv key)),
      rw (braced, scan_key-default key default_v h k) refl,
      rw (unopened c d value open_test) refl,
      rw (unclosed value last close_test) refl,
    )

abbrev pub NoSemicolon : List Text → Type 0
NoSemicolon [] = Unit
NoSemicolon (s ∷ parts) = (holds b';' s ≡ false) × NoSemicolon parts

split-join :
    (s : Text) (parts : List Text)
    → NoSemicolon (s ∷ parts)
    → split b';' (join (codes ";") (s ∷ parts)) ≡ s ∷ parts
unfolding join
split-join s [] (h, hs) = split-free b';' s h
split-join s (t ∷ parts) (h, hs) =
    split-append b';' s (join (codes ";") (t ∷ parts)) h ∙ ap (λ r. s ∷ r) (split-join t parts hs)

-- A list of texts without semicolons that is written as one text, which is not empty, is read back by Strings.
strings-join :
    (reader : Text → Option Text) (key s : Text) (parts : List Text) (c : ℕ) (rest : Text)
    → NoSemicolon (s ∷ parts)
    → join (codes ";") (s ∷ parts) ≡ c ∷ rest
    → reader key ≡ some (c ∷ rest)
    → strings reader key ≡ some (s ∷ parts)
unfolding strings string
strings-join reader key s parts c rest h e there =
    rw there (ap some (ap (split b';') (sym e) ∙ split-join s parts h))
