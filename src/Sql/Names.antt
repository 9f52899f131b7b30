-- ===== src/Sql/Names.antt =====
-- The names that `PostgresQueryBuilder` of client/orm/qb_postgres.go puts in quotes.
use beego.Common.{
  ℕ, ◌==◌, ◌≡◌, refl, ap, ◌∙◌, false, List, [], ◌∷◌, ◌++◌, arith, Text, codes, split, split-pair,
  holds, join, join-split, append_nil, append_assoc, Bool-cases, inl, inr,
}
use beego.Sql.{QueryBuilder, remove}
use beego.Sql.Postgres.{quoted, processing_str, quote_parts, select_list, on_rest, on_sides, on}

remove-append : (c : ℕ) (s t : Text) → remove c (s ++ t) ≡ remove c s ++ remove c t
unfolding remove
remove-append c [] t = refl
remove-append c (d ∷ s) t = elim (Bool-cases (d == c)) [
  | inl e ↦ rw e (remove-append c s t)
  | inr e ↦ rw e (ap (λ r. d ∷ r) (remove-append c s t))
]

remove-quoted : (s : Text) → remove b'"' (quoted s) ≡ remove b'"' s
unfolding remove
remove-quoted s = remove-append b'"' s (codes "\"") ∙ append_nil (remove b'"' s)

-- Joining by texts that are the same without quotes gives texts that are the same without quotes.
remove-join :
    (sep other : Text) (elems : List Text)
    → remove b'"' sep ≡ remove b'"' other
    → remove b'"' (join sep elems) ≡ remove b'"' (join other elems)
unfolding join remove
remove-join sep other [] h = refl
remove-join sep other (s ∷ []) h = refl
remove-join sep other (s ∷ t ∷ elems) h =
    rw
      (
        remove-append b'"' s (sep ++ join sep (t ∷ elems)),
        remove-append b'"' s (other ++ join other (t ∷ elems)),
        remove-append b'"' sep (join sep (t ∷ elems)),
        remove-append b'"' other (join other (t ∷ elems)),
        h,
        remove-join sep other (t ∷ elems) h,
      )
      refl

-- The list of names that `From`, `OrderBy`, `GroupBy`, `Update` and `Delete` write is, but for the quotes, the
-- names separated by commas.
pub remove-processing_str :
    (str : List Text) → remove b'"' (processing_str str) ≡ remove b'"' (join (codes ",") str)
unfolding processing_str remove
remove-processing_str str =
    remove-quoted (join (codes "\",\"") str) ∙ remove-join (codes "\",\"") (codes ",") str refl

remove-quote_parts : (s : Text) → remove b'"' (quote_parts s) ≡ remove b'"' s
unfolding quote_parts remove
remove-quote_parts s =
    remove-quoted (join (codes "\".\"") (split b'.' s))
    ∙ remove-join (codes "\".\"") (codes ".") (split b'.' s) refl
    ∙ ap (remove b'"') (join-split b'.' s)

-- The fields that `Select` writes are, but for the quotes, the fields separated by commas.
remove-select_list :
    (fields : List Text) → remove b'"' (select_list fields) ≡ remove b'"' (join (codes ",") fields)
unfolding select_list remove join
remove-select_list [] = refl
remove-select_list (f ∷ []) = remove-quote_parts f
remove-select_list (f ∷ g ∷ fields) =
    rw
      (
        append_assoc (quote_parts f) (codes ",") (select_list (g ∷ fields)),
        remove-append b'"' (quote_parts f) (b',' ∷ select_list (g ∷ fields)),
        remove-append b'"' f (b',' ∷ join (codes ",") (g ∷ fields)),
        remove-quote_parts f,
        remove-select_list (g ∷ fields),
      )
      refl

holds-remove : (c d : ℕ) (s : Text) → holds c s ≡ false → holds c (remove d s) ≡ false
unfolding holds remove
holds-remove c d [] h = refl
holds-remove c d (e ∷ s) h = ground (arith, holds-remove c d s)

-- A condition with one equals sign is written with the parts of the names on its two sides in quotes, and
-- the equals sign between spaces; its own spaces are dropped.
pub on_lem :
    (qb : QueryBuilder) (left right : Text)
    → holds b'=' left ≡ false
    → holds b'=' right ≡ false
    → on qb (left ++ b'=' ∷ right) ≡ record {
      tokens =
          qb.tokens
          ++ (codes "ON"
              ∷ (quote_parts (remove b' ' left) ++ (codes " = " ++ quote_parts (remove b' ' right)))
              ∷ []);
    }
unfolding on on_sides on_rest remove
on_lem qb left right hl hr =
    rw
      (
        remove-append b' ' left (b'=' ∷ right),
        split-pair b'=' (remove b' ' left) (remove b' ' right) (holds-remove b'=' b' ' left hl)
            (holds-remove b'=' b' ' right hr),
        append_nil (quote_parts (remove b' ' right)),
        append_assoc (quote_parts (remove b' ' left) ++ codes " =") (codes " ")
            (quote_parts (remove b' ' right)),
        append_assoc (quote_parts (remove b' ' left)) (codes " =")
            (b' ' ∷ quote_parts (remove b' ' right)),
      )
      refl
