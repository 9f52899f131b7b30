-- ===== src/Orm/Order.antt =====
-- client/orm/clauses/order_clause/order.go: the orders of a query, and `getOrderSQL` of client/orm/db_tables.go.
use beego.Common.{
  ℕ, suc, ◌==◌, ◌≡◌, refl, ap, ◌∙◌, Bool, true, false, ◌&&◌, if◌then◌else◌, List, [], ◌∷◌, ◌++◌,
  Option, none, some, Text, codes, join, split, length, Bool-cases, ◌⊎◌, inl, inr,
}
use beego.Common.Outcome.{Outcome, ok, panic, ◌>>=◌}
use beego.Orm.Cond.Store.{split_sep, push}
use beego.Orm.Cond.Where.{Models}

pub data Sort : Type 0 where
  unsorted : Sort
  ascending : Sort
  descending : Sort

pub record Order : Type 0 where
  pub column : Text
  pub sort : Sort
  pub is_raw : Bool

pub data Failure : Type 0 where
  index_out_of_range : Failure
  unknown_name : List Text → Failure

abbrev pub sort_string : Sort → Text
sort_string unsorted = []
sort_string ascending = codes "ASC"
sort_string descending = codes "DESC"

-- `strings.ReplaceAll(s, "__", ".")`
abbrev pub replace_sep : Text → Text
replace_sep s = join (codes ".") (split_sep s)

-- `Clause`, from the options `Column`, those of the order, and `Raw`.
pub data Opt : Type 0 where
  column_opt : Text → Opt
  sort_opt : Sort → Opt
  raw_opt : Opt

abbrev apply : Opt → Order → Order
apply (column_opt column) o = record o { column = replace_sep column }
apply (sort_opt s) o = record o { sort = s }
apply raw_opt o = record o { is_raw = true }

unfoldable pub clause_from : Order → List Opt → Order
clause_from o [] = o
clause_from o (opt ∷ options) = clause_from (apply opt o) options

unfoldable pub clause : List Opt → Order
clause options = clause_from (record { column = []; sort = unsorted; is_raw = false }) options

-- The round of `ParseOrder` for one expression, of its text with points.
unfoldable pub order_of : Text → Outcome Failure Order
order_of [] = panic index_out_of_range
order_of (c ∷ column) =
    if c == b'-'
    then ok (record { column = column; sort = descending; is_raw = false })
    else ok (record { column = c ∷ column; sort = ascending; is_raw = false })

unfoldable pub parse_order : List Text → Outcome Failure (List Order)
parse_order [] = ok []
parse_order (expression ∷ expressions) =
    order_of (replace_sep expression) >>= λ o. parse_order expressions >>= λ orders. ok (o ∷ orders)

module _ {ℓ κ μ} {A : Type ℓ} {F : Type κ} {T : Type μ} (quote : Text) (models : Models A F T) where
  abbrev quoted : Text → Text
  quoted s = quote ++ (s ++ quote)

  unfoldable pub raw_sql : List Text → Text → Outcome Failure Text
  raw_sql (table ∷ column ∷ []) sort =
      ok (table ++ (codes "." ++ (quoted column ++ (codes " " ++ sort))))
  raw_sql (column ∷ []) sort = ok (quoted column ++ (codes " " ++ sort))
  raw_sql other sort = panic (unknown_name other)

  unfoldable pub found_sql : List Text → Text → T × Option (Text × F) → Outcome Failure (T × Text)
  found_sql parts sort (t, none) = panic (unknown_name parts)
  found_sql parts sort (t, some (index, fi)) =
      ok (t, index ++ (codes "." ++ (quoted (models.column fi) ++ (codes " " ++ sort))))

  unfoldable pub order_sql : T → Order → Outcome Failure (T × Text)
  order_sql t o =
      let parts = split b'.' o.column in
      let sort = sort_string o.sort in
      if o.is_raw
      then (raw_sql parts sort >>= λ sql. ok (t, sql))
      else found_sql parts sort (models.parse_exprs t parts)

  unfoldable pub order_sqls : T → List Order → Outcome Failure (T × List Text)
  order_sqls t [] = ok (t, [])
  order_sqls t (o ∷ orders) =
      order_sql t o >>= λ r. order_sqls r.0 orders >>= λ rs. ok (rs.0, r.1 ∷ rs.1)

  unfoldable pub get_order_sql : T → List Order → Outcome Failure (T × Text)
  get_order_sql t [] = ok (t, [])
  get_order_sql t (o ∷ orders) = order_sqls t (o ∷ orders) >>= λ r.
      ok (r.0, codes "ORDER BY " ++ (join (codes ", ") r.1 ++ codes " "))

abbrev pub has_empty : List Text → Bool
has_empty [] = false
has_empty ([] ∷ expressions) = true
has_empty ((c ∷ s) ∷ expressions) = has_empty expressions

split_sep_sep :
    (c d : ℕ) (s : Text)
    → (c == b'_') && (d == b'_') ≡ true
    → split_sep (c ∷ d ∷ s) ≡ [] ∷ split_sep s
unfolding split_sep
split_sep_sep c d s h = rw (h, split_sep) refl

split_sep_other :
    (c d : ℕ) (s : Text)
    → (c == b'_') && (d == b'_') ≡ false
    → split_sep (c ∷ d ∷ s) ≡ push c (split_sep (d ∷ s))
unfolding split_sep
split_sep_other c d s h = rw (h, split_sep) refl

split_sep-cons : (s : Text) → (part : Text) × (parts : List Text) × (split_sep s ≡ part ∷ parts)
unfolding split_sep
split_sep-cons [] = ([], [], refl)
split_sep-cons (c ∷ []) = (c ∷ [], [], refl)
split_sep-cons (c ∷ d ∷ s) =
    let (part, parts, e) = split_sep-cons (d ∷ s) in
    elim (Bool-cases ((c == b'_') && (d == b'_'))) [
      | inl sep ↦ ([], split_sep s, split_sep_sep c d s sep)
      | inr other ↦ (c ∷ part, parts, split_sep_other c d s other ∙ ap (push c) e)
    ]

join-cons :
    (c : ℕ) (part : Text) (parts : List Text)
    → (d : ℕ) × (r : Text) × (join (codes ".") ((c ∷ part) ∷ parts) ≡ d ∷ r)
unfolding join
join-cons c part [] = (c, part, refl)
join-cons c part (p ∷ parts) = (c, _, refl)

-- An expression that is not empty does not become empty.
not-empty : (c : ℕ) (s : Text) → (d : ℕ) × (r : Text) × (replace_sep (c ∷ s) ≡ d ∷ r)
unfolding join split_sep
not-empty c [] = (c, [], refl)
not-empty c (d ∷ s) =
    let (part, parts, e) = split_sep-cons (d ∷ s) in
    elim (Bool-cases ((c == b'_') && (d == b'_'))) [
      | inl sep ↦
          let (p, ps, f) = split_sep-cons s in
          (
            b'.',
            join (codes ".") (p ∷ ps),
            ap (join (codes ".")) (split_sep_sep c d s sep ∙ ap (λ l. [] ∷ l) f),
          )
      | inr other ↦
          let (x, r, f) = join-cons c part parts in
          (x, r, ap (join (codes ".")) (split_sep_other c d s other ∙ ap (push c) e) ∙ f)
    ]

order_of-cons : (c : ℕ) (column : Text) → (o : Order) × (order_of (c ∷ column) ≡ ok o)
unfolding order_of
order_of-cons c column = elim (Bool-cases (c == b'-')) [
  | inl e ↦ (record { column = column; sort = descending; is_raw = false }, rw e refl)
  | inr e ↦ (record { column = c ∷ column; sort = ascending; is_raw = false }, rw e refl)
]

-- ParseOrder panics where one of the expressions is empty, and otherwise gives one order for each.
pub parse_order_lem :
    (expressions : List Text)
    → ((has_empty expressions ≡ true) × (parse_order expressions ≡ panic index_out_of_range))
      ⊎ ((has_empty expressions ≡ false)
          × (orders : List Order) × (parse_order expressions ≡ ok orders)
          × (length orders ≡ length expressions))
unfolding parse_order
parse_order_lem [] = inr (refl, [], refl, refl)
parse_order_lem ([] ∷ expressions) = inl (refl, unfold order_of join split_sep in refl)
parse_order_lem ((c ∷ s) ∷ expressions) =
    let (d, r, e) = not-empty c s in
    let (o, f) = order_of-cons d r in
    elim (parse_order_lem expressions) [
      | inl (h, fails) ↦ inl (h, rw (e, f, fails) refl)
      | inr (h, orders, g, same) ↦ inr (h, o ∷ orders, rw (e, f, g) refl, ap suc same)
    ]
