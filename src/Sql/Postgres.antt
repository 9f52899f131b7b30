-- ===== src/Sql/Postgres.antt =====
-- client/orm/qb_postgres.go: `PostgresQueryBuilder`, one function per method. `Select` reads its first field,
-- and panics where there is none.
use beego.Common.{List, [], ◌∷◌, ◌++◌, if◌then◌else◌, Text, text_eq, codes, join, split}
use beego.Common.Int.{ℤ}
use beego.Common.Outcome.{Outcome, ok, panic}
use beego.Sql.{QueryBuilder, remove, itoa}

abbrev pub comma_space : Text
comma_space = codes ", "

-- `qb.tokens = append(qb.tokens, ...)`
abbrev add : QueryBuilder → List Text → QueryBuilder
add qb ts = record qb { tokens = qb.tokens ++ ts }

abbrev quote : Text
quote = codes "\""

abbrev pub quoted : Text → Text
quoted s = quote ++ s ++ quote

unfoldable pub processing_str : List Text → Text
processing_str str = quoted (join (codes "\",\"") str)

-- A name with the parts between its dots quoted.
unfoldable pub quote_parts : Text → Text
quote_parts s = quoted (join (codes "\".\"") (split b'.' s))

-- The loop of `Select`, which puts a comma after each field but the last.
unfoldable pub select_list : List Text → Text
select_list [] = []
select_list (f ∷ []) = quote_parts f
select_list (f ∷ g ∷ fields) = quote_parts f ++ codes "," ++ select_list (g ∷ fields)

pub data Failure : Type 0 where
  index_out_of_range : Failure

abbrev pub selected : Text → List Text → Text
selected f fields = if text_eq f (codes "*") then codes "*" else select_list (f ∷ fields)

unfoldable pub select : QueryBuilder → List Text → Outcome Failure QueryBuilder
select qb [] = panic index_out_of_range
select qb (f ∷ fields) = ok (add qb (codes "SELECT" ∷ selected f fields ∷ []))

unfoldable pub for_update : QueryBuilder → QueryBuilder
for_update qb = add qb (codes "FOR UPDATE" ∷ [])

unfoldable pub from : QueryBuilder → List Text → QueryBuilder
from qb tables = add qb (codes "FROM" ∷ processing_str tables ∷ [])

unfoldable pub inner_join : QueryBuilder → Text → QueryBuilder
inner_join qb table = add qb (codes "INNER JOIN" ∷ quoted table ∷ [])

unfoldable pub left_join : QueryBuilder → Text → QueryBuilder
left_join qb table = add qb (codes "LEFT JOIN" ∷ quoted table ∷ [])

unfoldable pub right_join : QueryBuilder → Text → QueryBuilder
right_join qb table = add qb (codes "RIGHT JOIN" ∷ quoted table ∷ [])

-- The loop of `On` over the sides of the condition after the first.
unfoldable pub on_rest : List Text → Text
on_rest [] = []
on_rest (s ∷ slice) = quote_parts s ++ on_rest slice

unfoldable pub on_sides : List Text → Text
on_sides [] = []
on_sides (s ∷ slice) = quote_parts s ++ codes " =" ++ codes " " ++ on_rest slice

unfoldable pub on : QueryBuilder → Text → QueryBuilder
on qb cond = add qb (codes "ON" ∷ on_sides (split b'=' (remove b' ' cond)) ∷ [])

unfoldable pub where_cond : QueryBuilder → Text → QueryBuilder
where_cond qb cond = add qb (codes "WHERE" ∷ cond ∷ [])

unfoldable pub and : QueryBuilder → Text → QueryBuilder
and qb cond = add qb (codes "AND" ∷ cond ∷ [])

unfoldable pub or : QueryBuilder → Text → QueryBuilder
or qb cond = add qb (codes "OR" ∷ cond ∷ [])

unfoldable pub in_vals : QueryBuilder → List Text → QueryBuilder
in_vals qb vals = add qb (codes "IN" ∷ codes "(" ∷ join comma_space vals ∷ codes ")" ∷ [])

unfoldable pub order_by : QueryBuilder → List Text → QueryBuilder
order_by qb fields = add qb (codes "ORDER BY" ∷ processing_str fields ∷ [])

unfoldable pub asc : QueryBuilder → QueryBuilder
asc qb = add qb (codes "ASC" ∷ [])

unfoldable pub desc : QueryBuilder → QueryBuilder
desc qb = add qb (codes "DESC" ∷ [])

unfoldable pub limit : QueryBuilder → ℤ → QueryBuilder
limit qb n = add qb (codes "LIMIT" ∷ itoa n ∷ [])

unfoldable pub offset : QueryBuilder → ℤ → QueryBuilder
offset qb n = add qb (codes "OFFSET" ∷ itoa n ∷ [])

unfoldable pub group_by : QueryBuilder → List Text → QueryBuilder
group_by qb fields = add qb (codes "GROUP BY" ∷ processing_str fields ∷ [])

unfoldable pub having : QueryBuilder → Text → QueryBuilder
having qb cond = add qb (codes "HAVING" ∷ cond ∷ [])

unfoldable pub update : QueryBuilder → List Text → QueryBuilder
update qb tables = add qb (codes "UPDATE" ∷ processing_str tables ∷ [])

unfoldable pub set_kv : QueryBuilder → List Text → QueryBuilder
set_kv qb kv = add qb (codes "SET" ∷ join comma_space kv ∷ [])

unfoldable pub delete : QueryBuilder → List Text → QueryBuilder
delete qb [] = add qb (codes "DELETE" ∷ [])
delete qb (t ∷ tables) = add (add qb (codes "DELETE" ∷ [])) (processing_str (t ∷ tables) ∷ [])

unfoldable pub insert_into : QueryBuilder → Text → List Text → QueryBuilder
insert_into qb table [] = add qb (codes "INSERT INTO" ∷ quoted table ∷ [])
insert_into qb table (f ∷ fields) =
    add (add qb (codes "INSERT INTO" ∷ quoted table ∷ []))
      (codes "(" ∷ join comma_space (f ∷ fields) ∷ codes ")" ∷ [])

unfoldable pub values : QueryBuilder → List Text → QueryBuilder
values qb vals = add qb (codes "VALUES" ∷ codes "(" ∷ join comma_space vals ∷ codes ")" ∷ [])

unfoldable pub subquery : Text → Text → Text
subquery sub alias = codes "(" ++ sub ++ codes ") AS " ++ alias

unfoldable pub to_string : QueryBuilder → QueryBuilder × Text
to_string qb = (record qb { tokens = [] }, join (codes " ") qb.tokens)
