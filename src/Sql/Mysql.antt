-- ===== src/Sql/Mysql.antt =====
-- client/orm/qb_mysql.go: `MySQLQueryBuilder`, one function per method.
use beego.Common.{List, [], ◌∷◌, ◌++◌, Text, codes, join}
use beego.Common.Int.{ℤ}
use beego.Sql.{QueryBuilder, itoa}

abbrev pub comma_space : Text
comma_space = codes ", "

-- `qb.tokens = append(qb.tokens, ...)`
abbrev add : QueryBuilder → List Text → QueryBuilder
add qb ts = record qb { tokens = qb.tokens ++ ts }

unfoldable pub select : QueryBuilder → List Text → QueryBuilder
select qb fields = add qb (codes "SELECT" ∷ join comma_space fields ∷ [])

unfoldable pub for_update : QueryBuilder → QueryBuilder
for_update qb = add qb (codes "FOR UPDATE" ∷ [])

unfoldable pub from : QueryBuilder → List Text → QueryBuilder
from qb tables = add qb (codes "FROM" ∷ join comma_space tables ∷ [])

unfoldable pub inner_join : QueryBuilder → Text → QueryBuilder
inner_join qb table = add qb (codes "INNER JOIN" ∷ table ∷ [])

unfoldable pub left_join : QueryBuilder → Text → QueryBuilder
left_join qb table = add qb (codes "LEFT JOIN" ∷ table ∷ [])

unfoldable pub right_join : QueryBuilder → Text → QueryBuilder
right_join qb table = add qb (codes "RIGHT JOIN" ∷ table ∷ [])

unfoldable pub on : QueryBuilder → Text → QueryBuilder
on qb cond = add qb (codes "ON" ∷ cond ∷ [])

unfoldable pub where_cond : QueryBuilder → Text → QueryBuilder
where_cond qb cond = add qb (codes "WHERE" ∷ cond ∷ [])

unfoldable pub and : QueryBuilder → Text → QueryBuilder
and qb cond = add qb (codes "AND" ∷ cond ∷ [])

unfoldable pub or : QueryBuilder → Text → QueryBuilder
or qb cond = add qb (codes "OR" ∷ cond ∷ [])

unfoldable pub in_vals : QueryBuilder → List Text → QueryBuilder
in_vals qb vals = add qb (codes "IN" ∷ codes "(" ∷ join comma_space vals ∷ codes ")" ∷ [])

unfoldable pub order_by : QueryBuilder → List Text → QueryBuilder
order_by qb fields = add qb (codes "ORDER BY" ∷ join comma_space fields ∷ [])

unfoldable pub asc : QueryBuilder → QueryBuilder
asc qb = add qb (codes "ASC" ∷ [])

unfoldable pub desc : QueryBuilder → QueryBuilder
desc qb = add qb (codes "DESC" ∷ [])

unfoldable pub limit : QueryBuilder → ℤ → QueryBuilder
limit qb n = add qb (codes "LIMIT" ∷ itoa n ∷ [])

unfoldable pub offset : QueryBuilder → ℤ → QueryBuilder
offset qb n = add qb (codes "OFFSET" ∷ itoa n ∷ [])

unfoldable pub group_by : QueryBuilder → List Text → QueryBuilder
group_by qb fields = add qb (codes "GROUP BY" ∷ join comma_space fields ∷ [])

unfoldable pub having : QueryBuilder → Text → QueryBuilder
having qb cond = add qb (codes "HAVING" ∷ cond ∷ [])

unfoldable pub update : QueryBuilder → List Text → QueryBuilder
update qb tables = add qb (codes "UPDATE" ∷ join comma_space tables ∷ [])

unfoldable pub set_kv : QueryBuilder → List Text → QueryBuilder
set_kv qb kv = add qb (codes "SET" ∷ join comma_space kv ∷ [])

unfoldable pub delete : QueryBuilder → List Text → QueryBuilder
delete qb [] = add qb (codes "DELETE" ∷ [])
delete qb (t ∷ tables) = add (add qb (codes "DELETE" ∷ [])) (join comma_space (t ∷ tables) ∷ [])

unfoldable pub insert_into : QueryBuilder → Text → List Text → QueryBuilder
insert_into qb table [] = add qb (codes "INSERT INTO" ∷ table ∷ [])
insert_into qb table (f ∷ fields) =
    add (add qb (codes "INSERT INTO" ∷ table ∷ []))
      (codes "(" ∷ join comma_space (f ∷ fields) ∷ codes ")" ∷ [])

unfoldable pub values : QueryBuilder → List Text → QueryBuilder
values qb vals = add qb (codes "VALUES" ∷ codes "(" ∷ join comma_space vals ∷ codes ")" ∷ [])

unfoldable pub subquery : Text → Text → Text
subquery sub alias = codes "(" ++ sub ++ codes ") AS " ++ alias

unfoldable pub to_string : QueryBuilder → QueryBuilder × Text
to_string qb = (record qb { tokens = [] }, join (codes " ") qb.tokens)
