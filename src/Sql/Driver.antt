-- ===== src/Sql/Driver.antt =====
-- client/orm/qb.go: `NewQueryBuilder`, and the calls of the methods of a builder one after the other.
-- `TiDBQueryBuilder` of client/orm/qb_tidb.go has the methods of the MySQL builder that it embeds.
use beego.Common.{List, [], ◌∷◌, Text, text_eq, codes, if◌then◌else◌}
use beego.Common.Outcome.{Outcome, ok, ◌>>=◌}
use beego.Sql.{
  QueryBuilder, Call, select, for_update, from, inner_join, left_join, right_join, on, where_cond,
  and, or, in_vals, order_by, asc, desc, limit, offset, group_by, having, update, set_kv, delete,
  insert_into, values,
}
use beego.Sql.Mysql
use beego.Sql.Postgres
use beego.Sql.Postgres.{Failure}

pub data Driver : Type 0 where
  mysql tidb postgres : Driver

pub data NewResult : Type 0 where
  created : Driver → NewResult
  not_supported unknown_driver : NewResult

unfoldable pub new_builder : Text → NewResult
new_builder driver =
    if text_eq driver (codes "mysql")
    then created mysql
    else if text_eq driver (codes "tidb")
    then created tidb
    else if text_eq driver (codes "postgres")
    then created postgres
    else if text_eq driver (codes "sqlite")
    then not_supported
    else unknown_driver

unfoldable pub mysql_call : QueryBuilder → Call → QueryBuilder
mysql_call qb (select a) = Mysql.select qb a
mysql_call qb for_update = Mysql.for_update qb
mysql_call qb (from a) = Mysql.from qb a
mysql_call qb (inner_join a) = Mysql.inner_join qb a
mysql_call qb (left_join a) = Mysql.left_join qb a
mysql_call qb (right_join a) = Mysql.right_join qb a
mysql_call qb (on a) = Mysql.on qb a
mysql_call qb (where_cond a) = Mysql.where_cond qb a
mysql_call qb (and a) = Mysql.and qb a
mysql_call qb (or a) = Mysql.or qb a
mysql_call qb (in_vals a) = Mysql.in_vals qb a
mysql_call qb (order_by a) = Mysql.order_by qb a
mysql_call qb asc = Mysql.asc qb
mysql_call qb desc = Mysql.desc qb
mysql_call qb (limit a) = Mysql.limit qb a
mysql_call qb (offset a) = Mysql.offset qb a
mysql_call qb (group_by a) = Mysql.group_by qb a
mysql_call qb (having a) = Mysql.having qb a
mysql_call qb (update a) = Mysql.update qb a
mysql_call qb (set_kv a) = Mysql.set_kv qb a
mysql_call qb (delete a) = Mysql.delete qb a
mysql_call qb (insert_into a b) = Mysql.insert_into qb a b
mysql_call qb (values a) = Mysql.values qb a

unfoldable pub postgres_call : QueryBuilder → Call → Outcome Failure QueryBuilder
postgres_call qb (select a) = Postgres.select qb a
postgres_call qb for_update = ok (Postgres.for_update qb)
postgres_call qb (from a) = ok (Postgres.from qb a)
postgres_call qb (inner_join a) = ok (Postgres.inner_join qb a)
postgres_call qb (left_join a) = ok (Postgres.left_join qb a)
postgres_call qb (right_join a) = ok (Postgres.right_join qb a)
postgres_call qb (on a) = ok (Postgres.on qb a)
postgres_call qb (where_cond a) = ok (Postgres.where_cond qb a)
postgres_call qb (and a) = ok (Postgres.and qb a)
postgres_call qb (or a) = ok (Postgres.or qb a)
postgres_call qb (in_vals a) = ok (Postgres.in_vals qb a)
postgres_call qb (order_by a) = ok (Postgres.order_by qb a)
postgres_call qb asc = ok (Postgres.asc qb)
postgres_call qb desc = ok (Postgres.desc qb)
postgres_call qb (limit a) = ok (Postgres.limit qb a)
postgres_call qb (offset a) = ok (Postgres.offset qb a)
postgres_call qb (group_by a) = ok (Postgres.group_by qb a)
postgres_call qb (having a) = ok (Postgres.having qb a)
postgres_call qb (update a) = ok (Postgres.update qb a)
postgres_call qb (set_kv a) = ok (Postgres.set_kv qb a)
postgres_call qb (delete a) = ok (Postgres.delete qb a)
postgres_call qb (insert_into a b) = ok (Postgres.insert_into qb a b)
postgres_call qb (values a) = ok (Postgres.values qb a)

unfoldable pub call : Driver → QueryBuilder → Call → Outcome Failure QueryBuilder
call mysql qb c = ok (mysql_call qb c)
call tidb qb c = ok (mysql_call qb c)
call postgres qb c = postgres_call qb c

-- `qb.A(...).B(...)...`
unfoldable pub chain : Driver → QueryBuilder → List Call → Outcome Failure QueryBuilder
chain d qb [] = ok qb
chain d qb (c ∷ cs) = call d qb c >>= λ qb'. chain d qb' cs
