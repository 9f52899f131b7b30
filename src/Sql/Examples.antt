-- ===== src/Sql/Examples.antt =====
-- The theorems on the query builders at concrete inputs.
use beego.Common.{◌≡◌, refl, ◌⊎◌, List, [], ◌∷◌, ◌++◌, Text, codes, join, holds, true, false}
use beego.Common.Int.{pos}
use beego.Common.Outcome.{ok, panic, ◌>>=◌}
use beego.Sql.{QueryBuilder, new_query_builder, remove, Call, select, from, where_cond, limit}
use beego.Sql.Driver.{mysql, postgres, chain, call, mysql_call, postgres_call}
use beego.Sql.Mysql
use beego.Sql.Postgres
use beego.Sql.Postgres.{index_out_of_range, processing_str, select_list, quote_parts}
use beego.Sql.Names.{on_lem, remove-processing_str}
use beego.Sql.Clauses.{chain-unnamed, chain-ends, has_empty_select}

abbrev names : List Text
names = codes "user.name" ∷ codes "age" ∷ []

abbrev conditions : List Call
conditions = where_cond (codes "age > 3") ∷ limit (pos 10) ∷ []

abbrev query : List Call
query = select names ∷ from (codes "user" ∷ []) ∷ conditions

abbrev used : QueryBuilder
used = record { tokens = codes "FOR UPDATE" ∷ [] }

remove-processing_str_example :
    remove b'"' (processing_str names) ≡ remove b'"' (join (codes ",") names)
remove-processing_str_example = remove-processing_str names

on_lem_example : Postgres.on used (codes "a.id" ++ b'=' ∷ codes " b.id") ≡ record {
  tokens =
      used.tokens
      ++ (codes "ON"
          ∷ (quote_parts (remove b' ' (codes "a.id"))
              ++ (codes " = " ++ quote_parts (remove b' ' (codes " b.id"))))
          ∷ []);
}
unfolding holds
on_lem_example = on_lem used (codes "a.id") (codes " b.id") refl refl

chain-unnamed_example : chain postgres used conditions ≡ chain mysql used conditions
chain-unnamed_example = chain-unnamed used conditions refl

chain-ends_example :
    ((has_empty_select query ≡ true) × (chain postgres used query ≡ panic index_out_of_range))
    ⊎ ((has_empty_select query ≡ false)
        × (qb' : QueryBuilder) × (chain postgres used query ≡ ok qb'))
chain-ends_example = chain-ends used query

-- What the two dialects print for a query of all fields.
abbrev all_fields : List Call
all_fields = select (codes "*" ∷ []) ∷ from (codes "user" ∷ []) ∷ where_cond (codes "age > 3") ∷ []

print_mysql :
    chain mysql new_query_builder all_fields >>= (λ qb. ok (Mysql.to_string qb).1)
    ≡ ok (codes "SELECT * FROM user WHERE age > 3")
unfolding chain call mysql_call Mysql.select Mysql.from Mysql.where_cond Mysql.to_string join
print_mysql = refl

print_postgres :
    chain postgres new_query_builder all_fields >>= (λ qb. ok (Postgres.to_string qb).1)
    ≡ ok (codes "SELECT * FROM \"user\" WHERE age > 3")
unfolding chain call postgres_call Postgres.select Postgres.from Postgres.where_cond
    Postgres.to_string processing_str join
print_postgres = refl
