-- ===== src/Sql/Clauses.antt =====
-- What the query builders of client/orm/qb_mysql.go and client/orm/qb_postgres.go make of a chain of calls.
use beego.Common.{
  ◌≡◌, refl, Bool, true, false, ◌&&◌, ◌||◌, ◌⊎◌, inl, inr, ◌⊎◌, inl, inr, List, [], ◌∷◌, arith,
}
use beego.Common.Outcome.{ok, panic}
use beego.Sql.{
  QueryBuilder, Call, select, for_update, from, inner_join, left_join, right_join, on, where_cond,
  and, or, in_vals, order_by, asc, desc, limit, offset, group_by, having, update, set_kv, delete,
  insert_into, values,
}
use beego.Sql.Driver.{mysql, postgres, call, chain, mysql_call, postgres_call}
use beego.Sql.Mysql
use beego.Sql.Postgres
use beego.Sql.Postgres.{Failure, index_out_of_range}

-- The calls whose arguments are no names that Postgres quotes.
abbrev pub unnamed : Call → Bool
unnamed for_update = true
unnamed (where_cond _) = true
unnamed (and _) = true
unnamed (or _) = true
unnamed (in_vals _) = true
unnamed asc = true
unnamed desc = true
unnamed (limit _) = true
unnamed (offset _) = true
unnamed (having _) = true
unnamed (set_kv _) = true
unnamed (values _) = true
unnamed _ = false

abbrev pub all_unnamed : List Call → Bool
all_unnamed [] = true
all_unnamed (c ∷ cs) = unnamed c && all_unnamed cs

call-unnamed :
    (qb : QueryBuilder) (c : Call) → unnamed c ≡ true → call postgres qb c ≡ call mysql qb c
unfolding call mysql_call postgres_call Mysql.for_update Postgres.for_update Mysql.where_cond
    Postgres.where_cond Mysql.and Postgres.and Mysql.or Postgres.or Mysql.in_vals Postgres.in_vals
    Mysql.asc Postgres.asc Mysql.desc Postgres.desc Mysql.limit Postgres.limit Mysql.offset
    Postgres.offset Mysql.having Postgres.having Mysql.set_kv Postgres.set_kv Mysql.values
    Postgres.values
call-unnamed qb (select _) h = cc
call-unnamed qb for_update h = refl
call-unnamed qb (from _) h = cc
call-unnamed qb (inner_join _) h = cc
call-unnamed qb (left_join _) h = cc
call-unnamed qb (right_join _) h = cc
call-unnamed qb (on _) h = cc
call-unnamed qb (where_cond _) h = refl
call-unnamed qb (and _) h = refl
call-unnamed qb (or _) h = refl
call-unnamed qb (in_vals _) h = refl
call-unnamed qb (order_by _) h = cc
call-unnamed qb asc h = refl
call-unnamed qb desc h = refl
call-unnamed qb (limit _) h = refl
call-unnamed qb (offset _) h = refl
call-unnamed qb (group_by _) h = cc
call-unnamed qb (having _) h = refl
call-unnamed qb (update _) h = cc
call-unnamed qb (set_kv _) h = refl
call-unnamed qb (delete _) h = cc
call-unnamed qb (insert_into _ _) h = cc
call-unnamed qb (values _) h = refl

-- A chain of calls whose arguments are no names gives the same builder in Postgres and in MySQL.
pub chain-unnamed :
    (qb : QueryBuilder) (cs : List Call)
    → all_unnamed cs ≡ true
    → chain postgres qb cs ≡ chain mysql qb cs
unfolding chain call
chain-unnamed qb [] h = refl
chain-unnamed qb (c ∷ cs) h =
    rw (call-unnamed qb c (ground arith)) (chain-unnamed (mysql_call qb c) cs (ground arith))

abbrev pub empty_select : Call → Bool
empty_select (select []) = true
empty_select _ = false

abbrev pub has_empty_select : List Call → Bool
has_empty_select [] = false
has_empty_select (c ∷ cs) = empty_select c || has_empty_select cs

call-ends :
    (qb : QueryBuilder) (c : Call)
    → ((empty_select c ≡ true) × (call postgres qb c ≡ panic index_out_of_range))
      ⊎ ((empty_select c ≡ false) × (qb' : QueryBuilder) × (call postgres qb c ≡ ok qb'))
unfolding call postgres_call Postgres.select
call-ends qb (select []) = inl (refl, refl)
call-ends qb (select (_ ∷ _)) = inr (refl, _, refl)
call-ends qb for_update = inr (refl, _, refl)
call-ends qb (from _) = inr (refl, _, refl)
call-ends qb (inner_join _) = inr (refl, _, refl)
call-ends qb (left_join _) = inr (refl, _, refl)
call-ends qb (right_join _) = inr (refl, _, refl)
call-ends qb (on _) = inr (refl, _, refl)
call-ends qb (where_cond _) = inr (refl, _, refl)
call-ends qb (and _) = inr (refl, _, refl)
call-ends qb (or _) = inr (refl, _, refl)
call-ends qb (in_vals _) = inr (refl, _, refl)
call-ends qb (order_by _) = inr (refl, _, refl)
call-ends qb asc = inr (refl, _, refl)
call-ends qb desc = inr (refl, _, refl)
call-ends qb (limit _) = inr (refl, _, refl)
call-ends qb (offset _) = inr (refl, _, refl)
call-ends qb (group_by _) = inr (refl, _, refl)
call-ends qb (having _) = inr (refl, _, refl)
call-ends qb (update _) = inr (refl, _, refl)
call-ends qb (set_kv _) = inr (refl, _, refl)
call-ends qb (delete _) = inr (refl, _, refl)
call-ends qb (insert_into _ _) = inr (refl, _, refl)
call-ends qb (values _) = inr (refl, _, refl)

-- A chain of calls of the Postgres builder ends, and it panics exactly if it has a Select of no fields.
pub chain-ends :
    (qb : QueryBuilder) (cs : List Call)
    → ((has_empty_select cs ≡ true) × (chain postgres qb cs ≡ panic index_out_of_range))
      ⊎ ((has_empty_select cs ≡ false) × (qb' : QueryBuilder) × (chain postgres qb cs ≡ ok qb'))
unfolding chain
chain-ends qb [] = inr (refl, qb, refl)
chain-ends qb (c ∷ cs) = elim (call-ends qb c) [
  | inl (e, p) ↦ inl (rw e refl, rw p refl)
  | inr (e, qb', p) ↦ rw (e, p) (chain-ends qb' cs)
]
