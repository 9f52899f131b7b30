-- ===== src/Orm.antt =====
-- client/orm: the conditions and orders of a query, the SQL of operators, and the names of columns.
pub mod Names
pub mod Order
pub mod Operator
pub mod Marks
pub mod Cond
mod NamesExamples
