-- ===== src/Orm/Cond.antt =====
-- client/orm/orm_conds.go: `Condition`. A slice is an array of the store with a length; its capacity is the
-- length of the array, so that `append` writes into the array where there is room. A `*Condition` is a
-- place in the list of conditions of the store, and each method returns a new one. `A` is the type of
-- the arguments of an expression, and `grow` the capacity that `append` gives to a slice that has none left.
pub mod Store
pub mod Sharing
pub mod Methods
pub mod Valid
pub mod Nested
pub mod Overwritten
pub mod Where
pub mod Older
pub mod Bounded
pub mod Ends
pub mod Placeholders
pub mod Dangling
mod Examples
