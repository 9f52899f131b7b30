-- ===== src/Router.antt =====
-- server/web/tree.go: the tree of routes.
pub mod Segment
pub mod Plain
pub mod Tree
pub mod Match
pub mod Static
pub mod Table
pub mod Routes
pub mod Param
pub mod Wildcards
mod Examples
mod Tests
