-- ===== src/Session.antt =====
-- server/web/session/sess_mem.go: `MemProvider` and `MemSessionStore`.
pub mod Memory
pub mod Index
pub mod Rename
pub mod Order
pub mod Steps
pub mod Sweep
pub mod Interleaved
pub mod Races
pub mod Reach
pub mod Collect
mod Examples
