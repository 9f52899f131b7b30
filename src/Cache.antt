-- ===== src/Cache.antt =====
-- client/cache: the counters of calc_utils.go and the in-memory cache of memory.go.
mod Examples
pub mod Counter
pub mod Memory
