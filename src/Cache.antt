-- ===== src/Cache.antt =====
-- The cache of cache.go as a whole: its ledger over the backing store, its invalidation markers and
-- its counters, and the operations that cross them.
pub mod Defs
pub mod Retention
