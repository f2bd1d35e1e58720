-- ===== src/Stale.antt =====
-- The invalidation markers of cache.go: the map from keys to the times they were invalidated, and
-- the snapshots that let the markers outlive the process.
pub mod Defs
pub mod Marks
pub mod Journal
pub mod Writes
pub mod Restart
