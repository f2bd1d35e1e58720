-- ===== src/Records.antt =====
-- integrity.go, and the header records of cache.go: how an entry's metadata is written and checked.
pub mod Defs
pub mod Checks
