-- ===== src/Config.antt =====
-- cache_config.go: the limits that a cache is given.
pub mod Defs
pub mod Validation
