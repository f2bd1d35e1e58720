-- ===== src/Keys.antt =====
-- key.go: the keys under which responses are stored.
pub mod Defs
pub mod Injective
