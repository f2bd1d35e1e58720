-- ===== src/Lookup.antt =====
-- handler.go: finding the stored response for a request, and judging it against invalidations.
pub mod Defs
pub mod Validity
pub mod Outcome
