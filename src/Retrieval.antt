-- ===== src/Retrieval.antt =====
-- Reading entries back: the definitions, what a hit was checked for, and what a store leaves to read.
pub mod Defs
pub mod Verified
pub mod Parsing
pub mod RoundTrip
