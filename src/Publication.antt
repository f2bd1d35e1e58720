-- ===== src/Publication.antt =====
-- handler_publication.go: the handler's own evidence that a response of an opaque cache is newer
-- than an invalidation.
pub mod Defs
pub mod Runs
pub mod Isolation
