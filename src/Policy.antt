-- ===== src/Policy.antt =====
-- The decisions of handler.go and resource.go: what may be stored, how long a stored response is
-- fresh, and when it must be validated before it is served.
pub mod Resource
pub mod Storage
pub mod Freshness
pub mod Shared
pub mod Reuse
pub mod Lifetime
