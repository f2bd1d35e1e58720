-- ===== src/Directives.antt =====
-- cachecontrol.go: the Cache-Control directives of a request or response.
pub mod Defs
