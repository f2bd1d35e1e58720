-- ===== src/Flights.antt =====
-- handler.go: the misses that are being filled, and the background writes that Shutdown waits for.
pub mod Defs
pub mod Leaders
