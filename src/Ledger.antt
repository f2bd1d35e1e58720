-- ===== src/Ledger.antt =====
-- The size ledger of cache.go: the LRU list, the tracked sizes, the reservations of writers in
-- progress, and the eviction that admits an entry.
--
-- `lruList` and `lruIndex` hold the same entry pointers and change together under `lruMutex`, so
-- one list stands for both, its front the most recently used. A hashed key is the 64-bit sum that
-- `hashKey` prints in hexadecimal; a time is in nanoseconds since Go's zero time, which is 0; the
-- identity that `new(cacheGeneration)` allocates is the next number of a counter.
pub mod Defs
pub mod Admission
pub mod Cleanup
pub mod Entries
pub mod Sweeps
pub mod Tracking
pub mod Invariant
pub mod Steps
pub mod Capacity
pub mod Retention
pub mod Budget
