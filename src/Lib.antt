-- ===== src/Lib.antt =====
-- A verification library for httpcache-kit, an HTTP cache for Go: a handler in front of an origin,
-- and a cache of responses on a file system.
--
-- How the parts interact. The handler (handler.go) looks a request up in a cache, decides whether
-- the stored response may be served, and otherwise fetches from the origin and stores what it may.
-- A request that changes state invalidates keys. The cache (cache.go) keeps its entries in files, a
-- ledger of their sizes with reservations for writes under way, and markers that say when a key was
-- invalidated, which a journal keeps for the next start. Lookups judge an entry by the markers of
-- the keys that govern it; Cleanup drops old entries, then old markers.
--
-- Which file models which part.
--   Ledger/: cache.go's cache, cacheEntry, reserveEntry, evictForAdmissionLocked, trackEntry,
--     touchEntry, removeEntry, discardUnadmitted, cleanupTTLExpired, enforceMaxSize and the loop of
--     Purge. lruList and lruIndex are one list, the most recent entry first. Each operation is a
--     critical section of lruMutex; Steps has every interleaving of them as a relation.
--   Stale/: cache.go's Invalidate, StaleAt, StaleSnapshot, persistStale, loadStale, restoreStale and
--     cleanupStaleMap, with the files that they write and how each write may end.
--   Cache/: cache.go's Cleanup, Purge, Stats and the verdict in retrieve, across the two parts.
--   Directives/: cachecontrol.go. Http/: the header maps, field names and URLs of net/http and
--     net/url; combinedHeaderValues of conditional_response.go.
--   Keys/: key.go, and cacheRequest of handler.go.
--   Policy/: resource.go and header.go (Resource), and isCacheable, canStageResponse, correctedAge
--     (Storage), freshness and needsValidation (Freshness) of handler.go.
--   Publication/: handler_publication.go and recordStale of handler.go.
--   Lookup/: lookupUsing, lookupBaseUsing, lookupVaryResource and markInvalidatedResource.
--   Flights/: claimMiss, finishMiss, beginWrite, endWrite and Shutdown of handler.go.
--   Transactions/: StoreContext of cache.go with its staged files: prepareResourceForKey,
--     commitStagedLocked, discardPreparedStore and what they call, over a storage (Storage) with the
--     laws of files. Frames, Staging, Separation say which files a step leaves alone.
--   Records/: the records of integrity.go and serializeStoredHeader of cache.go.
--   Retrieval/: retrieveRecorded, retrieve, readHeaderProvenance and readStoredHeaders of cache.go,
--     discardCorrupt and integrityResult of integrity.go.
--   Validation/: validator.go, with Warnings apart, and retryOriginalPreconditions and
--     validationResourceKey of conditional_response.go.
--   Delivery/: responseStreamer of handler.go, with copyValidationTrailers of
--     conditional_response.go; Order has the steps of its two goroutines, Maps its header maps as
--     references and Aliases what handlers do with them. Conditions is client_preconditions.go.
--   Staging/: the leases of staging_budget.go, its writer and the closing of a stage.
--   Config/: cache_config.go.
--   Common/ and Tests/: what the modules share; runs and instances at concrete states.
--
-- What the models choose.
--   Times are nanoseconds since Go's zero time, so that IsZero is 0; durations are int64, whose sums
--   and products wrap around and whose differences of times saturate. The clock is an argument: the
--   reads of it within one decision are one instant. Entry sizes and totals are natural numbers, an
--   item's size is an integer since it may have overflowed, and the journal's generation is a uint64
--   that wraps around. A hashed key is a number. Maps are association lists; where Go visits a map
--   in any order, the model takes the list's, and the result does not depend on it or is sorted.
--   Strings are lists of bytes where the code reads them; letters are folded in ASCII.
--   A store is one step for its own keys, whose locks it holds; a status of a response is sent with
--   the header it is sent with, and a body is a list of parts. Header maps are values, but for
--   Delivery/Maps, where they are references that handlers keep. A write to the pipe does not fail.
--   The parser of Cache-Control runs on the length of its input as fuel; every round reads a byte.
--
-- What is a parameter: vfs-kit's Remove and Stat (Vfs), its files and those of package os
--   (Transactions/Storage); http.ParseTime, time.ParseDuration, strconv.Atoi, strconv.Quote and
--   url.URL.String (Http/Platform); SHA-256, JSON, base64 and the layouts of headers and times
--   (Records/Defs), with laws that say what decodes; net/textproto and time.Parse (Retrieval/Defs),
--   with laws for what was printed (Retrieval/Parsing); http.ServeContent (Delivery/Conditions); a
--   staging lease, with laws that its documentation states (Staging); the cache that a handler was
--   given, with all that others do to it during a retrieval (Lookup); how each write of a marker
--   file ends (Stale).
--
-- What is not modelled: Header and Freshen, with the provenance of headers beside their digest, and
--   errors of reads other than a missing file; passUpstreamWithHandler, pipeUpstream and
--   validateUpstreamResponse around the parts above, and miss_coordinator.go; the targets of
--   Location headers, metrics and logs. JSON and RFC 3339 keep keys and times, so the encoding of
--   the marker files is left out; encoding a record and printing a header into memory do not fail.
--   Locks appear as the atomicity of steps.
pub mod Common
pub mod Http
pub mod Directives
pub mod Keys
pub mod Records
pub mod Policy
pub mod Publication
pub mod Lookup
pub mod Flights
pub mod Transactions
pub mod Retrieval
pub mod Validation
pub mod Delivery
pub mod Staging
pub mod Config
pub mod Vfs
pub mod Ledger
pub mod Stale
pub mod Cache
mod Tests
