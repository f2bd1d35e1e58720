-- ===== src/Cache/Defs.antt =====
-- cache.go: Cleanup, Purge, Invalidate, Stats, and the staleness verdict of Retrieve.
use httpcache_kit.Common.{
  ℕ, suc, ◌+◌, Bool, true, false, not, none, some, List, String, length, ltb, ◌==◌, nat_eq,
  if◌then◌else◌,
}
use httpcache_kit.Vfs.{Vfs}
use httpcache_kit.Ledger.Defs.{Entry}
use httpcache_kit.Ledger.Admission.{Backed}
use httpcache_kit.Ledger.Cleanup.{cleanup_ttl_expired, enforce_max_size, purge_entries}
use httpcache_kit.Stale.Defs.{
  Markers, Outcome, invalidate, stale_at, cleanup_stale_map, purge_marks,
}

-- The validated configuration: 0 disables the size limit, and the time to live.
pub record Limits : Type 0 where
  pub max_size : ℕ
  pub ttl : ℕ
  pub stale_map_ttl : ℕ
  pub on_disk : Bool

pub record Cache (S : Type 0) : Type 0 where
  pub backed : Backed S
  pub markers : Markers
  pub hit_count : ℕ
  pub miss_count : ℕ

pub record CleanupResult : Type 0 where
  pub removed_items : ℕ
  pub removed_bytes : ℕ
  pub removed_stale_entries : ℕ

pub record CacheStats : Type 0 where
  pub total_size : ℕ
  pub item_count : ℕ
  pub stale_count : ℕ
  pub hit_count : ℕ
  pub miss_count : ℕ

unfoldable pub stats : {S : Type 0} → Cache S → CacheStats
stats c = record {
  total_size = c.backed.total_size;
  item_count = length c.backed.lru;
  stale_count = length c.markers.stale;
  hit_count = c.hit_count;
  miss_count = c.miss_count;
}

unfoldable pub record_hit : {S : Type 0} → Cache S → Cache S
record_hit c = record c { hit_count = suc c.hit_count }

unfoldable pub record_miss : {S : Type 0} → Cache S → Cache S
record_miss c = record c { miss_count = suc c.miss_count }

-- Retrieve marks a stored generation stale unless it is after the marker of the key.
unfoldable pub is_judged_stale : String → Entry → Markers → Bool
is_judged_stale key e m = elim (stale_at key m) [ none ↦ false | some t ↦ not (ltb t e.stored_at) ]

module _ (V : Vfs) where
  -- The part of Cleanup under cleanupMu: expired entries first, then, if none was left, markers.
  unfoldable pub expire : Limits → Outcome → ℕ → Cache V.State → Cache V.State × CleanupResult
  expire l w now c =
      let sweep = cleanup_ttl_expired V l.ttl now c.backed in
      let aged = cleanup_stale_map l.on_disk w l.ttl l.stale_map_ttl now c.markers in
      if l.ttl == 0
      then (
        record c { markers = aged.0 },
        record { removed_items = 0; removed_bytes = 0; removed_stale_entries = aged.1 },
      )
      else if sweep.complete
      then (
        record c { backed = sweep.cache; markers = aged.0 },
        record {
          removed_items = sweep.removed;
          removed_bytes = sweep.bytes;
          removed_stale_entries = aged.1;
        },
      )
      else (
        record c { backed = sweep.cache },
        record {
          removed_items = sweep.removed;
          removed_bytes = sweep.bytes;
          removed_stale_entries = 0;
        },
      )

  unfoldable pub enforce : Limits → Cache V.State × CleanupResult → Cache V.State × CleanupResult
  enforce l (c, r) =
      let sweep = enforce_max_size V l.max_size c.backed in
      if l.max_size == 0 then (c, r) else (
        record c { backed = sweep.cache },
        record r {
          removed_items = r.removed_items + sweep.removed;
          removed_bytes = r.removed_bytes + sweep.bytes;
        },
      )

  unfoldable pub cleanup : Limits → Outcome → ℕ → Cache V.State → Cache V.State × CleanupResult
  unfolding expire enforce
  cleanup l w now c = enforce l (expire l w now c)

  -- The first part says whether every entry is gone; if not, every marker is kept.
  unfoldable pub purge : Limits → Outcome → Cache V.State → Bool × Cache V.State
  purge l w c =
      let sweep = purge_entries V c.backed in
      if sweep.complete
      then (true, record c { backed = sweep.cache; markers = purge_marks l.on_disk w c.markers })
      else (false, record c { backed = sweep.cache })

  unfoldable pub invalidate_keys :
      Limits → Outcome → Outcome → List String → ℕ → Cache V.State → Cache V.State
  invalidate_keys l w w' keys now c = record c {
    markers = invalidate l.on_disk w w' keys now c.markers;
  }
