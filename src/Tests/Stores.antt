-- ===== src/Tests/Stores.antt =====
-- The theorems on Store, at concrete responses and disks.
use httpcache_kit.Common.{
  ◌≡◌, refl, Bool, true, false, none, [], ◌∷◌, List, All, codes, arith, lookup, insert, delete,
  contains, text_key, String, wrap, nat_eq, ◌==◌, string_eq, if◌then◌else◌,
}
use httpcache_kit.Vfs.{FilePath, body, header}
use httpcache_kit.Http.Headers.{get, combined_header_values, names_like}
use httpcache_kit.Http.Names.{canonical_header_key, trim_space}
use httpcache_kit.Records.Defs.{
  integrity_preamble, stored_at_preamble, http_record, record_digest, serialize_integrity_header,
  serialize_stored_header, serialize_cache_header,
}
use httpcache_kit.Ledger.Defs.{
  find, without, is_active, begin_reservation, release_reservation, or_now, updated, track,
  track_entry, drop_entry, residual, charge, reserve_growth,
}
use httpcache_kit.Ledger.Admission.{
  other_reserved, remove_files, remove_entry, discard_unadmitted, evict_one, is_over, evict_step,
  evict_loop, evict_for_admission, reserve_entry,
}
use httpcache_kit.Stale.Defs.{persist_stale, stale_at}
use httpcache_kit.Ledger.Invariant.{IsLedger}
use httpcache_kit.Stale.Defs.{absent, Markers, complete}
use httpcache_kit.Cache.Defs.{Cache, Limits}
use httpcache_kit.Transactions.Storage.{Storage}
use httpcache_kit.Transactions.Defs.{
  Setting, expected_body_size, limit_reader, response_superseded, unique_keys, is_published,
  any_published, prepared_entries, serialized, body_text, body_digest, size_fits,
}
use httpcache_kit.Transactions.Store.{
  provisional_text, mark_residual, abandon_staged, stage_write, commit_staged, commit_entry,
  commit_all, abandon_all, prepare_header, prepare_body, admit_known, prepare_resource, prepare_all,
  discard_all, discard_prepared, begin_all, release_all, track_all, publish, store_entries,
  store_context,
}
use httpcache_kit.Transactions.Atomicity.{IsAtomic, targets, store_context-IsAtomic}
use httpcache_kit.Transactions.Holdings.{IsStored, store_context-IsStored}
use httpcache_kit.Transactions.Reservations.{store_context-IsLedger}
use httpcache_kit.Tests.Store.{empty_ledger}
use httpcache_kit.Tests.Web.{platform, response}
use httpcache_kit.Tests.Codecs.{codec}
use httpcache_kit.Tests.Disks.{Contents, disk, disk_laws}

abbrev limits : Limits
limits = record { max_size = 1000; ttl = 0; stale_map_ttl = 0; on_disk = true }

-- Two keys with hashes 1 and 2, and a body of three bytes.
abbrev pub setting : Setting
unfolding codes
setting = record {
  platform = platform;
  codec = codec;
  hash_key = λ key. if key == "GET:/a" then 1 else 2;
  sha256 = true;
  limits = limits;
  res = response ((codes "Content-Length", codes "3" ∷ []) ∷ []) 5 5;
  text = 10 ∷ 20 ∷ 30 ∷ [];
  rewinds = λ key. true;
  cancelled = λ key. false;
}

abbrev markers : Markers
markers = record {
  stale = [];
  generation = 0;
  files = record { slot_zero = absent; slot_one = absent; whole = none };
}

abbrev pub cache : Cache Contents
cache = record {
  backed = record { ledger = empty_ledger; fs = λ p. none };
  markers = markers;
  hit_count = 0;
  miss_count = 0;
}

abbrev pub keys : List String
keys = "GET:/a" ∷ "GET:/b" ∷ "GET:/a" ∷ []

-- Every file may be renamed; and all but the header of the second key.
abbrev pub sound : Storage
sound = disk true (λ p. true)

abbrev may_rename : FilePath → Bool
may_rename (body h) = true
may_rename (header h) = h == 1

abbrev broken : Storage
broken = disk true may_rename

unfoldable pub program : Unit {0}
unfolding codes get canonical_header_key trim_space combined_header_values names_like lookup insert
    delete contains wrap expected_body_size limit_reader response_superseded unique_keys
    is_published any_published prepared_entries serialized body_text body_digest size_fits
    provisional_text mark_residual abandon_staged stage_write commit_staged commit_entry commit_all
    abandon_all prepare_header prepare_body admit_known prepare_resource prepare_all discard_all
    discard_prepared begin_all release_all track_all publish store_entries store_context
    integrity_preamble stored_at_preamble http_record record_digest serialize_integrity_header
    serialize_stored_header serialize_cache_header find without is_active begin_reservation
    release_reservation or_now updated track track_entry drop_entry residual charge reserve_growth
    other_reserved remove_files remove_entry discard_unadmitted evict_one is_over evict_step
    evict_loop evict_for_admission reserve_entry persist_stale stale_at
program = tt

stored : (store_context sound setting complete 100 false false keys cache).0 ≡ true
unfolding program
stored = refl

failed : (store_context broken setting complete 100 false false keys cache).0 ≡ false
unfolding program
failed = refl

store_context-IsStored_example :
    All
      (λ key.
        (first : String) × (setting.hash_key first ≡ setting.hash_key key)
        × IsStored sound setting 100
            (store_context sound setting complete 100 false false keys cache).1.backed.fs
            first)
      keys
store_context-IsStored_example =
    store_context-IsStored sound (disk_laws true (λ p. true)) setting complete 100 false false keys
      cache (unfold program in refl) stored

store_context-IsAtomic_example :
    IsAtomic broken 100
      (targets setting 100 keys)
      cache
      (store_context broken setting complete 100 false false keys cache).1
store_context-IsAtomic_example =
    store_context-IsAtomic broken (disk_laws true may_rename) setting complete 100 false false keys
      cache (omega arith) failed

store_context-IsLedger_example :
    IsLedger (store_context broken setting complete 100 false false keys cache).1.backed.ledger
    × All
        (λ n.
          is_active n.hashed_key
            (store_context broken setting complete 100 false false keys cache).1.backed.ledger
          ≡ false)
        (targets setting 100 keys)
store_context-IsLedger_example =
    store_context-IsLedger broken setting complete 100 false false keys cache
      (unfold program in (refl, (refl, tt)))
      (record { distinct = tt; counted = refl; held_once = tt; reserved = refl })
