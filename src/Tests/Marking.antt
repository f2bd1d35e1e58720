-- ===== src/Tests/Marking.antt =====
-- The theorems on invalidation markers, and on the cleanup that drops them, at concrete states.
use httpcache_kit.Common.{
  List, ◌≡◌, refl, none, some, false, [], ◌∷◌, lookup, arith, insert, insert_all, contains, nat_eq,
  string_eq,
}
use httpcache_kit.Ledger.Defs.{find, without, is_active, drop_entry}
use httpcache_kit.Ledger.Admission.{remove_entry, remove_files}
use httpcache_kit.Ledger.Cleanup.{cleanup_ttl_expired, enforce_max_size}
use httpcache_kit.Stale.Defs.{
  Markers, absent, snapshot, refused, torn, unconfirmed, complete, Marks, Outcome, recover,
  persist_stale, begin_invalidate, invalidate, stale_at, load_stale, best, candidate, read_slot,
  cleanup_stale_map, stale_retention,
}
use httpcache_kit.Stale.Marks.{stale_at-invalidate, stale_at-cleanup_stale_map}
use httpcache_kit.Stale.Journal.{IsJournal}
use httpcache_kit.Stale.Writes.{writes}
use httpcache_kit.Stale.Restart.{
  restart_after_writes, restart_after_invalidate, restart_after_barrier, reopen,
}
use httpcache_kit.Cache.Defs.{Cache, Limits, cleanup, is_judged_stale}
use httpcache_kit.Cache.Retention.{cleanup_verdict}
use httpcache_kit.Tests.Store.{plain, entry, two}
use httpcache_kit.Tests.Sizes.{two-IsLedger}

program : Unit {0}
unfolding persist_stale begin_invalidate invalidate stale_at load_stale best candidate read_slot
    cleanup_stale_map stale_retention lookup insert insert_all contains cleanup is_judged_stale find
    without is_active drop_entry remove_entry remove_files cleanup_ttl_expired enforce_max_size
program = tt

-- One confirmed generation in the odd slot, nothing in the other.
abbrev marked : Markers
marked = record {
  stale = ("GET:/a", 100) ∷ [];
  generation = 1;
  files = record {
    slot_zero = absent;
    slot_one = snapshot 1 (some (("GET:/a", 100) ∷ []));
    whole = none;
  };
}

marked-IsJournal : IsJournal marked
unfolding candidate read_slot
marked-IsJournal = record { current = omega arith; other = omega arith; small = omega arith }

stale_at-invalidate_example :
    stale_at "GET:/a" (invalidate false torn refused ("GET:/a" ∷ []) 200 marked) ≡ some 200
unfolding contains
stale_at-invalidate_example =
    stale_at-invalidate false torn refused ("GET:/a" ∷ []) 200 marked "GET:/a"

stale_at-cleanup_stale_map_example :
    stale_at "GET:/a" (cleanup_stale_map false complete 300 50 500 marked).0 ≡ none
unfolding program
stale_at-cleanup_stale_map_example =
    stale_at-cleanup_stale_map false complete 300 50 500 marked "GET:/a" (refl, tt)

-- A torn write, one that closing did not confirm, and one whose file could not be opened.
abbrev failing : List (Marks × Outcome)
failing =
    (("GET:/b", 200) ∷ [], torn)
    ∷ (("GET:/c", 300) ∷ [], unconfirmed)
    ∷ (("GET:/d", 400) ∷ [], refused)
    ∷ []

restart_after_writes_example :
    stale_at "GET:/c" (
      load_stale false refused 900
        (reopen (writes false ((marked.stale, complete) ∷ failing) marked).files))
    ≡ some 300
unfolding lookup recover
restart_after_writes_example =
    restart_after_writes false refused marked.stale failing 900 marked "GET:/c"
      (λ journal. marked-IsJournal) (λ journal. omega arith)

restart_after_invalidate_example :
    stale_at "GET:/b" (
      load_stale false refused 900
        (reopen (invalidate false torn complete ("GET:/b" ∷ []) 200 marked).files))
    ≡ some 200
unfolding contains
restart_after_invalidate_example =
    restart_after_invalidate false torn refused "GET:/b" [] 200 900 marked "GET:/b"
      (λ journal. marked-IsJournal) (λ journal. omega arith) (omega arith)

restart_after_barrier_example :
    stale_at "GET:/b" (
      load_stale false refused 900
        (reopen (begin_invalidate false complete ("GET:/b" ∷ []) marked).files))
    ≡ some 900
unfolding contains
restart_after_barrier_example =
    restart_after_barrier false refused ("GET:/b" ∷ []) 900 marked "GET:/b"
      (λ journal. marked-IsJournal) refl

abbrev limits : Limits
limits = record { max_size = 60; ttl = 300; stale_map_ttl = 50; on_disk = false }

abbrev cache : Cache (plain.State)
cache = record { backed = two; markers = marked; hit_count = 0; miss_count = 0 }

cleanup_verdict_example :
    is_judged_stale "GET:/a" (entry 1 40 500) (cleanup plain limits complete 700 cache).0.markers
    ≡ is_judged_stale "GET:/a" (entry 1 40 500) marked
unfolding program
cleanup_verdict_example =
    cleanup_verdict plain limits complete 700 cache 1 (entry 1 40 500) "GET:/a" two-IsLedger
      (refl, tt) refl
