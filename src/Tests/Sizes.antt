-- ===== src/Tests/Sizes.antt =====
-- The ledger's theorems at concrete states.
use httpcache_kit.Common.{◌≤◌, ◌+◌, ◌≡◌, refl, [], ◌∷◌, pos, lookup, arith, insert, delete}
use httpcache_kit.Ledger.Defs.{
  find, without, track_entry, track, is_active, reserve_growth, release_reservation, drop_entry,
  begin_reservation,
}
use httpcache_kit.Ledger.Admission.{
  reserve_entry, evict_for_admission, remove_entry, other_reserved, evict_loop, remove_files,
}
use httpcache_kit.Ledger.Cleanup.{
  cleanup_ttl_expired, enforce_max_size, purge_entries, sweep_one, ttl_loop, enforce_loop,
  purge_loop,
}
use httpcache_kit.Ledger.Invariant.{IsLedger}
use httpcache_kit.Ledger.Steps
use httpcache_kit.Ledger.Steps.{Reach-IsLedger}
use httpcache_kit.Ledger.Budget
use httpcache_kit.Ledger.Budget.{Run-Fits}
use httpcache_kit.Ledger.Capacity.{Fits, Granted, reserve_entry-Granted}
use httpcache_kit.Ledger.Retention.{
  cleanup_ttl_expired_complete, enforce_max_size-le, purge_entries_complete,
}
use httpcache_kit.Tests.Store.{Disk, plain, stuck, entry, two}

program : Unit {0}
unfolding reserve_entry evict_for_admission remove_entry find is_active cleanup_ttl_expired
    enforce_max_size purge_entries lookup insert delete reserve_growth drop_entry without
    other_reserved track_entry track release_reservation evict_loop remove_files sweep_one ttl_loop
    enforce_loop purge_loop begin_reservation
program = tt

pub two-IsLedger : IsLedger two.ledger
unfolding program
two-IsLedger = record {
  distinct = (refl, (refl, tt));
  counted = refl;
  held_once = tt;
  reserved = refl;
}

-- A new entry of 30 bytes under a limit of 100 evicts the older one of the two.
abbrev reserved : Disk
reserved = (reserve_entry plain 100 3 (pos 30) two).1

evicts :
    (reserved.lru ≡ entry 1 40 500 ∷ [])
    × (reserved.total_size ≡ 40)
    × (reserved.reserved_size ≡ 30)
unfolding program
evicts = (refl, refl, refl)

-- A store that refuses removals cannot make room.
refuses : (reserve_entry stuck 100 3 (pos 30) two).1.lru ≡ two.lru
unfolding program
refuses = refl

reserve_entry-Granted_example : Granted plain 100 3 30 two reserved
unfolding program
reserve_entry-Granted_example =
    reserve_entry-Granted plain 100 3 30 two (omega arith) two-IsLedger (omega arith) refl

abbrev tracked : Disk
tracked = record reserved { ledger = track_entry "GET:/new" 3 30 600 600 reserved.ledger }

Reach-IsLedger_example : IsLedger tracked.ledger
Reach-IsLedger_example =
    Reach-IsLedger plain 100
      (Steps.Reach.next (Steps.Reach.next Steps.Reach.here (Steps.Step.reserves 3 (pos 30)))
        (Steps.Step.tracks "GET:/new" 3 30 600 600))
      two-IsLedger

Run-Fits_example : Fits 100 tracked.ledger
unfolding program
Run-Fits_example =
    Run-Fits plain 100 {c = two} {d = tracked} (omega arith) two-IsLedger (omega arith) (
      Budget.Run.next (Budget.Run.next Budget.Run.here (Steps.Step.reserves 3 (pos 30)) tt)
        (Steps.Step.tracks "GET:/new" 3 30 600 600) (omega arith))

-- With a time to live of 300, the clock at 700 expires the older entry.
expired : (cleanup_ttl_expired plain 300 700 two).cache.lru ≡ entry 1 40 500 ∷ []
unfolding program
expired = refl

cleanup_ttl_expired_complete_example : 700 ≤ 500 + 300
unfolding program
cleanup_ttl_expired_complete_example =
    cleanup_ttl_expired_complete plain 300 700 two two-IsLedger refl 1 (entry 1 40 500) refl

enforce_max_size-le_example : (enforce_max_size plain 60 two).cache.total_size ≤ 60
unfolding program
enforce_max_size-le_example = enforce_max_size-le plain 60 two two-IsLedger refl refl

purge_entries_complete_example :
    ((purge_entries plain two).cache.lru ≡ []) × ((purge_entries plain two).cache.total_size ≡ 0)
unfolding program
purge_entries_complete_example = purge_entries_complete plain two two-IsLedger refl
