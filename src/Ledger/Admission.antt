-- ===== src/Ledger/Admission.antt =====
-- cache.go: removeEntry, discardUnadmitted, evictForAdmissionLocked and reserveEntry.
use httpcache_kit.Common.{
  ℕ, ◌+◌, ◌-◌, String, Bool, true, false, ◌&&◌, ◌||◌, Option, none, some, List, [], ◌∷◌, reverse, ℤ,
  pos, negsuc, value_at, ltb, ◌==◌, nat_eq, is_some, if◌then◌else◌,
}
use httpcache_kit.Vfs.{Vfs, body, header, is_removed}
use httpcache_kit.Ledger.Defs.{
  Entry, Ledger, find, existing_size, is_active, or_now, drop_entry, residual, charge,
  reserve_growth,
}

-- The ledger, and the backing store that its removals reach.
pub record Backed (S : Type 0) : Type 0 where
  pub ledger : Ledger
  pub open ledger use *
  pub fs : S

pub data AdmissionError : Type 0 where
  size_overflow too_large no_room : AdmissionError

-- The growth that other writers have reserved.
unfoldable pub other_reserved : ℕ → Ledger → ℕ
other_reserved h l = l.reserved_size - value_at h l.reservations

module _ (V : Vfs) where
  -- Both paths are tried; the result is whether both are gone.
  unfoldable pub remove_files : ℕ → V.State → Bool × V.State
  remove_files h s =
      let (r1, s1) = V.remove (body h) s in
      let (r2, s2) = V.remove (header h) s1 in (is_removed r1 && is_removed r2, s2)

  -- The first part says whether the entry was removed.
  unfoldable pub remove_entry : Entry → Backed V.State → Bool × Backed V.State
  remove_entry e c =
      let (gone, s) = remove_files e.hashed_key c.fs in
      if gone
      then (true, record { ledger = drop_entry e c.ledger; fs = s })
      else (false, record c { fs = s })

  -- The first part says whether every file is gone.
  unfoldable pub discard_unadmitted :
      String → ℕ → ℕ → ℕ → ℕ → Backed V.State → Bool × Backed V.State
  unfolding remove_entry remove_files or_now charge residual
  discard_unadmitted key h size stored_at now c = elim (find h c.lru) [
    | some e ↦
        let (gone, c') = remove_entry e c in
        (gone, if gone then c' else record c' { ledger = charge e size c'.ledger })
    | none ↦
        let (gone, s) = remove_files h c.fs in
        (
          gone,
          record {
            ledger = if gone then c.ledger else residual key h size (or_now stored_at now) c.ledger;
            fs = s;
          },
        )
  ]

  -- One round of the eviction loop of evictForAdmissionLocked. A failed removal goes on to the
  -- next entry.
  unfoldable pub evict_one : ℕ → Entry → Backed V.State → Backed V.State
  evict_one h e c =
      if (e.hashed_key == h) || is_active e.hashed_key c.ledger then c else (remove_entry e c).1

  -- `c.totalSize > targetSize`, where targetSize is the budget less the charge and may be negative.
  unfoldable pub is_over : ℕ → ℕ → Backed V.State → Bool
  is_over budget charge c = ltb budget (c.total_size + charge)

  unfoldable pub evict_step : ℕ → ℕ → ℕ → Entry → Backed V.State → Backed V.State
  unfolding evict_one is_over
  evict_step budget charge h e c = if is_over budget charge c then evict_one h e c else c

  -- The list is visited from its back; each entry at most once. Once the total fits, no further
  -- round changes anything, which is the loop's exit.
  unfoldable pub evict_loop : ℕ → ℕ → ℕ → List Entry → Backed V.State → Backed V.State
  unfolding evict_step
  evict_loop budget charge h [] c = c
  evict_loop budget charge h (e ∷ es) c =
      evict_loop budget charge h es (evict_step budget charge h e c)

  -- A limit of 0 is no limit. The item's size is an int64 that may have overflowed.
  unfoldable pub evict_for_admission :
      ℕ → ℕ → ℤ → Backed V.State → Option AdmissionError × Backed V.State
  unfolding evict_loop other_reserved
  evict_for_admission limit h (negsuc n) c = (some size_overflow, c)
  evict_for_admission limit h (pos item) c =
      if limit == 0
      then (none, c)
      else if ltb limit item
      then (some too_large, c)
      else let budget = limit + existing_size h c.ledger in
        let charge = other_reserved h c.ledger + item in
        let c' = evict_loop budget charge h (reverse c.lru) c in
        (if is_over budget charge c' then some no_room else none, c')

  unfoldable pub reserve_entry : ℕ → ℕ → ℤ → Backed V.State → Option AdmissionError × Backed V.State
  reserve_entry limit h (negsuc n) c = evict_for_admission limit h (negsuc n) c
  reserve_entry limit h (pos item) c =
      let (e, c') = evict_for_admission limit h (pos item) c in
      (e, if is_some e then c' else record c' { ledger = reserve_growth h item c'.ledger })
