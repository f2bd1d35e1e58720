-- ===== src/Ledger/Steps.antt =====
-- The ledger's operations as steps that writers, readers and the cleanup goroutine take in any
-- order, each under `lruMutex`.
use httpcache_kit.Common.{
  ℕ, ◌+◌, ◌≡◌, refl, String, none, some, reverse, nat_eq, lookup, ℤ, pos, negsuc, Option-cases,
  Bool-cases, inl, inr, ltb, ◌==◌, is_some,
}
use httpcache_kit.Vfs.{Vfs}
use httpcache_kit.Ledger.Defs.{
  find, track_entry, or_now, touch_entry, begin_reservation, release_reservation, existing_size,
}
use httpcache_kit.Ledger.Admission.{
  Backed, remove_files, discard_unadmitted, evict_for_admission, other_reserved, reserve_entry,
}
use httpcache_kit.Ledger.Cleanup.{cleanup_ttl_expired, enforce_max_size, purge_entries, start_sweep}
use httpcache_kit.Ledger.Entries.{find_hashed_key}
use httpcache_kit.Ledger.Tracking.{IsTracked-reverse, IsTracked-self, reverse-IsDistinct}
use httpcache_kit.Ledger.Sweeps.{
  IsVictim, remove_entry_cases, evict_loop-Drops, ttl_loop-Drops, enforce_loop-Drops,
  purge_loop-Drops,
}
use httpcache_kit.Ledger.Invariant.{
  IsLedger, drop_entry-IsLedger, touch_entry-IsLedger, release_reservation-IsLedger,
  begin_reservation-IsLedger, reserve_growth-IsLedger, track_entry-IsLedger, charge-IsLedger,
  residual-IsLedger, Drops-IsLedger,
}

module _ (V : Vfs) where
  pub evict_for_admission-IsLedger :
      (limit h : ℕ) (item : ℤ) (c : Backed V.State)
      → IsLedger c.ledger
      → IsLedger (evict_for_admission V limit h item c).1.ledger
  unfolding evict_for_admission
  evict_for_admission-IsLedger limit h (negsuc n) c v = v
  evict_for_admission-IsLedger limit h (pos item) c v =
      let swept =
        Drops-IsLedger (IsVictim h c.reservations)
          (evict_loop-Drops V (limit + existing_size h c.ledger) (other_reserved h c.ledger + item)
            h c.reservations (reverse c.lru) c refl)
          (reverse-IsDistinct c.lru v.distinct) (IsTracked-reverse c.lru v.distinct) v in
      elim (Bool-cases (limit == 0)) [
        | inl free ↦ rw free v
        | inr bounded ↦ elim (Bool-cases (ltb limit item)) [
          | inl large ↦ rw (bounded, large) v
          | inr small ↦ rw (bounded, small) swept
        ]
      ]

  pub reserve_entry-IsLedger :
      (limit h : ℕ) (item : ℤ) (c : Backed V.State)
      → IsLedger c.ledger
      → IsLedger (reserve_entry V limit h item c).1.ledger
  unfolding reserve_entry
  reserve_entry-IsLedger limit h (negsuc n) c v =
      evict_for_admission-IsLedger limit h (negsuc n) c v
  reserve_entry-IsLedger limit h (pos item) c v =
      let r = evict_for_admission V limit h (pos item) c in
      let kept = evict_for_admission-IsLedger limit h (pos item) c v in
      elim (Bool-cases (is_some r.0)) [
        | inl failed ↦ rw failed kept
        | inr admitted ↦ rw admitted (reserve_growth-IsLedger h item r.1.ledger kept)
      ]

  pub discard_unadmitted-IsLedger :
      (key : String) (h size at now : ℕ) (c : Backed V.State)
      → IsLedger c.ledger
      → IsLedger (discard_unadmitted V key h size at now c).1.ledger
  unfolding discard_unadmitted
  discard_unadmitted-IsLedger key h size at now c v = elim (Option-cases (find h c.lru)) [
    | inl absent ↦
        rw (absent, discard_unadmitted)
          (elim (Bool-cases (remove_files V h c.fs).0) [
            | inl gone ↦ rw gone v
            | inr left ↦ rw left (residual-IsLedger key h size (or_now at now) c.ledger absent v)
          ])
    | inr (e, found) ↦
        let k = find_hashed_key h c.lru e found in
        let there : find e.hashed_key c.lru ≡ some e = cc in
        rw (found, discard_unadmitted)
          (elim (remove_entry_cases V e c) [
            | inl (gone, dropped) ↦ rw (gone, dropped) (drop_entry-IsLedger e c.ledger there v)
            | inr (left, same) ↦ rw (left, same) (charge-IsLedger e size c.ledger there v)
          ])
  ]

  pub cleanup_ttl_expired-IsLedger :
      (ttl now : ℕ) (c : Backed V.State)
      → IsLedger c.ledger
      → IsLedger (cleanup_ttl_expired V ttl now c).cache.ledger
  unfolding cleanup_ttl_expired
  cleanup_ttl_expired-IsLedger ttl now c v =
      Drops-IsLedger _
        (ttl_loop-Drops V ttl now c.reservations (reverse c.lru) (start_sweep c) refl)
        (reverse-IsDistinct c.lru v.distinct) (IsTracked-reverse c.lru v.distinct) v

  pub enforce_max_size-IsLedger :
      (limit : ℕ) (c : Backed V.State)
      → IsLedger c.ledger
      → IsLedger (enforce_max_size V limit c).cache.ledger
  unfolding enforce_max_size
  enforce_max_size-IsLedger limit c v =
      Drops-IsLedger _
        (enforce_loop-Drops V limit c.reservations (reverse c.lru) (start_sweep c) refl)
        (reverse-IsDistinct c.lru v.distinct) (IsTracked-reverse c.lru v.distinct) v

  pub purge_entries-IsLedger :
      (c : Backed V.State) → IsLedger c.ledger → IsLedger (purge_entries V c).cache.ledger
  unfolding purge_entries
  purge_entries-IsLedger c v =
      Drops-IsLedger _ (purge_loop-Drops V c.lru (start_sweep c)) v.distinct
        (IsTracked-self c.lru v.distinct) v

-- One critical section under `lruMutex`. A writer begins a reservation only while it holds its
-- key's lock, so none is held for the key.
pub data Step (V : Vfs) (limit : ℕ) (c : Backed V.State) : Backed V.State → Type 0 where
  begins :
      (h : ℕ)
      → lookup h c.reservations ≡ none
      → Step V limit c (record c { ledger = begin_reservation h c.ledger })
  reserves : (h : ℕ) (item : ℤ) → Step V limit c (reserve_entry V limit h item c).1
  releases : (h : ℕ) → Step V limit c (record c { ledger = release_reservation h c.ledger })
  tracks :
      (key : String) (h size at now : ℕ)
      → Step V limit c (record c { ledger = track_entry key h size at now c.ledger })
  touches : (h now : ℕ) → Step V limit c (record c { ledger = touch_entry h now c.ledger })
  discards :
      (key : String) (h size at now : ℕ)
      → Step V limit c (discard_unadmitted V key h size at now c).1
  expires : (ttl now : ℕ) → Step V limit c (cleanup_ttl_expired V ttl now c).cache
  enforces : Step V limit c (enforce_max_size V limit c).cache
  purges : Step V limit c (purge_entries V c).cache

pub data Reach (V : Vfs) (limit : ℕ) (c : Backed V.State) : Backed V.State → Type 0 where
  here : Reach V limit c c
  next : {d e : Backed V.State} → Reach V limit c d → Step V limit d e → Reach V limit c e

pub Step-IsLedger :
    (V : Vfs) (limit : ℕ) {c d : Backed V.State}
    → Step V limit c d
    → IsLedger c.ledger
    → IsLedger d.ledger
Step-IsLedger V limit {c} (begins h p) v = begin_reservation-IsLedger h c.ledger p v
Step-IsLedger V limit {c} (reserves h item) v = reserve_entry-IsLedger V limit h item c v
Step-IsLedger V limit {c} (releases h) v = release_reservation-IsLedger h c.ledger v
Step-IsLedger V limit {c} (tracks key h size at now) v =
    track_entry-IsLedger key h size at now c.ledger v
Step-IsLedger V limit {c} (touches h now) v = touch_entry-IsLedger h now c.ledger v
Step-IsLedger V limit {c} (discards key h size at now) v =
    discard_unadmitted-IsLedger V key h size at now c v
Step-IsLedger V limit {c} (expires ttl now) v = cleanup_ttl_expired-IsLedger V ttl now c v
Step-IsLedger V limit {c} enforces v = enforce_max_size-IsLedger V limit c v
Step-IsLedger V limit {c} purges v = purge_entries-IsLedger V c v

-- Whatever critical sections run, in whatever order, and whichever removals the backing store
-- refuses, a ledger that adds up goes on adding up: no hashed key is tracked twice, the tracked
-- total is the sum of the entries' sizes, no key is reserved twice, and the reserved total is the
-- sum of the reservations.
pub Reach-IsLedger :
    (V : Vfs) (limit : ℕ) {c d : Backed V.State}
    → Reach V limit c d
    → IsLedger c.ledger
    → IsLedger d.ledger
Reach-IsLedger V limit here v = v
Reach-IsLedger V limit (next r s) v = Step-IsLedger V limit s (Reach-IsLedger V limit r v)
