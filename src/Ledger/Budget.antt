-- ===== src/Ledger/Budget.antt =====
-- cache.go: the size limit over whole runs of writers, readers and cleanup.
use httpcache_kit.Common.{
  ℕ, ◌+◌, ◌≤◌, ◌<◌, ◌≡◌, refl, String, true, reverse, arith, nat_eq, value_at, Option-cases, inl,
  inr, List,
}
use httpcache_kit.Vfs.{Vfs}
use httpcache_kit.Ledger.Defs.{
  Entry, Ledger, find, drop_entry, touch_entry, begin_reservation, release_reservation,
  existing_size,
}
use httpcache_kit.Ledger.Admission.{Backed, discard_unadmitted}
use httpcache_kit.Ledger.Cleanup.{cleanup_ttl_expired, enforce_max_size, purge_entries, start_sweep}
use httpcache_kit.Ledger.Sweeps.{
  Drops, remove_entry_cases, ttl_loop-Drops, enforce_loop-Drops, purge_loop-Drops,
}
use httpcache_kit.Ledger.Invariant.{IsLedger}
use httpcache_kit.Ledger.Capacity.{
  Fits, reserve_entry-Fits, track_entry-Fits, total_size-Drops-le, reserved_size-Drops,
}
use httpcache_kit.Ledger.Steps.{
  Step, begins, reserves, releases, tracks, touches, discards, expires, enforces, purges,
  Step-IsLedger,
}

-- The writer's side of the bargain: it tracks no more than its reservation grants over the entry
-- that it replaces, and a discarded store left no files behind.
abbrev pub IsGuarded : (V : Vfs) (limit : ℕ) {c d : Backed V.State} → Step V limit c d → Type 0
IsGuarded V limit {c} (tracks key h size at now) =
    size ≤ existing_size h c.ledger + value_at h c.reservations
IsGuarded V limit {c} (discards key h size at now) =
    (discard_unadmitted V key h size at now c).0 ≡ true
IsGuarded V limit _ = Unit

pub data Run (V : Vfs) (limit : ℕ) (c : Backed V.State) : Backed V.State → Type 0 where
  here : Run V limit c c
  next :
      {d e : Backed V.State}
      → Run V limit c d
      → (s : Step V limit d e) → IsGuarded V limit s
      → Run V limit c e

module _ (V : Vfs) (limit : ℕ) where
  Drops-Fits :
      (P : Entry → Type 0) {es : List Entry} {l m : Ledger}
      → Drops P es l m
      → Fits limit l
      → Fits limit m
  Drops-Fits P s f = omega (arith, total_size-Drops-le P s, reserved_size-Drops P s)

  discard_unadmitted-Fits :
      (key : String) (h size at now : ℕ) (c : Backed V.State)
      → (discard_unadmitted V key h size at now c).0 ≡ true
      → Fits limit c.ledger
      → Fits limit (discard_unadmitted V key h size at now c).1.ledger
  unfolding discard_unadmitted drop_entry
  discard_unadmitted-Fits key h size at now c ok f = elim (Option-cases (find h c.lru)) [
    | inl absent ↦ ground arith
    | inr (e, found) ↦ ground (arith, remove_entry_cases V e c)
  ]

  Step-Fits :
      {c d : Backed V.State} (s : Step V limit c d)
      → IsGuarded V limit s
      → 0 < limit
      → IsLedger c.ledger
      → Fits limit c.ledger
      → Fits limit d.ledger
  unfolding begin_reservation release_reservation touch_entry cleanup_ttl_expired enforce_max_size
      purge_entries
  Step-Fits {c} (begins h p) g positive v f = f
  Step-Fits {c} (reserves h item) g positive v f = reserve_entry-Fits V limit h item c positive v f
  Step-Fits {c} (releases h) g positive v f = omega arith
  Step-Fits {c} (tracks key h size at now) g positive v f =
      track_entry-Fits limit key h size at now c.ledger v g f
  Step-Fits {c} (touches h now) g positive v f = ground arith
  Step-Fits {c} (discards key h size at now) g positive v f =
      discard_unadmitted-Fits key h size at now c g f
  Step-Fits {c} (expires ttl now) g positive v f =
      Drops-Fits _ (ttl_loop-Drops V ttl now c.reservations (reverse c.lru) (start_sweep c) refl) f
  Step-Fits {c} enforces g positive v f =
      Drops-Fits _ (enforce_loop-Drops V limit c.reservations (reverse c.lru) (start_sweep c) refl)
        f
  Step-Fits {c} purges g positive v f = Drops-Fits _ (purge_loop-Drops V c.lru (start_sweep c)) f

  Run-Both :
      {c d : Backed V.State}
      → 0 < limit
      → IsLedger c.ledger
      → Fits limit c.ledger
      → Run V limit c d
      → IsLedger d.ledger × Fits limit d.ledger
  Run-Both positive v f here = (v, f)
  Run-Both positive v f (next r s g) =
      let (v', f') = Run-Both positive v f r in
      (Step-IsLedger V limit s v', Step-Fits s g positive v' f')

  -- From a ledger that adds up and fits the limit, no interleaving of critical sections in which
  -- writers track within their grants and discards leave no files brings the committed bytes and
  -- the reserved growth together above the limit.
  pub Run-Fits :
      {c d : Backed V.State}
      → 0 < limit
      → IsLedger c.ledger
      → Fits limit c.ledger
      → Run V limit c d
      → Fits limit d.ledger
  Run-Fits positive v f r = (Run-Both positive v f r).1
