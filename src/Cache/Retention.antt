-- ===== src/Cache/Retention.antt =====
-- cache.go: Cleanup, and the staleness verdict on the entries that it keeps.
use httpcache_kit.Common.{
  ℕ, ◌+◌, ◌≤◌, ◌<◌, ◌≡◌, refl, ap, ◌∙◌, String, Bool, some, List, reverse, arith, ◌==◌, nat_eq,
  Bool-cases, inl, inr, IsMap, string_eq,
}
use httpcache_kit.Vfs.{Vfs}
use httpcache_kit.Ledger.Defs.{Entry, Ledger, find, drop_entry}
use httpcache_kit.Ledger.Admission.{Backed}
use httpcache_kit.Ledger.Cleanup.{cleanup_ttl_expired, enforce_max_size, start_sweep}
use httpcache_kit.Ledger.Entries.{find-without}
use httpcache_kit.Ledger.Sweeps.{Drops, done, keep, drop, enforce_loop-Drops}
use httpcache_kit.Ledger.Invariant.{IsLedger}
use httpcache_kit.Ledger.Retention.{cleanup_ttl_expired_complete}
use httpcache_kit.Stale.Defs.{Markers, Outcome, cleanup_stale_map, stale_retention}
use httpcache_kit.Stale.Marks.{stale_at-cleanup_stale_map}
use httpcache_kit.Cache.Defs.{
  Limits, Cache, CleanupResult, is_judged_stale, expire, enforce, cleanup,
}

find-Drops-some :
    (P : Entry → Type 0) (h : ℕ) (e : Entry) {es : List Entry} {l m : Ledger}
    → Drops P es l m
    → find h m.lru ≡ some e
    → find h l.lru ≡ some e
unfolding drop_entry
find-Drops-some P h e done p = p
find-Drops-some P h e (keep s) p = find-Drops-some P h e s p
find-Drops-some P h e (drop {e = x} {es} {l} q s) p =
    ground (arith, find-Drops-some P h e s p, find-without x.hashed_key h l.lru)

-- The sweep of old markers leaves the verdict on an entry that is younger than the retention.
verdict-cleanup_stale_map :
    (on_disk : Bool) (w : Outcome) (ttl stale_map_ttl now : ℕ) (m : Markers) (key : String)
    (e : Entry)
    → IsMap m.stale
    → (0 < ttl → now ≤ e.stored_at + ttl)
    → is_judged_stale key e (cleanup_stale_map on_disk w ttl stale_map_ttl now m).0
      ≡ is_judged_stale key e m
unfolding is_judged_stale stale_retention
verdict-cleanup_stale_map on_disk w ttl smt now m key e v young =
    ground (arith, stale_at-cleanup_stale_map on_disk w ttl smt now m key v)

module _ (V : Vfs) where
  survivor_of_enforce :
      (limit : ℕ) (c : Backed V.State) (h : ℕ) (e : Entry)
      → find h (enforce_max_size V limit c).cache.lru ≡ some e
      → find h c.lru ≡ some e
  unfolding enforce_max_size
  survivor_of_enforce limit c h e =
      find-Drops-some _ h e
        (enforce_loop-Drops V limit c.reservations (reverse c.lru) (start_sweep c) refl)

  expire_verdict :
      (l : Limits) (w : Outcome) (now : ℕ) (c : Cache V.State) (h : ℕ) (e : Entry) (key : String)
      → IsLedger c.backed.ledger
      → IsMap c.markers.stale
      → find h (expire V l w now c).0.backed.lru ≡ some e
      → is_judged_stale key e (expire V l w now c).0.markers ≡ is_judged_stale key e c.markers
  unfolding expire
  expire_verdict l w now c h e key v u p = elim (Bool-cases (l.ttl == 0)) [
    | inl off ↦ rw off (
        verdict-cleanup_stale_map l.on_disk w l.ttl l.stale_map_ttl now c.markers key e u
          (λ pos_ttl. ground arith))
    | inr on ↦ elim (Bool-cases (cleanup_ttl_expired V l.ttl now c.backed).complete) [
      | inr partial ↦ rw (on, partial) refl
      | inl complete ↦
          let q : find h (cleanup_ttl_expired V l.ttl now c.backed).cache.lru ≡ some e =
            ground arith in
          rw (on, complete)
            (verdict-cleanup_stale_map l.on_disk w l.ttl l.stale_map_ttl now c.markers key e u
              (λ pos_ttl. cleanup_ttl_expired_complete V l.ttl now c.backed v complete h e q))
    ]
  ]

  markers-enforce :
      (l : Limits) (c : Cache V.State) (r : CleanupResult)
      → (enforce V l (c, r)).0.markers ≡ c.markers
  unfolding enforce
  markers-enforce l c r = ground arith

  find-enforce :
      (l : Limits) (c : Cache V.State) (r : CleanupResult) (h : ℕ) (e : Entry)
      → find h (enforce V l (c, r)).0.backed.lru ≡ some e
      → find h c.backed.lru ≡ some e
  unfolding enforce
  find-enforce l c r h e p = ground (arith, survivor_of_enforce l.max_size c.backed h e)

  cleanup_lem :
      (l : Limits) (w : Outcome) (now : ℕ) (c : Cache V.State)
      → cleanup V l w now c ≡ enforce V l (expire V l w now c)
  unfolding cleanup
  cleanup_lem l w now c = refl

  -- Cleanup keeps the staleness verdict on every entry that survives it, under every key that may
  -- govern the entry: no marker is dropped while an entry that it judges stale is still there,
  -- whatever the time to live and the marker retention, and whichever removals are refused.
  pub cleanup_verdict :
      (l : Limits) (w : Outcome) (now : ℕ) (c : Cache V.State) (h : ℕ) (e : Entry) (key : String)
      → IsLedger c.backed.ledger
      → IsMap c.markers.stale
      → find h (cleanup V l w now c).0.backed.lru ≡ some e
      → is_judged_stale key e (cleanup V l w now c).0.markers ≡ is_judged_stale key e c.markers
  cleanup_verdict l w now c h e key v u p =
      let x = expire V l w now c in
      let q : find h (enforce V l (x.0, x.1)).0.backed.lru ≡ some e = rw cleanup_lem at p in
      rw cleanup_lem (
        ap (is_judged_stale key e) (markers-enforce l x.0 x.1)
        ∙ expire_verdict l w now c h e key v u (find-enforce l x.0 x.1 h e q))
