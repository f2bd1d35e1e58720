-- ===== src/Ledger/Retention.antt =====
-- cache.go: what is left by cleanupTTLExpired, enforceMaxSize and Purge.
use mathlib.Core.Path.{subst}
use httpcache_kit.Common.{
  ℕ, ◌+◌, ◌≤◌, ◌≡◌, refl, ap, sym, true, some, List, [], ◌∷◌, reverse, arith, nat_eq, lookup, inl,
  inr, ◌⊎◌, ◌∙◌, ge→ltb,
}
use httpcache_kit.Vfs.{Vfs}
use httpcache_kit.Ledger.Defs.{Entry, find, without, drop_entry, is_active}
use httpcache_kit.Ledger.Admission.{Backed}
use httpcache_kit.Ledger.Cleanup.{
  Sweep, start_sweep, sweep_one, is_expired, ttl_one, ttl_loop, cleanup_ttl_expired, enforce_one,
  enforce_loop, enforce_max_size, purge_loop, purge_entries,
}
use httpcache_kit.Ledger.Entries.{find-without, sizes}
use httpcache_kit.Ledger.Tracking.{find-reverse-some}
use httpcache_kit.Ledger.Sweeps.{remove_entry_cases}
use httpcache_kit.Ledger.Invariant.{IsLedger}
use httpcache_kit.Ledger.Steps.{purge_entries-IsLedger, enforce_max_size-IsLedger}

-- Every entry of the list is kept on purpose, or is still to be visited.
abbrev Covers : (Entry → Type 0) → List Entry → List Entry → Type 0
Covers Q es lru = (h : ℕ) (e : Entry) → find h lru ≡ some e → Q e ⊎ (find h es ≡ some e)

module _ (Q : Entry → Type 0) (e : Entry) (es lru : List Entry) where
  Covers-keep : Q e → Covers Q (e ∷ es) lru → Covers Q es lru
  unfolding find
  Covers-keep q c h x p = ground (arith, c h x)

  Covers-drop : Covers Q (e ∷ es) lru → Covers Q es (without e.hashed_key lru)
  unfolding find
  Covers-drop c h x p = ground (arith, c h x, find-without e.hashed_key h lru)

module _ (V : Vfs) where
  sweep_one_complete :
      (e : Entry) (w : Sweep V.State)
      → (sweep_one V e w).complete ≡ true
      → (w.complete ≡ true) × ((sweep_one V e w).cache.ledger ≡ drop_entry e w.cache.ledger)
  unfolding sweep_one
  sweep_one_complete e w ok = ground (arith, remove_entry_cases V e w.cache)

  module _ (ttl now : ℕ) where
    abbrev pub IsFresh : Entry → Type 0
    IsFresh e = now ≤ e.stored_at + ttl

    ttl_one_complete :
        (e : Entry) (w : Sweep V.State)
        → (ttl_one V ttl now e w).complete ≡ true
        → (w.complete ≡ true)
          × ((IsFresh e × ((ttl_one V ttl now e w).cache.ledger ≡ w.cache.ledger))
              ⊎ ((ttl_one V ttl now e w).cache.ledger ≡ drop_entry e w.cache.ledger))
    unfolding ttl_one is_expired sweep_one
    ttl_one_complete e w ok = ground (arith, remove_entry_cases V e w.cache)

    ttl_loop_complete :
        (es : List Entry) (w : Sweep V.State)
        → (ttl_loop V ttl now es w).complete ≡ true
        → w.complete ≡ true
    unfolding ttl_loop
    ttl_loop_complete [] w ok = ok
    ttl_loop_complete (e ∷ es) w ok =
        (ttl_one_complete e w (ttl_loop_complete es (ttl_one V ttl now e w) ok)).0

    ttl_loop-Covers :
        (es : List Entry) (w : Sweep V.State)
        → (ttl_loop V ttl now es w).complete ≡ true
        → Covers IsFresh es w.cache.lru
        → Covers IsFresh [] (ttl_loop V ttl now es w).cache.lru
    unfolding ttl_loop drop_entry
    ttl_loop-Covers [] w ok c = c
    ttl_loop-Covers (e ∷ es) w ok c =
        let w' = ttl_one V ttl now e w in
        ttl_loop-Covers es w' ok (elim (ttl_one_complete e w (ttl_loop_complete es w' ok)).1 [
          | inl (fresh, same) ↦
              subst (λ l. Covers IsFresh es l.lru) (sym same)
                (Covers-keep IsFresh e es w.cache.lru fresh c)
          | inr dropped ↦
              subst (λ l. Covers IsFresh es l.lru) (sym dropped)
                (Covers-drop IsFresh e es w.cache.lru c)
        ])

    -- A TTL sweep that reports that it is complete leaves no entry that was stored more than the
    -- TTL ago, whichever entries writers protected and removals were refused on the way.
    pub cleanup_ttl_expired_complete :
        (c : Backed V.State)
        → IsLedger c.ledger
        → (cleanup_ttl_expired V ttl now c).complete ≡ true
        → (h : ℕ) (e : Entry) → find h (cleanup_ttl_expired V ttl now c).cache.lru ≡ some e
        → now ≤ e.stored_at + ttl
    unfolding cleanup_ttl_expired find
    cleanup_ttl_expired_complete c v ok h e p =
        elim (ttl_loop-Covers (reverse c.lru) (start_sweep c) ok
          (λ j x q. inr (find-reverse-some j c.lru x v.distinct q)) h e p) [
            | inl fresh ↦ fresh
            | inr absent ↦ cc
          ]

  purge_loop_complete :
      (es : List Entry) (w : Sweep V.State)
      → (purge_loop V es w).complete ≡ true
      → w.complete ≡ true
  unfolding purge_loop
  purge_loop_complete [] w ok = ok
  purge_loop_complete (e ∷ es) w ok =
      (sweep_one_complete e w (purge_loop_complete es (sweep_one V e w) ok)).0

  purge_loop-Covers :
      (es : List Entry) (w : Sweep V.State)
      → (purge_loop V es w).complete ≡ true
      → Covers (λ _. ⊥) es w.cache.lru
      → Covers (λ _. ⊥) [] (purge_loop V es w).cache.lru
  unfolding purge_loop drop_entry
  purge_loop-Covers [] w ok c = c
  purge_loop-Covers (e ∷ es) w ok c =
      let w' = sweep_one V e w in
      let (_, dropped) = sweep_one_complete e w (purge_loop_complete es w' ok) in
      purge_loop-Covers es w' ok (
        subst (λ l. Covers (λ _. ⊥) es l.lru) (sym dropped)
          (Covers-drop (λ _. ⊥) e es w.cache.lru c))

  lru_empty : (lru : List Entry) → Covers (λ _. ⊥) [] lru → lru ≡ []
  unfolding find
  lru_empty [] c = refl
  lru_empty (e ∷ es) c = absurd (ground (arith, c e.hashed_key e))

  -- A purge that no removal fails leaves no entry and a tracked total of 0.
  pub purge_entries_complete :
      (c : Backed V.State)
      → IsLedger c.ledger
      → (purge_entries V c).complete ≡ true
      → ((purge_entries V c).cache.lru ≡ []) × ((purge_entries V c).cache.total_size ≡ 0)
  unfolding purge_entries find
  purge_entries_complete c v ok =
      let w = purge_entries V c in
      let none_left : w.cache.lru ≡ [] =
        lru_empty w.cache.lru (purge_loop-Covers c.lru (start_sweep c) ok (λ j x q. inr q)) in
      let kept = purge_entries-IsLedger V c v in (none_left, kept.counted ∙ ap sizes none_left)

  module _ (limit : ℕ) where
    Settled : List Entry → Backed V.State → Type 0
    Settled es c = (c.total_size ≤ limit) ⊎ Covers (λ _. ⊥) es c.lru

    enforce_one_cases :
        (e : Entry) (w : Sweep V.State)
        → w.cache.reservations ≡ []
        → (enforce_one V limit e w).complete ≡ true
        → ((enforce_one V limit e w).cache.total_size ≤ limit)
          ⊎ ((enforce_one V limit e w).cache.ledger ≡ drop_entry e w.cache.ledger)
    unfolding enforce_one sweep_one is_active lookup drop_entry
    enforce_one_cases e w idle ok = ground (arith, remove_entry_cases V e w.cache)

    enforce_one_idle :
        (e : Entry) (w : Sweep V.State)
        → w.cache.reservations ≡ []
        → (enforce_one V limit e w).cache.reservations ≡ []
    unfolding enforce_one sweep_one drop_entry
    enforce_one_idle e w idle = ground (arith, remove_entry_cases V e w.cache)

    enforce_one_complete :
        (e : Entry) (w : Sweep V.State)
        → w.cache.reservations ≡ []
        → (enforce_one V limit e w).complete ≡ true
        → w.complete ≡ true
    unfolding enforce_one sweep_one
    enforce_one_complete e w idle ok = ground (arith, remove_entry_cases V e w.cache)

    enforce_loop_complete :
        (es : List Entry) (w : Sweep V.State)
        → w.cache.reservations ≡ []
        → (enforce_loop V limit es w).complete ≡ true
        → w.complete ≡ true
    unfolding enforce_loop
    enforce_loop_complete [] w idle ok = ok
    enforce_loop_complete (e ∷ es) w idle ok =
        (enforce_one_complete e w idle
          (enforce_loop_complete es (enforce_one V limit e w) (enforce_one_idle e w idle) ok))

    enforce_one-Settled :
        (e : Entry) (es : List Entry) (w : Sweep V.State)
        → w.cache.reservations ≡ []
        → (enforce_one V limit e w).complete ≡ true
        → Settled (e ∷ es) w.cache
        → Settled es (enforce_one V limit e w).cache
    unfolding Settled drop_entry enforce_one
    enforce_one-Settled e es w idle ok (inl fits) =
        inl (rw (ge→ltb limit w.cache.total_size fits) fits)
    enforce_one-Settled e es w idle ok (inr c) = elim (enforce_one_cases e w idle ok) [
      | inl fits ↦ inl fits
      | inr dropped ↦ inr (
          subst (λ l. Covers (λ _. ⊥) es l.lru) (sym dropped)
            (Covers-drop (λ _. ⊥) e es w.cache.lru c))
    ]

    enforce_loop-Settled :
        (es : List Entry) (w : Sweep V.State)
        → w.cache.reservations ≡ []
        → (enforce_loop V limit es w).complete ≡ true
        → Settled es w.cache
        → Settled [] (enforce_loop V limit es w).cache
    unfolding enforce_loop
    enforce_loop-Settled [] w idle ok c = c
    enforce_loop-Settled (e ∷ es) w idle ok c =
        let w' = enforce_one V limit e w in
        let idle' = enforce_one_idle e w idle in
        enforce_loop-Settled es w' idle' ok
          (enforce_one-Settled e es w idle (enforce_loop_complete es w' idle' ok) c)

    -- With no write in progress and no removal refused, enforceMaxSize brings the tracked total
    -- down to the limit.
    pub enforce_max_size-le :
        (c : Backed V.State)
        → IsLedger c.ledger
        → c.reservations ≡ []
        → (enforce_max_size V limit c).complete ≡ true
        → (enforce_max_size V limit c).cache.total_size ≤ limit
    unfolding enforce_max_size find Settled
    enforce_max_size-le c v idle ok =
        let w = enforce_max_size V limit c in
        let kept = enforce_max_size-IsLedger V limit c v in
        elim (enforce_loop-Settled (reverse c.lru) (start_sweep c) idle ok
          (inr (λ j x q. inr (find-reverse-some j c.lru x v.distinct q)))) [
            | inl fits ↦ fits
            | inr none_left ↦
                let empty : sizes w.cache.lru ≡ 0 = ap sizes (lru_empty w.cache.lru none_left) in
                omega (arith, kept.counted, empty)
          ]
