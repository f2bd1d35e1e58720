-- ===== src/Ledger/Cleanup.antt =====
-- cache.go: cleanupTTLExpired, enforceMaxSize, and the removals of Purge.
use httpcache_kit.Common.{
  ℕ, suc, ◌+◌, Bool, true, false, List, [], ◌∷◌, reverse, ltb, if◌then◌else◌,
}
use httpcache_kit.Vfs.{Vfs}
use httpcache_kit.Ledger.Defs.{Entry, is_active}
use httpcache_kit.Ledger.Admission.{Backed, remove_entry}

-- The variables of a removal loop. `complete` is cleanupTTLExpired's, and Purge's `err == nil`.
pub record Sweep (S : Type 0) : Type 0 where
  pub cache : Backed S
  pub removed : ℕ
  pub bytes : ℕ
  pub complete : Bool

abbrev pub start_sweep : {S : Type 0} → Backed S → Sweep S
start_sweep c = record { cache = c; removed = 0; bytes = 0; complete = true }

module _ (V : Vfs) where
  unfoldable pub sweep_one : Entry → Sweep V.State → Sweep V.State
  sweep_one e w =
      let (gone, c) = remove_entry V e w.cache in
      if gone
      then record {
        cache = c;
        removed = suc w.removed;
        bytes = w.bytes + e.size;
        complete = w.complete;
      }
      else record w { cache = c; complete = false }

  -- `entry.storedAt.Before(now.Add(-ttl))`
  unfoldable pub is_expired : ℕ → ℕ → Entry → Bool
  is_expired ttl now e = ltb (e.stored_at + ttl) now

  unfoldable pub ttl_one : ℕ → ℕ → Entry → Sweep V.State → Sweep V.State
  unfolding sweep_one is_expired
  ttl_one ttl now e w =
      if is_expired ttl now e
      then (if is_active e.hashed_key w.cache.ledger
          then record w { complete = false }
          else sweep_one e w)
      else w

  unfoldable pub ttl_loop : ℕ → ℕ → List Entry → Sweep V.State → Sweep V.State
  unfolding ttl_one
  ttl_loop ttl now [] w = w
  ttl_loop ttl now (e ∷ es) w = ttl_loop ttl now es (ttl_one ttl now e w)

  unfoldable pub cleanup_ttl_expired : ℕ → ℕ → Backed V.State → Sweep V.State
  unfolding ttl_loop
  cleanup_ttl_expired ttl now c = ttl_loop ttl now (reverse c.lru) (start_sweep c)

  unfoldable pub enforce_one : ℕ → Entry → Sweep V.State → Sweep V.State
  unfolding sweep_one
  enforce_one limit e w =
      if ltb limit w.cache.total_size
      then (if is_active e.hashed_key w.cache.ledger then w else sweep_one e w)
      else w

  unfoldable pub enforce_loop : ℕ → List Entry → Sweep V.State → Sweep V.State
  unfolding enforce_one
  enforce_loop limit [] w = w
  enforce_loop limit (e ∷ es) w = enforce_loop limit es (enforce_one limit e w)

  unfoldable pub enforce_max_size : ℕ → Backed V.State → Sweep V.State
  unfolding enforce_loop
  enforce_max_size limit c = enforce_loop limit (reverse c.lru) (start_sweep c)

  -- From the front, whatever is reserved: Purge excludes every writer by generationMu.
  unfoldable pub purge_loop : List Entry → Sweep V.State → Sweep V.State
  unfolding sweep_one
  purge_loop [] w = w
  purge_loop (e ∷ es) w = purge_loop es (sweep_one e w)

  unfoldable pub purge_entries : Backed V.State → Sweep V.State
  unfolding purge_loop
  purge_entries c = purge_loop c.lru (start_sweep c)
