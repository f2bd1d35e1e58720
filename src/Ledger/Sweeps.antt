-- ===== src/Ledger/Sweeps.antt =====
-- What the removal loops have in common: each passes once over the entries of the list, and drops
-- some of them.
use mathlib.Core.Path.{subst}
use httpcache_kit.Common.{
  ℕ, ◌+◌, ◌≡◌, ◌≢◌, refl, ap, true, false, none, List, [], ◌∷◌, arith, nat_eq, lookup, Bool-cases,
  inl, inr, ◌⊎◌, Map, ◌∙◌, ◌<◌,
}
use httpcache_kit.Vfs.{Vfs}
use httpcache_kit.Ledger.Defs.{Entry, Ledger, drop_entry, is_active}
use httpcache_kit.Ledger.Admission.{Backed, remove_entry, remove_files, evict_loop, evict_step}
use httpcache_kit.Ledger.Cleanup.{
  Sweep, sweep_one, ttl_one, ttl_loop, enforce_one, enforce_loop, purge_loop, is_expired,
}

-- `Drops P es l m`: from `l`, dropping some of `es` in order, each with `P`, leads to `m`.
pub data Drops (P : Entry → Type 0) : List Entry → Ledger → Ledger → Type 0 where
  done : {l : Ledger} → Drops P [] l l
  keep : {e : Entry} {es : List Entry} {l m : Ledger} → Drops P es l m → Drops P (e ∷ es) l m
  drop :
      {e : Entry} {es : List Entry} {l m : Ledger}
      → P e
      → Drops P es (drop_entry e l) m
      → Drops P (e ∷ es) l m

-- What one round of a loop does to the ledger.
abbrev pub Round : (Entry → Type 0) → Entry → Ledger → Ledger → Type 0
Round P e l m = (m ≡ l) ⊎ (P e × (m ≡ drop_entry e l))

round :
    {P : Entry → Type 0} {e : Entry} {es : List Entry} {l l' m : Ledger}
    → Round P e l l'
    → Drops P es l' m
    → Drops P (e ∷ es) l m
round {P} {e} {es} {l} {l'} {m} (inl same) d = keep (subst (λ x. Drops P es x m) same d)
round {P} {e} {es} {l} {l'} {m} (inr (p, eq)) d = drop p (subst (λ x. Drops P es x m) eq d)

-- No writer has a reservation for the entry.
abbrev pub IsIdle : Map ℕ ℕ → Entry → Type 0
IsIdle r e = lookup e.hashed_key r ≡ none

abbrev pub IsVictim : ℕ → Map ℕ ℕ → Entry → Type 0
IsVictim h r e = (e.hashed_key ≢ h) × IsIdle r e

abbrev IsExpired : ℕ → ℕ → Map ℕ ℕ → Entry → Type 0
IsExpired ttl now r e = (e.stored_at + ttl < now) × IsIdle r e

reservations-Round :
    (P : Entry → Type 0) {e : Entry} {l m : Ledger}
    → Round P e l m
    → m.reservations ≡ l.reservations
unfolding drop_entry
reservations-Round P (inl same) = ap (λ x. x.reservations) same
reservations-Round P (inr (p, eq)) = ap (λ x. x.reservations) eq

module _ (V : Vfs) where
  -- A removal drops the entry, or leaves the ledger as it was.
  pub remove_entry_cases :
      (e : Entry) (c : Backed V.State)
      → (((remove_entry V e c).0 ≡ true) × ((remove_entry V e c).1.ledger ≡ drop_entry e c.ledger))
        ⊎ (((remove_entry V e c).0 ≡ false) × ((remove_entry V e c).1.ledger ≡ c.ledger))
  unfolding remove_entry
  remove_entry_cases e c = elim (Bool-cases (remove_files V e.hashed_key c.fs).0) [
    | inl gone ↦ inl (rw gone refl, rw gone refl)
    | inr left ↦ inr (rw left refl, rw left refl)
  ]

  evict_step-Round :
      (budget charge h : ℕ) (e : Entry) (c : Backed V.State) (r : Map ℕ ℕ)
      → c.reservations ≡ r
      → Round (IsVictim h r) e c.ledger (evict_step V budget charge h e c).ledger
  unfolding evict_step is_active
  evict_step-Round budget charge h e c r eq = ground (arith, remove_entry_cases e c)

  pub evict_loop-Drops :
      (budget charge h : ℕ) (r : Map ℕ ℕ) (es : List Entry) (c : Backed V.State)
      → c.reservations ≡ r
      → Drops (IsVictim h r) es c.ledger (evict_loop V budget charge h es c).ledger
  unfolding evict_loop
  evict_loop-Drops budget charge h r [] c eq = done
  evict_loop-Drops budget charge h r (e ∷ es) c eq =
      let step = evict_step-Round budget charge h e c r eq in
      round step (
        evict_loop-Drops budget charge h r es (evict_step V budget charge h e c)
          (reservations-Round (IsVictim h r) step ∙ eq))

  sweep_one-Round :
      (P : Entry → Type 0) (e : Entry) (w : Sweep V.State)
      → P e
      → Round P e w.cache.ledger (sweep_one V e w).cache.ledger
  unfolding sweep_one
  sweep_one-Round P e w p = ground (arith, remove_entry_cases e w.cache)

  ttl_one-Round :
      (ttl now : ℕ) (e : Entry) (w : Sweep V.State) (r : Map ℕ ℕ)
      → w.cache.reservations ≡ r
      → Round (IsExpired ttl now r) e w.cache.ledger (ttl_one V ttl now e w).cache.ledger
  unfolding ttl_one sweep_one is_expired is_active
  ttl_one-Round ttl now e w r eq = ground (arith, remove_entry_cases e w.cache)

  enforce_one-Round :
      (limit : ℕ) (e : Entry) (w : Sweep V.State) (r : Map ℕ ℕ)
      → w.cache.reservations ≡ r
      → Round (IsIdle r) e w.cache.ledger (enforce_one V limit e w).cache.ledger
  unfolding enforce_one sweep_one is_active
  enforce_one-Round limit e w r eq = ground (arith, remove_entry_cases e w.cache)

  pub ttl_loop-Drops :
      (ttl now : ℕ) (r : Map ℕ ℕ) (es : List Entry) (w : Sweep V.State)
      → w.cache.reservations ≡ r
      → Drops (IsExpired ttl now r) es w.cache.ledger (ttl_loop V ttl now es w).cache.ledger
  unfolding ttl_loop
  ttl_loop-Drops ttl now r [] w eq = done
  ttl_loop-Drops ttl now r (e ∷ es) w eq =
      let step = ttl_one-Round ttl now e w r eq in
      round step (
        ttl_loop-Drops ttl now r es (ttl_one V ttl now e w)
          (reservations-Round (IsExpired ttl now r) step ∙ eq))

  pub enforce_loop-Drops :
      (limit : ℕ) (r : Map ℕ ℕ) (es : List Entry) (w : Sweep V.State)
      → w.cache.reservations ≡ r
      → Drops (IsIdle r) es w.cache.ledger (enforce_loop V limit es w).cache.ledger
  unfolding enforce_loop
  enforce_loop-Drops limit r [] w eq = done
  enforce_loop-Drops limit r (e ∷ es) w eq =
      let step = enforce_one-Round limit e w r eq in
      round step (
        enforce_loop-Drops limit r es (enforce_one V limit e w)
          (reservations-Round (IsIdle r) step ∙ eq))

  pub purge_loop-Drops :
      (es : List Entry) (w : Sweep V.State)
      → Drops (λ _. Unit) es w.cache.ledger (purge_loop V es w).cache.ledger
  unfolding purge_loop
  purge_loop-Drops [] w = done
  purge_loop-Drops (e ∷ es) w =
      round (sweep_one-Round (λ _. Unit) e w tt) (purge_loop-Drops es (sweep_one V e w))
