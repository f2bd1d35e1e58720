-- ===== src/Ledger/Capacity.antt =====
-- cache.go: reserveEntry and the size limit.
use httpcache_kit.Common.{
  ℕ, ◌+◌, ◌-◌, ◌≤◌, ◌<◌, ◌≡◌, ◌≢◌, refl, ap, sym, String, none, List, reverse, arith, nat_eq,
  lookup, ℤ, pos, negsuc, Option-cases, Bool-cases, inl, inr, ltb, ◌==◌, value_at, lookup-insert,
  ◌∙◌, total-delete,
}
use httpcache_kit.Vfs.{Vfs}
use httpcache_kit.Ledger.Defs.{
  Entry, Ledger, find, drop_entry, track, track_entry, or_now, charge, release_reservation,
  reserve_growth, existing_size, size_of,
}
use httpcache_kit.Ledger.Admission.{
  Backed, evict_for_admission, evict_loop, other_reserved, reserve_entry, is_over,
}
use httpcache_kit.Ledger.Entries.{find-without, sizes-without}
use httpcache_kit.Ledger.Sweeps.{Drops, done, keep, drop, IsVictim, evict_loop-Drops}
use httpcache_kit.Ledger.Invariant.{IsLedger, release_reservation-IsLedger}

-- Committed bytes and reserved growth together stay within the limit.
abbrev pub Fits : ℕ → Ledger → Type 0
Fits limit l = l.total_size + l.reserved_size ≤ limit

module _ (P : Entry → Type 0) where
  pub reservations-Drops :
      {es : List Entry} {l m : Ledger} → Drops P es l m → m.reservations ≡ l.reservations
  unfolding drop_entry
  reservations-Drops done = refl
  reservations-Drops (keep s) = reservations-Drops s
  reservations-Drops (drop p s) = reservations-Drops s

  pub reserved_size-Drops :
      {es : List Entry} {l m : Ledger} → Drops P es l m → m.reserved_size ≡ l.reserved_size
  unfolding drop_entry
  reserved_size-Drops done = refl
  reserved_size-Drops (keep s) = reserved_size-Drops s
  reserved_size-Drops (drop p s) = reserved_size-Drops s

  pub total_size-Drops-le :
      {es : List Entry} {l m : Ledger} → Drops P es l m → m.total_size ≤ l.total_size
  unfolding drop_entry
  total_size-Drops-le done = omega arith
  total_size-Drops-le (keep s) = total_size-Drops-le s
  total_size-Drops-le (drop p s) = omega (arith, total_size-Drops-le s)

  -- An entry that no dropped one shares its hashed key with stays as it was.
  pub find-Drops :
      (h : ℕ) {es : List Entry} {l m : Ledger}
      → ((e : Entry) → P e → e.hashed_key ≢ h)
      → Drops P es l m
      → find h m.lru ≡ find h l.lru
  unfolding drop_entry
  find-Drops h safe done = refl
  find-Drops h safe (keep s) = find-Drops h safe s
  find-Drops h safe (drop {e} {es} {l} {m} p s) =
      find-Drops h safe s
      ∙ ground
          (arith, find-without h e.hashed_key l.lru, find-without e.hashed_key h l.lru, safe e p)

module _ (V : Vfs) (limit h : ℕ) where
  -- What an admission leaves: it never grows the total, and touches no reservation.
  pub record Admitted (c d : Backed V.State) : Type 0 where
    pub total_le : d.total_size ≤ c.total_size
    pub reservations_same : d.reservations ≡ c.reservations
    pub reserved_same : d.reserved_size ≡ c.reserved_size
    pub target_same : find h d.lru ≡ find h c.lru
    pub others_same : (j : ℕ) → lookup j c.reservations ≢ none → find j d.lru ≡ find j c.lru

  Admitted-refl : (c : Backed V.State) → Admitted c c
  Admitted-refl c = record {
    total_le = omega arith;
    reservations_same = refl;
    reserved_same = refl;
    target_same = refl;
    others_same = λ j p. refl;
  }

  Admitted-evict_loop :
      (budget charge : ℕ) (es : List Entry) (c : Backed V.State)
      → Admitted c (evict_loop V budget charge h es c)
  Admitted-evict_loop budget charge es c =
      let swept = evict_loop-Drops V budget charge h c.reservations es c refl in
      record {
        total_le = total_size-Drops-le (IsVictim h c.reservations) swept;
        reservations_same = reservations-Drops (IsVictim h c.reservations) swept;
        reserved_same = reserved_size-Drops (IsVictim h c.reservations) swept;
        target_same = find-Drops (IsVictim h c.reservations) h (λ e p. p.0) swept;
        others_same = λ j held.
            find-Drops (IsVictim h c.reservations) j
              (λ e p q. held (ap (λ k. lookup k c.reservations) (sym q) ∙ p.1)) swept;
      }

  pub evict_for_admission-Admitted :
      (item : ℤ) (c : Backed V.State) → Admitted c (evict_for_admission V limit h item c).1
  unfolding evict_for_admission
  evict_for_admission-Admitted (negsuc n) c = Admitted-refl c
  evict_for_admission-Admitted (pos item) c =
      let swept =
        Admitted-evict_loop (limit + existing_size h c.ledger) (other_reserved h c.ledger + item)
          (reverse c.lru) c in
      elim (Bool-cases (limit == 0)) [
        | inl free ↦ rw free (Admitted-refl c)
        | inr bounded ↦ elim (Bool-cases (ltb limit item)) [
          | inl large ↦ rw (bounded, large) (Admitted-refl c)
          | inr small ↦ rw (bounded, small) swept
        ]
      ]

  -- A successful admission made the room that it promised.
  evict_for_admission_room :
      (item : ℕ) (c : Backed V.State)
      → 0 < limit
      → (evict_for_admission V limit h (pos item) c).0 ≡ none
      → (evict_for_admission V limit h (pos item) c).1.total_size + other_reserved h c.ledger + item
        ≤ limit + existing_size h c.ledger
  unfolding evict_for_admission is_over
  evict_for_admission_room item c positive ok = ground arith

  pub record Granted (item : ℕ) (c d : Backed V.State) : Type 0 where
    pub fits : Fits limit d.ledger
    pub grant : item ≤ existing_size h d.ledger + value_at h d.reservations
    pub target : find h d.lru ≡ find h c.lru
    pub active : (j : ℕ) → lookup j c.reservations ≢ none → find j d.lru ≡ find j c.lru

  reserve_growth-Fits :
      (item : ℕ) (c d : Backed V.State)
      → IsLedger c.ledger
      → Fits limit c.ledger
      → Admitted c d
      → d.total_size + other_reserved h c.ledger + item ≤ limit + existing_size h c.ledger
      → Fits limit (reserve_growth h item d.ledger)
  unfolding reserve_growth other_reserved
  reserve_growth-Fits item c d v f a room =
      let held : value_at h c.reservations ≤ c.reserved_size =
        omega (arith, total-delete h c.reservations v.held_once, v.reserved) in
      let same : existing_size h d.ledger ≡ existing_size h c.ledger = ap size_of a.target_same in
      let r : value_at h d.reservations ≡ value_at h c.reservations =
        ap (value_at h) a.reservations_same in
      omega (arith, a.total_le, a.reserved_same)

  -- With a limit that the ledger kept before, a reservation that is granted leaves the committed and
  -- reserved bytes within it, grants the item's growth over the entry it replaces, and evicts neither
  -- that entry nor any entry that another writer has a reservation for. The ledger adds up before.
  pub reserve_entry-Granted :
      (item : ℕ) (c : Backed V.State)
      → 0 < limit
      → IsLedger c.ledger
      → Fits limit c.ledger
      → (reserve_entry V limit h (pos item) c).0 ≡ none
      → Granted item c (reserve_entry V limit h (pos item) c).1
  unfolding reserve_entry
  reserve_entry-Granted item c positive v f ok =
      let d = (evict_for_admission V limit h (pos item) c).1 in
      let a = evict_for_admission-Admitted (pos item) c in
      let success : (evict_for_admission V limit h (pos item) c).0 ≡ none = ok in
      rw success (record {
        fits =
            reserve_growth-Fits item c d v f a (evict_for_admission_room item c positive success);
        grant =
            unfold reserve_growth in
            rw (lookup-insert h h (item - existing_size h d.ledger) d.reservations) (ground arith);
        target = unfold reserve_growth in a.target_same;
        active = unfold reserve_growth in a.others_same;
      })

  pub reserve_entry-Fits :
      (item : ℤ) (c : Backed V.State)
      → 0 < limit
      → IsLedger c.ledger
      → Fits limit c.ledger
      → Fits limit (reserve_entry V limit h item c).1.ledger
  unfolding reserve_entry
  reserve_entry-Fits (negsuc n) c positive v f =
      let a = evict_for_admission-Admitted (negsuc n) c in
      omega (arith, a.total_le, a.reserved_same)
  reserve_entry-Fits (pos item) c positive v f =
      let d = evict_for_admission V limit h (pos item) c in
      let a = evict_for_admission-Admitted (pos item) c in
      elim (Option-cases d.0) [
        | inl ok ↦
            rw ok
              (reserve_growth-Fits item c d.1 v f a (evict_for_admission_room item c positive ok))
        | inr (e, failed) ↦ rw failed (omega (arith, a.total_le, a.reserved_same))
      ]

track_totals :
    (key : String) (h size at : ℕ) (l : Ledger)
    → IsLedger l
    → ((track key h size at l).total_size + existing_size h l ≡ l.total_size + size)
      × ((track key h size at l).reserved_size ≡ l.reserved_size)
unfolding track
track_totals key h size at l v = elim (Option-cases (find h l.lru)) [
  | inl absent ↦ rw (absent, track) (omega arith, refl)
  | inr (e, found) ↦
      let held = sizes-without h l.lru v.distinct in
      let there : size_of (find h l.lru) ≡ e.size = ap size_of found in
      let enough : e.size ≤ l.total_size = omega (arith, held, v.counted) in
      rw (found, track) (omega arith, refl)
]

-- Tracking an entry within its grant keeps the limit.
pub track_entry-Fits :
    (limit : ℕ) (key : String) (h size at now : ℕ) (l : Ledger)
    → IsLedger l
    → size ≤ existing_size h l + value_at h l.reservations
    → Fits limit l
    → Fits limit (track_entry key h size at now l)
unfolding track_entry
track_entry-Fits limit key h size at now l v grant f =
    let released = release_reservation h l in
    let totals =
      track_totals key h size (or_now at now) released (release_reservation-IsLedger h l v) in
    unfold release_reservation in
    omega (arith, totals, total-delete h l.reservations v.held_once, v.reserved)
