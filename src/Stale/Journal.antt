-- ===== src/Stale/Journal.antt =====
-- The two-slot journal that keeps the markers on a backing store which has no atomic rename.
use httpcache_kit.Common.{
  ℕ, ◌+◌, ◌≤◌, ◌<◌, ◌%◌, ◌^◌, ◌≡◌, ◌≢◌, ap, false, Option, none, some, arith, ◌==◌, nat_eq,
  Bool-cases, inl, inr, Option-cases,
}
use httpcache_kit.Stale.Defs.{
  Marks, Markers, Files, Slot, malformed, snapshot, Outcome, refused, torn, unconfirmed, complete,
  persist_stale, vfs_write, write_slot, read_slot, candidate, newer, best, next_generation,
  is_complete,
}

abbrev pub age : Option (ℕ × Marks) → ℕ
age none = 0
age (some (g, m)) = g

abbrev pub slot_age : ℕ → Files → ℕ
slot_age n f = age (candidate (read_slot n f))

-- The slot of the last confirmed generation is no newer than it; the other slot is at most the
-- next one, which a write that was not confirmed may have left behind.
pub record IsJournal (c : Markers) : Type 0 where
  pub current : slot_age (c.generation % 2) c.files ≤ c.generation
  pub other : slot_age ((c.generation + 1) % 2) c.files ≤ c.generation + 1
  pub small : c.generation + 1 < 2 ^ 64

pub data Parity (g : ℕ) : Type 0 where
  even : g % 2 ≡ 0 → (g + 1) % 2 ≡ 1 → Parity g
  odd : g % 2 ≡ 1 → (g + 1) % 2 ≡ 0 → Parity g

pub parity : (g : ℕ) → Parity g
parity g = elim (Bool-cases (g % 2 == 0)) [
  | inl p ↦ even (ground arith) (ground arith)
  | inr p ↦ odd (ground arith) (ground arith)
]

pub next_small : (g : ℕ) → g + 1 < 2 ^ 64 → next_generation g ≡ g + 1
next_small g h = omega arith

pub read-write_slot : (n : ℕ) (s : Slot) (f : Files) → n < 2 → read_slot n (write_slot n s f) ≡ s
unfolding read_slot write_slot
read-write_slot n s f h = ground arith

pub read-write_slot_ne :
    (n k : ℕ) (s : Slot) (f : Files)
    → n < 2
    → k < 2
    → n ≢ k
    → read_slot k (write_slot n s f) ≡ read_slot k f
unfolding read_slot write_slot
read-write_slot_ne n k s f h h' p = ground arith

-- A snapshot that is newer than the other slot is the one that a restart reads.
pub best_of_newest :
    (g : ℕ) (m : Marks) (f : Files)
    → candidate (read_slot (g % 2) f) ≡ some (g, m)
    → slot_age ((g + 1) % 2) f < g
    → best f ≡ some (g, m)
unfolding best newer
best_of_newest g m f here there = elim (parity g) [
  | even p q ↦ ground (arith, Option-cases (candidate (read_slot 1 f)))
  | odd p q ↦ ground (arith, Option-cases (candidate (read_slot 0 f)))
]

pub candidate_snapshot : (g : ℕ) (m : Marks) → 0 < g → candidate (snapshot g (some m)) ≡ some (g, m)
unfolding candidate
candidate_snapshot g m h = ground arith

-- The two slots of a generation, as indices of slot files.
pub other_slot : (g : ℕ) → ((g + 1) % 2 ≢ g % 2) × ((g + 1 + 1) % 2 ≡ g % 2)
other_slot g = (omega arith, omega arith)

pub slot_age_ne :
    (g : ℕ) (s : Slot) (f : Files)
    → slot_age (g % 2) (write_slot ((g + 1) % 2) s f) ≡ slot_age (g % 2) f
slot_age_ne g s f =
    ap (λ x. age (candidate x))
      (read-write_slot_ne ((g + 1) % 2) (g % 2) s f (omega arith) (omega arith) (other_slot g).0)

pub slot_age_self :
    (g : ℕ) (s : Slot) (f : Files)
    → slot_age ((g + 1) % 2) (write_slot ((g + 1) % 2) s f) ≡ age (candidate s)
slot_age_self g s f = ap (λ x. age (candidate x)) (read-write_slot ((g + 1) % 2) s f (omega arith))

-- Every write, however it ends, keeps the journal in order.
pub persist_stale-IsJournal :
    (w : Outcome) (c : Markers)
    → IsJournal c
    → c.generation + 2 < 2 ^ 64
    → IsJournal (persist_stale false w c)
unfolding persist_stale vfs_write is_complete
persist_stale-IsJournal refused c v small = v
persist_stale-IsJournal torn c v small = rw (next_small c.generation v.small) (record {
  current = omega (arith, slot_age_ne c.generation malformed c.files, v.current);
  other = unfold candidate in omega (arith, slot_age_self c.generation malformed c.files);
  small = v.small;
})
persist_stale-IsJournal unconfirmed c v small =
    let s = snapshot (c.generation + 1) (some c.stale) in
    let written = ap age (candidate_snapshot (c.generation + 1) c.stale (omega arith)) in
    rw (next_small c.generation v.small) (record {
      current = omega (arith, slot_age_ne c.generation s c.files, v.current);
      other = omega (arith, slot_age_self c.generation s c.files, written);
      small = v.small;
    })
persist_stale-IsJournal complete c v small =
    let s = snapshot (c.generation + 1) (some c.stale) in
    let written = ap age (candidate_snapshot (c.generation + 1) c.stale (omega arith)) in
    rw (next_small c.generation v.small) (record {
      current = omega (arith, slot_age_self c.generation s c.files, written);
      other =
          rw (other_slot c.generation).1
            (omega (arith, slot_age_ne c.generation s c.files, v.current));
      small = omega arith;
    })
