-- ===== src/Ledger/Invariant.antt =====
-- cache.go: the totals of the ledger, operation by operation.
use httpcache_kit.Common.{
  ℕ, ◌-◌, ◌≡◌, String, none, some, List, ◌∷◌, arith, nat_eq, lookup, total, IsMap, insert-IsMap,
  delete-IsMap, total-insert, total-delete, Option-cases, Bool-cases, inl, inr, ltb,
}
use httpcache_kit.Ledger.Defs.{
  Entry, Ledger, find, without, drop_entry, track, track_entry, or_now, updated, residual, charge,
  touch_entry, begin_reservation, release_reservation, reserve_growth, existing_size,
}
use httpcache_kit.Ledger.Entries.{
  sizes, IsDistinct, find_hashed_key, find-without, without-IsDistinct, sizes-without,
  resize-IsDistinct, sizes-resize,
}
use httpcache_kit.Ledger.Tracking.{IsTracked, IsTracked-without}
use httpcache_kit.Ledger.Sweeps.{Drops, done, keep, drop}

pub record IsLedger (l : Ledger) : Type 0 where
  pub distinct : IsDistinct l.lru
  pub counted : l.total_size ≡ sizes l.lru
  pub held_once : IsMap l.reservations
  pub reserved : l.reserved_size ≡ total l.reservations

pub drop_entry-IsLedger :
    (e : Entry) (l : Ledger)
    → find e.hashed_key l.lru ≡ some e
    → IsLedger l
    → IsLedger (drop_entry e l)
unfolding drop_entry
drop_entry-IsLedger e l p h = record {
  distinct = without-IsDistinct e.hashed_key l.lru h.distinct;
  counted = ground (arith, sizes-without e.hashed_key l.lru h.distinct);
  held_once = h.held_once;
  reserved = h.reserved;
}

-- An entry that moves to the front, changed or not.
front-IsDistinct :
    (k : ℕ) (lru : List Entry) (e : Entry)
    → e.hashed_key ≡ k
    → IsDistinct lru
    → IsDistinct (e ∷ without k lru)
front-IsDistinct k lru e p d =
    (ground (arith, find-without k e.hashed_key lru), without-IsDistinct k lru d)

pub touch_entry-IsLedger : (k now : ℕ) (l : Ledger) → IsLedger l → IsLedger (touch_entry k now l)
unfolding touch_entry
touch_entry-IsLedger k now l h = elim (Option-cases (find k l.lru)) [
  | inl absent ↦ rw (absent, touch_entry) h
  | inr (e, found) ↦
      rw (found, touch_entry)
        (record {
          distinct =
              front-IsDistinct k l.lru (record e { accessed_at = now })
                (find_hashed_key k l.lru e found) h.distinct;
          counted = ground (arith, sizes-without k l.lru h.distinct, h.counted);
          held_once = h.held_once;
          reserved = h.reserved;
        })
]

pub release_reservation-IsLedger :
    (k : ℕ) (l : Ledger) → IsLedger l → IsLedger (release_reservation k l)
unfolding release_reservation
release_reservation-IsLedger k l h = record {
  distinct = h.distinct;
  counted = h.counted;
  held_once = delete-IsMap k l.reservations h.held_once;
  reserved = omega (arith, total-delete k l.reservations h.held_once, h.reserved);
}

-- A writer begins while it holds its key's lock, so nothing is reserved for the key.
pub begin_reservation-IsLedger :
    (k : ℕ) (l : Ledger)
    → lookup k l.reservations ≡ none
    → IsLedger l
    → IsLedger (begin_reservation k l)
unfolding begin_reservation
begin_reservation-IsLedger k l p h = record {
  distinct = h.distinct;
  counted = h.counted;
  held_once = insert-IsMap k 0 l.reservations h.held_once;
  reserved = ground (arith, total-insert k 0 l.reservations);
}

pub reserve_growth-IsLedger :
    (k item : ℕ) (l : Ledger) → IsLedger l → IsLedger (reserve_growth k item l)
unfolding reserve_growth
reserve_growth-IsLedger k item l h =
    let growth = item - existing_size k l in
    record {
      distinct = h.distinct;
      counted = h.counted;
      held_once = insert-IsMap k growth l.reservations h.held_once;
      reserved = omega (
        arith,
        total-insert k growth l.reservations,
        total-delete k l.reservations h.held_once,
        h.reserved,
      );
    }

track-IsLedger :
    (key : String) (k size at : ℕ) (l : Ledger) → IsLedger l → IsLedger (track key k size at l)
unfolding track updated
track-IsLedger key k size at l h = elim (Option-cases (find k l.lru)) [
  | inl absent ↦
      rw (absent, track)
        (record {
          distinct = (absent, h.distinct);
          counted = omega (arith, h.counted);
          held_once = h.held_once;
          reserved = h.reserved;
        })
  | inr (e, found) ↦
      rw (found, track)
        (record {
          distinct =
              front-IsDistinct k l.lru (updated e size at l.next_generation)
                (find_hashed_key k l.lru e found) h.distinct;
          counted = ground (arith, sizes-without k l.lru h.distinct, h.counted);
          held_once = h.held_once;
          reserved = h.reserved;
        })
]

pub track_entry-IsLedger :
    (key : String) (k size at now : ℕ) (l : Ledger)
    → IsLedger l
    → IsLedger (track_entry key k size at now l)
unfolding track_entry
track_entry-IsLedger key k size at now l h =
    track-IsLedger key k size (or_now at now) (release_reservation k l)
      (release_reservation-IsLedger k l h)

pub charge-IsLedger :
    (e : Entry) (size : ℕ) (l : Ledger)
    → find e.hashed_key l.lru ≡ some e
    → IsLedger l
    → IsLedger (charge e size l)
unfolding charge
charge-IsLedger e size l p h = elim (Bool-cases (ltb e.size size)) [
  | inr small ↦ rw small h
  | inl large ↦ rw large (record {
    distinct = resize-IsDistinct e.hashed_key size l.lru h.distinct;
    counted = ground (arith, sizes-resize e.hashed_key size l.lru e h.distinct p, h.counted);
    held_once = h.held_once;
    reserved = h.reserved;
  })
]

pub residual-IsLedger :
    (key : String) (k size at : ℕ) (l : Ledger)
    → find k l.lru ≡ none
    → IsLedger l
    → IsLedger (residual key k size at l)
unfolding residual
residual-IsLedger key k size at l p h = record {
  distinct = (p, h.distinct);
  counted = omega (arith, h.counted);
  held_once = h.held_once;
  reserved = h.reserved;
}

pub Drops-IsLedger :
    (P : Entry → Type 0) {es : List Entry} {l m : Ledger}
    → Drops P es l m
    → IsDistinct es
    → IsTracked es l.lru
    → IsLedger l
    → IsLedger m
unfolding drop_entry
Drops-IsLedger P done d t h = h
Drops-IsLedger P (keep s) d t h = Drops-IsLedger P s d.1 t.1 h
Drops-IsLedger P (drop {e} {es} {l} {m} p s) d t h =
    Drops-IsLedger P s d.1 (IsTracked-without e.hashed_key es l.lru d.0 t.1)
      (drop_entry-IsLedger e l t.0 h)
