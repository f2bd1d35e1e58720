-- ===== src/Ledger/Defs.antt =====
-- cache.go: cacheEntry, trackEntry, touchEntry, the reservations and what reads the index.
use httpcache_kit.Common.{
  ℕ, suc, ◌+◌, ◌-◌, String, Bool, Option, none, some, List, [], ◌∷◌, Map, lookup, insert, delete,
  value_at, ltb, ◌==◌, nat_eq, is_some, if◌then◌else◌,
}

pub record Entry : Type 0 where
  pub key : String
  pub hashed_key : ℕ
  pub size : ℕ
  pub stored_at : ℕ
  pub accessed_at : ℕ
  pub generation : Option ℕ

pub record Ledger : Type 0 where
  pub lru : List Entry
  pub total_size : ℕ
  pub reservations : Map ℕ ℕ
  pub reserved_size : ℕ
  pub next_generation : ℕ

-- c.lruIndex[hashedKey]
unfoldable pub find : ℕ → List Entry → Option Entry
find h [] = none
find h (e ∷ es) = if e.hashed_key == h then some e else find h es

-- lruList.Remove(entry.element) with delete(lruIndex, entry.hashedKey)
unfoldable pub without : ℕ → List Entry → List Entry
without h [] = []
without h (e ∷ es) = let rest = without h es in if e.hashed_key == h then rest else e ∷ rest

abbrev pub size_of : Option Entry → ℕ
size_of none = 0
size_of (some e) = e.size

-- existingSize of reserveEntry and evictForAdmissionLocked
abbrev pub existing_size : ℕ → Ledger → ℕ
existing_size h l = size_of (find h l.lru)

unfoldable pub is_active : ℕ → Ledger → Bool
is_active h l = is_some (lookup h l.reservations)

unfoldable pub begin_reservation : ℕ → Ledger → Ledger
begin_reservation h l = record l { reservations = insert h 0 l.reservations }

unfoldable pub release_reservation : ℕ → Ledger → Ledger
release_reservation h l = record l {
  reserved_size = l.reserved_size - value_at h l.reservations;
  reservations = delete h l.reservations;
}

-- `storedAt.IsZero()` takes the clock, `now`, in its place.
unfoldable pub or_now : ℕ → ℕ → ℕ
or_now stored_at now = if stored_at == 0 then now else stored_at

unfoldable pub updated : Entry → ℕ → ℕ → ℕ → Entry
updated e size stored_at g = record e {
  size = size;
  stored_at = stored_at;
  accessed_at = stored_at;
  generation = some g;
}

unfoldable pub track : String → ℕ → ℕ → ℕ → Ledger → Ledger
unfolding updated
track key h size stored_at l = elim (find h l.lru) [
  | some e ↦ record l {
    total_size = l.total_size - e.size + size;
    lru = updated e size stored_at l.next_generation ∷ without h l.lru;
    next_generation = suc l.next_generation;
  }
  | none ↦ record l {
    total_size = l.total_size + size;
    lru =
        record {
          key = key;
          hashed_key = h;
          size = size;
          stored_at = stored_at;
          accessed_at = stored_at;
          generation = some l.next_generation;
        }
        ∷ l.lru;
    next_generation = suc l.next_generation;
  }
]

unfoldable pub track_entry : String → ℕ → ℕ → ℕ → ℕ → Ledger → Ledger
unfolding or_now
track_entry key h size stored_at now l =
    track key h size (or_now stored_at now) (release_reservation h l)

unfoldable pub entry_generation : ℕ → Ledger → Option ℕ
entry_generation h l = elim (find h l.lru) [ none ↦ none | some e ↦ e.generation ]

unfoldable pub entry_stored_at : ℕ → Ledger → ℕ
entry_stored_at h l = elim (find h l.lru) [ none ↦ 0 | some e ↦ e.stored_at ]

unfoldable pub touch_entry : ℕ → ℕ → Ledger → Ledger
touch_entry h now l = elim (find h l.lru) [
  | none ↦ l
  | some e ↦ record l { lru = record e { accessed_at = now } ∷ without h l.lru }
]

-- The bookkeeping of a removal, once the files are gone.
unfoldable pub drop_entry : Entry → Ledger → Ledger
drop_entry e l = record l { lru = without e.hashed_key l.lru; total_size = l.total_size - e.size }

-- The record that discardUnadmitted leaves for files which the store refused to remove.
unfoldable pub residual : String → ℕ → ℕ → ℕ → Ledger → Ledger
residual key h size stored_at l =
    let charged = if size == 0 then 1 else size in
    record l {
      total_size = l.total_size + charged;
      lru =
          record {
            key = key;
            hashed_key = h;
            size = charged;
            stored_at = stored_at;
            accessed_at = stored_at;
            generation = none;
          }
          ∷ l.lru;
    }

unfoldable pub resize : ℕ → ℕ → List Entry → List Entry
resize h n [] = []
resize h n (x ∷ xs) = (if x.hashed_key == h then record x { size = n } else x) ∷ resize h n xs

-- A tracked entry whose files stay keeps the larger of the two sizes.
unfoldable pub charge : Entry → ℕ → Ledger → Ledger
charge e size l =
    if ltb e.size size
    then record l {
      total_size = l.total_size + (size - e.size);
      lru = resize e.hashed_key size l.lru;
    }
    else l

-- growth is max(itemSize - existingSize, 0).
unfoldable pub reserve_growth : ℕ → ℕ → Ledger → Ledger
reserve_growth h item l =
    let growth = item - existing_size h l in
    record l {
      reserved_size = l.reserved_size - value_at h l.reservations + growth;
      reservations = insert h growth l.reservations;
    }
