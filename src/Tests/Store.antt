-- ===== src/Tests/Store.antt =====
-- A backing store for the tests, and the first states of a cache on it.
use httpcache_kit.Common.{ℕ, Bool, false, Option, none, some, [], ◌∷◌, ◌==◌, nat_eq, if◌then◌else◌}
use httpcache_kit.Vfs.{Vfs, FilePath, body, header, FsError, not_exist, other}
use httpcache_kit.Ledger.Defs.{Entry, Ledger}
use httpcache_kit.Ledger.Admission.{Backed}

abbrev pub same_path : FilePath → FilePath → Bool
same_path (body a) (body b) = a == b
same_path (header a) (header b) = a == b
same_path _ _ = false

abbrev delete_file : FilePath → (FilePath → Option ℕ) → Option FsError × (FilePath → Option ℕ)
delete_file p s =
    (elim (s p) [ none ↦ some not_exist | some n ↦ none ], λ q. if same_path p q then none else s q)

-- A store whose removals succeed.
abbrev pub plain : Vfs
plain = record { State = FilePath → Option ℕ; remove = delete_file; stat = λ p s. s p }

-- A store that refuses every removal.
abbrev pub stuck : Vfs
stuck = record { State = FilePath → Option ℕ; remove = λ p s. (some other, s); stat = λ p s. s p }

-- A cache's ledger on either store.
abbrev pub Disk : Type 0
Disk = Backed (FilePath → Option ℕ)

abbrev pub entry : ℕ → ℕ → ℕ → Entry
entry h size at = record {
  key = "GET:/";
  hashed_key = h;
  size = size;
  stored_at = at;
  accessed_at = at;
  generation = some 0;
}

abbrev pub empty_ledger : Ledger
empty_ledger = record {
  lru = [];
  total_size = 0;
  reservations = [];
  reserved_size = 0;
  next_generation = 1;
}

abbrev pub empty : Disk
empty = record { ledger = empty_ledger; fs = λ p. none }

-- Two entries, the older one at the back.
abbrev pub two : Disk
two = record {
  ledger = record empty_ledger { lru = entry 1 40 500 ∷ entry 2 50 100 ∷ []; total_size = 90 };
  fs = λ p. some 1;
}
