-- ===== src/Publication/Defs.antt =====
-- handler_publication.go, and recordStale of handler.go, for a cache that has no StaleAt of its own.
--
-- Each function is one critical section of localStaleMu. A `*localFreshProof` is compared by its
-- address, so a proof carries a number that no other proof has. Times are nanoseconds.
use httpcache_kit.Common.{
  ℕ, suc, ◌+◌, ◌-◌, Bool, true, false, ◌&&◌, ◌||◌, not, Option, none, some, List, [], ◌∷◌, Map,
  lookup, insert, delete, insert_all, ltb, ◌==◌, nat_eq, text_key, Text, if◌then◌else◌,
}
use httpcache_kit.Http.Headers.{sort}

pub record LocalPublication : Type 0 where
  pub active : ℕ
  pub overlap : Bool

pub record FreshProof : Type 0 where
  pub address : ℕ
  pub at : ℕ

pub record Evidence : Type 0 where
  pub local_stale : Map Text ℕ
  pub local_fresh : Map Text FreshProof
  pub local_publications : Map Text LocalPublication
  pub next_address : ℕ

-- slices.Compact: one of each run of equal keys.
unfoldable pub push : Text → List Text → List Text
push key [] = key ∷ []
push key (next ∷ rest) = if key == next then next ∷ rest else key ∷ next ∷ rest

unfoldable pub compact : List Text → List Text
compact [] = []
compact (key ∷ keys) = push key (compact keys)

unfoldable pub begun : Option LocalPublication → LocalPublication
begun none = record { active = 1; overlap = false }
begun (some p) = record { active = p.active + 1; overlap = p.overlap || ltb 1 (p.active + 1) }

unfoldable pub begin_one : Text → Evidence → Evidence
begin_one key s = record s {
  local_publications = insert key (begun (lookup key s.local_publications)) s.local_publications;
  local_fresh = delete key s.local_fresh;
}

unfoldable pub begin_all : List Text → Evidence → Evidence
begin_all [] s = s
begin_all (key ∷ keys) s = begin_all keys (begin_one key s)

unfoldable pub begin_local_publication : List Text → Evidence → Evidence
begin_local_publication keys s = begin_all (compact (sort keys)) s

-- The proofs that are not before the cutoff.
unfoldable pub recent_proofs : ℕ → Map Text FreshProof → Map Text FreshProof
recent_proofs cutoff [] = []
recent_proofs cutoff ((key, proof) ∷ m) =
    let rest = recent_proofs cutoff m in if ltb proof.at cutoff then rest else (key, proof) ∷ rest

-- The new proof of a publication that was the only one while it ran, and succeeded.
unfoldable pub prove : Text → ℕ → Bool → Evidence → Evidence
prove key at granted s =
    if granted
    then record s {
      local_fresh = insert key (record { address = s.next_address; at = at }) s.local_fresh;
      next_address = suc s.next_address;
    }
    else s

-- A key without a publication cannot be finished.
unfoldable pub finish_one : ℕ → Bool → Text → Evidence → Evidence
finish_one at success key s = elim (lookup key s.local_publications) [
  | none ↦ s
  | some p ↦
      let left = p.active - 1 in
      if left == 0
      then prove key at (success && not p.overlap)
          (record s { local_publications = delete key s.local_publications })
      else record s {
        local_publications = insert key (record p { active = left }) s.local_publications;
      }
]

unfoldable pub finish_all : ℕ → Bool → List Text → Evidence → Evidence
finish_all at success [] s = s
finish_all at success (key ∷ keys) s = finish_all at success keys (finish_one at success key s)

-- `retention` is staleMarkerTTL.
unfoldable pub finish_local_publication : ℕ → ℕ → ℕ → List Text → Bool → Evidence → Evidence
finish_local_publication retention now at keys success s =
    finish_all at success (compact (sort keys))
      (record s { local_fresh = recent_proofs (now - retention) s.local_fresh })

-- The proof under a key, and whether no publication of it is under way.
unfoldable pub local_publication_snapshot : Text → Evidence → Option FreshProof × Bool
local_publication_snapshot key s = (
  lookup key s.local_fresh,
  elim (lookup key s.local_publications) [ none ↦ true | some p ↦ false ],
)

-- What generationRetriever stamps on a resource from the snapshots before and after its retrieval;
-- 0 is the zero time.
unfoldable pub stamp : Option FreshProof × Bool → Option FreshProof × Bool → ℕ
stamp (some before, true) (some after, true) =
    if before.address == after.address then before.at else 0
stamp _ _ = 0

unfoldable pub recent_marks : ℕ → Map Text ℕ → Map Text ℕ
recent_marks cutoff [] = []
recent_marks cutoff ((key, at) ∷ m) =
    let rest = recent_marks cutoff m in if ltb at cutoff then rest else (key, at) ∷ rest

unfoldable pub record_stale : ℕ → ℕ → List Text → Evidence → Evidence
record_stale retention now keys s = record s {
  local_stale = insert_all keys now (recent_marks (now - retention) s.local_stale);
  local_fresh = recent_proofs (now - retention) s.local_fresh;
}
