-- ===== src/Transactions/Atomicity.antt =====
-- cache.go: what StoreContext leaves when it fails.
use mathlib.Core.Path.{subst}
use httpcache_kit.Common.{
  ℕ, ◌<◌, ◌≡◌, ◌⊎◌, inl, inr, refl, ap, ◌∙◌, Bool, true, false, List, [], ◌∷◌, String, All, arith,
  Bool-cases, contains, nat_eq, ◌==◌, map, length,
}
use httpcache_kit.Vfs.{FilePath, body, header}
use httpcache_kit.Ledger.Defs.{release_reservation}
use httpcache_kit.Stale.Defs.{Outcome}
use httpcache_kit.Cache.Defs.{Cache}
use httpcache_kit.Transactions.Storage.{Storage, StorageLaws}
use httpcache_kit.Transactions.Defs.{
  Target, target_of, Prepared, Setting, any_published, unique_keys, prepared_entries,
  response_superseded,
}
use httpcache_kit.Transactions.Store.{
  abandon_all, commit_all, discard_all, discard_prepared, prepare_all, begin_all, release_all,
  publish, store_entries, store_context,
}
use httpcache_kit.Transactions.Frames.{Same, owner}
use httpcache_kit.Transactions.Publishing.{
  abandon_all-Same, abandon_all_names, commit_all_quiet, commit_all_names,
}
use httpcache_kit.Transactions.Preparation.{
  hashes, Fresh, prepare_all-Careful, prepare_all_names, begin_all_active, begin_all_fs,
}
use httpcache_kit.Transactions.Rollback.{IsCleared, discard_all-IsCleared}

All-names :
    (P : Target → Type 0) (ps : List Prepared)
    → ((n : Target) → contains n.hashed_key (hashes ps) ≡ true → P n)
    → All P (map target_of ps)
unfolding contains
All-names P [] each = tt
All-names P (p ∷ ps) each = (
  each (target_of p) (ground (arith, nat_eq.same_iff p.hashed_key p.hashed_key)),
  All-names P ps (λ n there. each n (ground arith)),
)

module _ (S : Storage) where
  -- Both files of a key are as they were.
  abbrev pub IsUntouched : Target → Cache S.vfs.State → Cache S.vfs.State → Type 0
  IsUntouched n c d =
      Same S (body n.hashed_key) c.backed.fs d.backed.fs
      × Same S (header n.hashed_key) c.backed.fs d.backed.fs

  -- Either all keys kept their files, or none has any that could be served.
  abbrev pub IsAtomic : ℕ → List Target → Cache S.vfs.State → Cache S.vfs.State → Type 0
  IsAtomic now names c d = All (λ n. IsUntouched n c d) names ⊎ All (λ n. IsCleared S now n d) names

module _ (S : Storage) (L : StorageLaws S) where
  pub release_all_same :
      (ps : List Prepared) (c : Cache S.vfs.State)
      → ((release_all S ps c).backed.fs ≡ c.backed.fs) × ((release_all S ps c).markers ≡ c.markers)
  unfolding release_all
  release_all_same [] c = (refl, refl)
  release_all_same (p ∷ ps) c = release_all_same ps (record c {
    backed = record c.backed { ledger = release_reservation p.hashed_key c.backed.ledger };
  })

  module _ (X : Setting) (w : Outcome) (now : ℕ) where
    rollback-IsAtomic :
        (ps qs : List Prepared) (c e : Cache S.vfs.State)
        → 0 < now
        → map target_of qs ≡ map target_of ps
        → (any_published qs ≡ false
            → (q : FilePath) → contains (owner q) (hashes ps) ≡ true
            → Same S q c.backed.fs e.backed.fs)
        → IsAtomic S now (map target_of ps) c (release_all S ps (discard_prepared S X w now qs e))
    unfolding discard_prepared owner
    rollback-IsAtomic ps qs c e positive names calm =
        let gone = abandon_all S qs e.backed.fs in
        let e' : Cache S.vfs.State = record e { backed = record e.backed { fs = gone.1 } } in
        elim (Bool-cases (any_published qs)) [
          | inl published ↦
              let d = discard_all S X w now gone.0 e' in
              let cleared = discard_all-IsCleared S L X w now gone.0 e' positive in
              let released = release_all_same ps d in
              let there : All (λ n. IsCleared S now n d) (map target_of ps) =
                subst (All (λ n. IsCleared S now n d))
                  (abandon_all_names S L qs e.backed.fs ∙ names) cleared in
              inr (rw (published, released.0, released.1) there)
          | inr quiet ↦
              let released = release_all_same ps e' in
              inl (
                rw quiet (
                  All-names _ ps (λ n there. (
                    ap (S.content (body n.hashed_key)) released.0
                        ∙ abandon_all-Same S L qs (body n.hashed_key) e.backed.fs
                        ∙ calm quiet (body n.hashed_key) there,
                    ap (S.content (header n.hashed_key)) released.0
                        ∙ abandon_all-Same S L qs (header n.hashed_key) e.backed.fs
                        ∙ calm quiet (header n.hashed_key) there,
                  ))))
        ]

    store_entries-IsAtomic :
        (stopped : Bool) (ps : List Prepared) (c : Cache S.vfs.State)
        → 0 < now
        → Fresh ps
        → (store_entries S X w now stopped ps c).0 ≡ false
        → IsAtomic S now (map target_of ps) c (store_entries S X w now stopped ps c).1
    unfolding store_entries publish
    store_entries-IsAtomic stopped ps c positive fresh failed =
        let begun = begin_all S ps c.backed in
        let prep = prepare_all S X ps begun in
        let careful = prepare_all-Careful S L X ps begun fresh in
        let same : any_published prep.0.1 ≡ false
            → (q : FilePath) → contains (owner q) (hashes ps) ≡ true
            → Same S q c.backed.fs prep.1.fs =
          λ quiet q there.
            careful.same quiet q (begin_all_active S (owner q) ps c.backed (inr there))
            ∙ ap (S.content q) (begin_all_fs S ps c.backed) in
        let names = prepare_all_names S L X ps begun in
        let c' : Cache S.vfs.State = record c { backed = prep.1 } in
        let early = rollback-IsAtomic ps prep.0.1 c c' positive names same in
        let moved = commit_all S prep.0.1 prep.1.fs in
        let c2 : Cache S.vfs.State = record c { backed = record prep.1 { fs = moved.1 } } in
        let late =
          rollback-IsAtomic ps moved.0.1 c c2 positive
            (commit_all_names S L prep.0.1 prep.1.fs ∙ names)
            (λ quiet q there.
              let before = commit_all_quiet S L prep.0.1 q prep.1.fs quiet in
              before.1 ∙ same before.0 q there) in
        elim (Bool-cases prep.0.0) [
          | inr unprepared ↦ rw unprepared early
          | inl ready ↦ elim (Bool-cases stopped) [
            | inl ended ↦ rw (ready, ended) early
            | inr going ↦ elim (Bool-cases moved.0.0) [
              | inr refused ↦ rw (ready, going, refused) late
              | inl committed ↦
                  let success : true ≡ false =
                    rw (ready, going, committed, store_entries, publish) at failed in
                  ground arith
            ]
          ]
        ]

pub prepared_entries-Fresh :
    (X : Setting) (now : ℕ) (keys : List String) → Fresh (prepared_entries X now keys)
unfolding prepared_entries
prepared_entries-Fresh X now [] = tt
prepared_entries-Fresh X now (key ∷ keys) = ((refl, refl), prepared_entries-Fresh X now keys)

-- The keys that a store locks, with their hashed keys.
abbrev pub target_at : Setting → ℕ → String → Target
target_at X now key = record { key = key; hashed_key = X.hash_key key; stored_at = now }

abbrev pub targets : Setting → ℕ → List String → List Target
targets X now keys = map (target_at X now) (unique_keys X.hash_key [] keys)

pub prepared_entries_names :
    (X : Setting) (now : ℕ) (keys : List String)
    → map target_of (prepared_entries X now keys) ≡ map (target_at X now) keys
unfolding prepared_entries
prepared_entries_names X now [] = refl
prepared_entries_names X now (key ∷ keys) =
    ap (λ ns. target_at X now key ∷ ns) (prepared_entries_names X now keys)

All-IsUntouched :
    (S : Storage) (c : Cache S.vfs.State) (names : List Target)
    → All (λ n. IsUntouched S n c c) names
All-IsUntouched S c [] = tt
All-IsUntouched S c (n ∷ names) = ((refl, refl), All-IsUntouched S c names)

-- A store that returns an error has touched no file of its keys, or it has left none of them
-- that could be served: of every key, both files are gone or a marker judges the key from the
-- time of the store on. The storage keeps its laws, and the clock is past its zero.
pub store_context-IsAtomic :
    (S : Storage)
    → StorageLaws S
    → (X : Setting) (w : Outcome) (now : ℕ) (ended stopped : Bool) (keys : List String)
      (c : Cache S.vfs.State)
    → 0 < now
    → (store_context S X w now ended stopped keys c).0 ≡ false
    → IsAtomic S now (targets X now keys) c (store_context S X w now ended stopped keys c).1
unfolding store_context
store_context-IsAtomic S L X w now ended stopped keys c positive failed =
    let unique = unique_keys X.hash_key [] keys in
    let entries = prepared_entries X now unique in
    let nothing : IsAtomic S now (targets X now keys) c c =
      inl (All-IsUntouched S c (targets X now keys)) in
    let stored =
      store_entries-IsAtomic S L X w now stopped entries c positive
        (prepared_entries-Fresh X now unique) in
    elim (Bool-cases ended) [
      | inl over ↦ rw over nothing
      | inr going ↦ elim (Bool-cases (length keys == 0)) [
        | inl empty ↦ rw (going, empty) nothing
        | inr some_keys ↦
            elim (Bool-cases (response_superseded X.platform X.res unique c.markers)) [
              | inl superseded ↦ rw (going, some_keys, superseded) nothing
              | inr current ↦
                  let f : (store_entries S X w now stopped entries c).0 ≡ false =
                    rw (going, some_keys, current, store_context) at failed in
                  rw (going, some_keys, current)
                    (subst (λ ns. IsAtomic S now ns c (store_entries S X w now stopped entries c).1)
                      (prepared_entries_names X now unique) (stored f))
            ]
      ]
    ]
