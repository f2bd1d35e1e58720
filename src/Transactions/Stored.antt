-- ===== src/Transactions/Stored.antt =====
-- cache.go: what StoreContext leaves when it succeeds.
use mathlib.Core.Path.{subst}
use httpcache_kit.Common.{
  ℕ, ◌≡◌, ◌≢◌, inl, inr, refl, ap, sym, ◌∙◌, Bool, true, false, List, [], ◌∷◌, String, length, All,
  arith, Bool-cases, nat_eq, ◌==◌, contains, map,
}
use httpcache_kit.Ledger.Defs.{is_active, track_entry}
use httpcache_kit.Ledger.Admission.{Backed}
use httpcache_kit.Stale.Defs.{Outcome}
use httpcache_kit.Cache.Defs.{Cache}
use httpcache_kit.Transactions.Storage.{Storage, StorageLaws}
use httpcache_kit.Transactions.Defs.{
  target_of, Prepared, Setting, unique_keys, prepared_entries, response_superseded,
}
use httpcache_kit.Transactions.Store.{
  commit_all, prepare_all, begin_all, publish, store_entries, store_context, track_all,
}
use httpcache_kit.Transactions.Preparation.{hashes, Fresh, prepare_all_names, begin_all_active}
use httpcache_kit.Transactions.Atomicity.{
  targets, release_all_same, prepared_entries_names, prepared_entries-Fresh,
}
use httpcache_kit.Transactions.Commit.{are_apart, IsFiled, prepare_all-IsReady, commit_all_stored}

hashes_same : (ps qs : List Prepared) → map target_of ps ≡ map target_of qs → hashes ps ≡ hashes qs
hashes_same ps qs same =
    sym (hashes_targets ps) ∙ ap (map (λ t. t.hashed_key)) same ∙ hashes_targets qs
  where
    hashes_targets : (ps : List Prepared) → map (λ t. t.hashed_key) (map target_of ps) ≡ hashes ps
    hashes_targets [] = refl
    hashes_targets (p ∷ ps) = ap (λ hs. p.hashed_key ∷ hs) (hashes_targets ps)

unique_keys_fresh :
    (hash : String → ℕ) (seen : List ℕ) (keys : List String) (h : ℕ)
    → contains h seen ≡ true
    → contains h (map hash (unique_keys hash seen keys)) ≡ false
unfolding unique_keys contains
unique_keys_fresh hash seen [] h there = refl
unique_keys_fresh hash seen (key ∷ keys) h there = elim (Bool-cases (contains (hash key) seen)) [
  | inl known ↦ rw (known, unique_keys) (unique_keys_fresh hash seen keys h there)
  | inr new ↦
      let other : hash key ≢ h = λ e.
        let known : true ≡ false = sym (subst (λ k. contains k seen ≡ true) (sym e) there) ∙ new in
        ground arith in
      let rest = unique_keys_fresh hash (hash key ∷ seen) keys h (ground arith) in
      rw (new, unique_keys) (ground arith)
]

pub unique_keys_apart :
    (hash : String → ℕ) (seen : List ℕ) (keys : List String)
    → are_apart (map hash (unique_keys hash seen keys)) ≡ true
unfolding unique_keys are_apart contains
unique_keys_apart hash seen [] = refl
unique_keys_apart hash seen (key ∷ keys) = elim (Bool-cases (contains (hash key) seen)) [
  | inl known ↦ rw (known, unique_keys) (unique_keys_apart hash seen keys)
  | inr new ↦
      let seen' = hash key ∷ seen in
      let fresh =
        unique_keys_fresh hash seen' keys (hash key)
          (ground (arith, nat_eq.same_iff (hash key) (hash key))) in
      rw (new, unique_keys) (ground (arith, unique_keys_apart hash seen' keys))
]

pub hashes-prepared_entries :
    (X : Setting) (now : ℕ) (keys : List String)
    → hashes (prepared_entries X now keys) ≡ map X.hash_key keys
unfolding prepared_entries
hashes-prepared_entries X now [] = refl
hashes-prepared_entries X now (key ∷ keys) =
    ap (λ hs. X.hash_key key ∷ hs) (hashes-prepared_entries X now keys)

module _ (S : Storage) (L : StorageLaws S) (X : Setting) where
  track_all_fs :
      (now : ℕ) (ps : List Prepared) (c : Backed S.vfs.State) → (track_all S now ps c).fs ≡ c.fs
  unfolding track_all
  track_all_fs now [] c = refl
  track_all_fs now (p ∷ ps) c =
      track_all_fs now ps
        (record c { ledger = track_entry p.key p.hashed_key p.size p.stored_at now c.ledger })

  All-hashes :
      (P : ℕ → Type 0) (ps : List Prepared)
      → ((h : ℕ) → contains h (hashes ps) ≡ true → P h)
      → All (λ p. P p.hashed_key) ps
  unfolding contains
  All-hashes P [] each = tt
  All-hashes P (p ∷ ps) each = (
    each p.hashed_key (ground (arith, nat_eq.same_iff p.hashed_key p.hashed_key)),
    All-hashes P ps (λ h there. each h (ground arith)),
  )

  store_entries_stored :
      (w : Outcome) (now : ℕ) (stopped : Bool) (ps : List Prepared) (c : Cache S.vfs.State)
      → Fresh ps
      → are_apart (hashes ps) ≡ true
      → (store_entries S X w now stopped ps c).0 ≡ true
      → All (IsFiled S X (store_entries S X w now stopped ps c).1.backed.fs) (map target_of ps)
  unfolding store_entries publish
  store_entries_stored w now stopped ps c fresh apart stored =
      let begun = begin_all S ps c.backed in
      let prep = prepare_all S X ps begun in
      let active =
        All-hashes (λ h. is_active h begun.ledger ≡ true) ps
          (λ h there. begin_all_active S h ps c.backed (inr there)) in
      let names = prepare_all_names S L X ps begun in
      let moved = commit_all S prep.0.1 prep.1.fs in
      elim (Bool-cases prep.0.0) [
        | inr unprepared ↦
            let absurd : false ≡ true = rw (unprepared, store_entries) at stored in ground arith
        | inl ready ↦ elim (Bool-cases stopped) [
          | inl ended ↦
              let absurd : false ≡ true = rw (ready, ended, store_entries, publish) at stored in
              ground arith
          | inr going ↦ elim (Bool-cases moved.0.0) [
            | inr refused ↦
                let absurd : false ≡ true =
                  rw (ready, going, refused, store_entries, publish) at stored in
                ground arith
            | inl committed ↦
                let filed =
                  commit_all_stored S L X prep.0.1 prep.1.fs
                    (subst (λ hs. are_apart hs ≡ true) (sym (hashes_same prep.0.1 ps names)) apart)
                    (prepare_all-IsReady S L X ps begun fresh apart active ready) committed in
                let c2 : Cache S.vfs.State = record c { backed = record prep.1 { fs = moved.1 } } in
                let d : Cache S.vfs.State = record c2 {
                  backed = track_all S now moved.0.1 c2.backed;
                } in
                let same : (store_entries S X w now stopped ps c).1.backed.fs ≡ moved.1 =
                  rw (ready, going, committed)
                    ((release_all_same S L ps d).0 ∙ track_all_fs now moved.0.1 c2.backed) in
                subst (λ s. All (IsFiled S X s) (map target_of ps)) (sym same)
                  (subst (All (IsFiled S X moved.1)) names filed)
          ]
        ]
      ]

-- A successful store that no marker supersedes has filed the response under every key that it locked.
pub store_context-IsFiled :
    (S : Storage)
    → StorageLaws S
    → (X : Setting) (w : Outcome) (now : ℕ) (ended stopped : Bool) (keys : List String)
      (c : Cache S.vfs.State)
    → response_superseded X.platform X.res (unique_keys X.hash_key [] keys) c.markers ≡ false
    → (store_context S X w now ended stopped keys c).0 ≡ true
    → All
        (IsFiled S X (store_context S X w now ended stopped keys c).1.backed.fs)
        (targets X now keys)
unfolding store_context
store_context-IsFiled S L X w now ended stopped [] c current stored = unfold unique_keys in tt
store_context-IsFiled S L X w now ended stopped (key ∷ keys) c current stored =
    let unique = unique_keys X.hash_key [] (key ∷ keys) in
    let entries = prepared_entries X now unique in
    let apart : are_apart (hashes entries) ≡ true =
      subst (λ hs. are_apart hs ≡ true) (sym (hashes-prepared_entries X now unique))
        (unique_keys_apart X.hash_key [] (key ∷ keys)) in
    let given : (length (key ∷ keys) == 0) ≡ false = ground arith in
    elim (Bool-cases ended) [
      | inl over ↦ let absurd : false ≡ true = rw (over, store_context) at stored in ground arith
      | inr going ↦
          let done : (store_entries S X w now stopped entries c).0 ≡ true =
            rw (going, given, current, store_context) at stored in
          rw (going, given, current)
            (subst (All _) (prepared_entries_names X now unique) (
              store_entries_stored S L X w now stopped entries c
                (prepared_entries-Fresh X now unique) apart done))
    ]
