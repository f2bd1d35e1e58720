-- ===== src/Transactions/Commit.antt =====
-- cache.go: what StoreContext leaves when it commits.
use mathlib.Core.Path.{subst}
use httpcache_kit.Common.{
  ℕ, ◌≡◌, inl, inr, refl, sym, ◌∙◌, Bool, true, false, ◌&&◌, not, some, List, [], ◌∷◌, All,
  All-weaken, arith, Bool-cases, nat_eq, contains, map,
}
use httpcache_kit.Vfs.{FilePath, body, header}
use httpcache_kit.Ledger.Defs.{is_active}
use httpcache_kit.Ledger.Admission.{Backed}
use httpcache_kit.Transactions.Storage.{Storage, StorageLaws}
use httpcache_kit.Transactions.Defs.{Target, target_of, Prepared, Setting, body_text}
use httpcache_kit.Transactions.Store.{
  commit_staged, commit_entry, commit_all, prepare_resource, prepare_all,
}
use httpcache_kit.Transactions.Frames.{Same, owner}
use httpcache_kit.Transactions.Preparation.{
  hashes, Fresh, prepare_resource-Careful, prepare_resource_name,
}
use httpcache_kit.Transactions.Contents.{
  Held-Same, IsReady, header_text, prepare_resource-IsReady, commit_staged-Held,
}
use httpcache_kit.Transactions.Separation.{
  prepare_all_others, commit-Held_others, commit_entry_others, commit_all_others,
}

-- No two entries have the same hash.
unfoldable pub are_apart : List ℕ → Bool
are_apart [] = true
are_apart (h ∷ hs) = not (contains h hs) && are_apart hs

-- Both files of a key hold the response.
abbrev pub IsFiled : (S : Storage) → Setting → S.vfs.State → Target → Type 0
IsFiled S X s n =
    (S.content (body n.hashed_key) s ≡ some (body_text X))
    × (S.content (header n.hashed_key) s ≡ some (header_text X n))

module _ (S : Storage) (L : StorageLaws S) (X : Setting) where
  IsReady-Same :
      (t : Target) (p : Prepared) (s s' : S.vfs.State)
      → ((q : FilePath) → owner q ≡ t.hashed_key → Same S q s s')
      → IsReady S L X t p s
      → IsReady S L X t p s'
  unfolding owner
  IsReady-Same t p s s' same r = record {
    body_held = Held-Same S (same (body t.hashed_key) refl) r.body_held;
    header_held = Held-Same S (same (header t.hashed_key) refl) r.header_held;
    counted = r.counted;
  }

  pub prepare_all-IsReady :
      (ps : List Prepared) (c : Backed S.vfs.State)
      → Fresh ps
      → are_apart (hashes ps) ≡ true
      → All (λ p. is_active p.hashed_key c.ledger ≡ true) ps
      → (prepare_all S X ps c).0.0 ≡ true
      → All
          (λ p. IsReady S L X (target_of p) p (prepare_all S X ps c).1.fs)
          (prepare_all S X ps c).0.1
  unfolding prepare_all are_apart
  prepare_all-IsReady [] c f apart active done = tt
  prepare_all-IsReady (p ∷ ps) c f apart active done =
      let r = prepare_resource S X p c in
      let name = prepare_resource_name S L X p c in
      let careful = (prepare_resource-Careful S L X p c f.0.0 f.0.1).active in
      elim (Bool-cases r.0.0) [
        | inr failed ↦ let absurd : false ≡ true = rw (failed, prepare_all) at done in ground arith
        | inl ready ↦
            let rest : (prepare_all S X ps r.1).0.0 ≡ true = rw (ready, prepare_all) at done in
            rw ready (
              subst (λ t. IsReady S L X t r.0.1 (prepare_all S X ps r.1).1.fs) (sym name)
                  (IsReady-Same (target_of p) r.0.1 r.1.fs (prepare_all S X ps r.1).1.fs
                    (λ q own.
                      prepare_all_others S L X q ps r.1 f.1
                        (subst (λ h. contains h (hashes ps) ≡ false) (sym own) (ground arith))
                        (careful (owner q)
                          (subst (λ h. is_active h c.ledger ≡ true) (sym own) active.0)))
                    (prepare_resource-IsReady S L X p c active.0 ready)),
              prepare_all-IsReady ps r.1 f.1 (ground arith)
                  (All-weaken _ (λ p. is_active p.hashed_key r.1.ledger ≡ true) ps
                    (λ p there. careful p.hashed_key there) active.1)
                  rest,
            )
      ]

  commit_entry-IsReady :
      (p : Prepared) (ps : List Prepared) (start s : S.vfs.State)
      → contains p.hashed_key (hashes ps) ≡ false
      → IsReady S L X (target_of p) p start
      → All (λ r. IsReady S L X (target_of r) r s) ps
      → All (λ r. IsReady S L X (target_of r) r (commit_entry S p s).1) ps
  unfolding contains
  commit_entry-IsReady p [] start s apart r ready = tt
  commit_entry-IsReady p (x ∷ xs) start s apart r ready = (
    IsReady-Same (target_of x) x s (commit_entry S p s).1
        (λ q own. commit_entry_others S L X q p start s (ground arith) r) ready.0,
    commit_entry-IsReady p xs start s (ground arith) r ready.1,
  )

  commit_entry_stored :
      (p : Prepared) (s : S.vfs.State)
      → IsReady S L X (target_of p) p s
      → (commit_entry S p s).0.0 ≡ true
      → (S.content (body p.hashed_key) (commit_entry S p s).1 ≡ some (body_text X))
        × (S.content (header p.hashed_key) (commit_entry S p s).1
            ≡ some (header_text X (target_of p)))
  unfolding commit_entry
  commit_entry_stored p s ready done =
      let name = target_of p in
      let b = commit_staged S p.body_file s in
      let h = commit_staged S p.header_file b.1 in
      let path = body p.hashed_key in
      let top = header p.hashed_key in
      elim (Bool-cases b.0.0) [
        | inr failed ↦ let absurd : false ≡ true = rw (failed, commit_entry) at done in ground arith
        | inl first ↦
            let second : h.0.0 ≡ true = rw (first, commit_entry) at done in
            let kept =
              commit-Held_others S L X path top (header_text X name) p.header_file s b.1
                (ground arith) ready.header_held in
            let still =
              commit-Held_others S L X top path (body_text X) p.body_file s s (ground arith)
                ready.body_held in
            rw first (
              kept ∙ commit_staged-Held S L path (body_text X) p.body_file s ready.body_held first,
              commit_staged-Held S L top (header_text X name) p.header_file b.1
                  (Held-Same S still ready.header_held) second,
            )
      ]

  pub commit_all_stored :
      (ps : List Prepared) (s : S.vfs.State)
      → are_apart (hashes ps) ≡ true
      → All (λ p. IsReady S L X (target_of p) p s) ps
      → (commit_all S ps s).0.0 ≡ true
      → All (IsFiled S X (commit_all S ps s).1) (map target_of ps)
  unfolding commit_all are_apart owner
  commit_all_stored [] s apart ready done = tt
  commit_all_stored (p ∷ ps) s apart ready done =
      let e = commit_entry S p s in
      let after = commit_entry-IsReady p ps s s (ground arith) ready.0 ready.1 in
      elim (Bool-cases e.0.0) [
        | inr failed ↦ let absurd : false ≡ true = rw (failed, commit_all) at done in ground arith
        | inl first ↦
            let rest : (commit_all S ps e.1).0.0 ≡ true = rw (first, commit_all) at done in
            let filed = commit_entry_stored p s ready.0 first in
            let later = λ (q : FilePath) (own : owner q ≡ p.hashed_key).
              commit_all_others S L X q ps e.1 e.1
                (subst (λ h. contains h (hashes ps) ≡ false) (sym own) (ground arith)) after in
            let step : (commit_all S (p ∷ ps) s).1 ≡ (commit_all S ps e.1).1 = rw first refl in
            subst (λ s. All (IsFiled S X s) (map target_of (p ∷ ps))) (sym step)
              (
                (
                  later (body p.hashed_key) refl ∙ filed.0,
                  later (header p.hashed_key) refl ∙ filed.1,
                ),
                commit_all_stored ps e.1 (ground arith) after rest,
              )
      ]
