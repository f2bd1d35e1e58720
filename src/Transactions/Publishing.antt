-- ===== src/Transactions/Publishing.antt =====
-- cache.go: commitStagedLocked and abandonStaged over all files of a transaction.
use httpcache_kit.Common.{
  ◌≡◌, inl, inr, refl, ap, ◌∙◌, true, false, ◌||◌, Option, none, some, List, [], ◌∷◌, arith,
  Bool-cases, nat_eq, string_eq, map,
}
use httpcache_kit.Vfs.{FilePath}
use httpcache_kit.Transactions.Storage.{Storage, StorageLaws}
use httpcache_kit.Transactions.Defs.{target_of, Staged, Prepared, is_published, any_published}
use httpcache_kit.Transactions.Store.{
  abandon_staged, abandon_all, commit_staged, commit_entry, commit_all,
}
use httpcache_kit.Transactions.Frames.{Same}
use httpcache_kit.Transactions.Staging.{abandon_staged-Same, commit_staged_quiet}

module _ (S : Storage) (L : StorageLaws S) where
  pub abandon_all-Same :
      (ps : List Prepared) (q : FilePath) (s : S.vfs.State) → Same S q s (abandon_all S ps s).1
  unfolding abandon_all
  abandon_all-Same [] q s = refl
  abandon_all-Same (p ∷ ps) q s =
      let b = abandon_staged S p.body_file s in
      let h = abandon_staged S p.header_file b.1 in
      abandon_all-Same ps q h.1
      ∙ abandon_staged-Same S L p.header_file q b.1
      ∙ abandon_staged-Same S L p.body_file q s

  pub abandon_all_names :
      (ps : List Prepared) (s : S.vfs.State)
      → map target_of (abandon_all S ps s).0 ≡ map target_of ps
  unfolding abandon_all
  abandon_all_names [] s = refl
  abandon_all_names (p ∷ ps) s =
      let b = abandon_staged S p.body_file s in
      let h = abandon_staged S p.header_file b.1 in
      ap (λ ns. target_of p ∷ ns) (abandon_all_names ps h.1)

  -- A commit that published nothing, where nothing was published before, changed no file.
  commit_staged_published :
      (f : Option Staged) (s : S.vfs.State)
      → is_published f ≡ true
      → is_published (commit_staged S f s).0.1 ≡ true
  unfolding commit_staged is_published
  commit_staged_published none s p = p
  commit_staged_published (some e) s p = ground arith

  commit_entry_quiet :
      (p : Prepared) (q : FilePath) (s : S.vfs.State)
      → any_published ((commit_entry S p s).0.1 ∷ []) ≡ false
      → (any_published (p ∷ []) ≡ false) × Same S q s (commit_entry S p s).1
  unfolding commit_entry any_published
  commit_entry_quiet p q s quiet =
      let b = commit_staged S p.body_file s in
      let h = commit_staged S p.header_file b.1 in
      elim (Bool-cases b.0.0) [
        | inr failed ↦
            let calm : is_published b.0.1 || is_published p.header_file || false ≡ false =
              rw (failed, commit_entry) at quiet in
            rw failed (
              ground (arith, commit_staged_published p.body_file s),
              commit_staged_quiet S L p.body_file q s (ground arith),
            )
        | inl done ↦
            let calm : is_published b.0.1 || is_published h.0.1 || false ≡ false =
              rw (done, commit_entry) at quiet in
            rw done (
              ground (
                arith,
                commit_staged_published p.body_file s,
                commit_staged_published p.header_file b.1,
              ),
              commit_staged_quiet S L p.header_file q b.1 (ground arith)
                  ∙ commit_staged_quiet S L p.body_file q s (ground arith),
            )
      ]

  pub commit_all_quiet :
      (ps : List Prepared) (q : FilePath) (s : S.vfs.State)
      → any_published (commit_all S ps s).0.1 ≡ false
      → (any_published ps ≡ false) × Same S q s (commit_all S ps s).1
  unfolding commit_all any_published
  commit_all_quiet [] q s quiet = (refl, refl)
  commit_all_quiet (p ∷ ps) q s quiet =
      let one = commit_entry S p s in
      elim (Bool-cases one.0.0) [
        | inr failed ↦
            let calm : is_published one.0.1.body_file
                  || is_published one.0.1.header_file
                  || any_published ps
                ≡ false =
              rw (failed, commit_all) at quiet in
            let before = commit_entry_quiet p q s (ground arith) in
            rw failed (ground arith, before.1)
        | inl done ↦
            let rest = commit_all S ps one.1 in
            let calm : is_published one.0.1.body_file
                  || is_published one.0.1.header_file
                  || any_published rest.0.1
                ≡ false =
              rw (done, commit_all) at quiet in
            let before = commit_entry_quiet p q s (ground arith) in
            let after = commit_all_quiet ps q one.1 (ground arith) in
            rw done (ground arith, after.1 ∙ before.1)
      ]

  pub commit_all_names :
      (ps : List Prepared) (s : S.vfs.State)
      → map target_of (commit_all S ps s).0.1 ≡ map target_of ps
  unfolding commit_all commit_entry
  commit_all_names [] s = refl
  commit_all_names (p ∷ ps) s = ground (arith, commit_all_names ps (commit_entry S p s).1)
