-- ===== src/Transactions/Staging.antt =====
-- cache.go: stageWrite, abandonStaged and commitStagedLocked, and the files that they leave alone.
use httpcache_kit.Common.{
  ◌≡◌, ◌≢◌, refl, ◌∙◌, true, false, Option, none, some, Text, arith, Bool-cases, inl, inr,
}
use httpcache_kit.Vfs.{FilePath}
use httpcache_kit.Transactions.Storage.{Storage, StorageLaws}
use httpcache_kit.Transactions.Defs.{Staged, is_published}
use httpcache_kit.Transactions.Store.{stage_write, abandon_staged, commit_staged}
use httpcache_kit.Transactions.Frames.{Same}

module _ (S : Storage) (L : StorageLaws S) where
  pub abandon_staged-Same :
      (f : Option Staged) (q : FilePath) (s : S.vfs.State) → Same S q s (abandon_staged S f s).1
  unfolding abandon_staged
  abandon_staged-Same none q s = refl
  abandon_staged-Same (some e) q s = elim (Bool-cases e.temporary) [
    | inl temporary ↦ rw (temporary, abandon_staged) (L.remove_temp_keeps q s)
    | inr gone ↦ rw (gone, abandon_staged) refl
  ]

  stage_write_disk :
      (path q : FilePath) (text : Text) (s : S.vfs.State)
      → S.on_disk ≡ true
      → Same S q s (stage_write S path text s).fs
  unfolding stage_write abandon_staged
  stage_write_disk path q text s disk =
      let staged = S.stage text s in
      rw (disk, stage_write)
        (elim (Bool-cases staged.0.opened) [
          | inr shut ↦ rw shut (L.stage_keeps q text s)
          | inl opened ↦ elim (Bool-cases staged.0.done) [
            | inl whole ↦ rw (opened, whole) (L.stage_keeps q text s)
            | inr torn ↦ rw (opened, torn) (L.remove_temp_keeps q staged.1 ∙ L.stage_keeps q text s)
          ]
        ])

  -- Only the file itself may change, and only if it is published.
  pub stage_write-Same :
      (path q : FilePath) (text : Text) (s : S.vfs.State)
      → path ≢ q
      → Same S q s (stage_write S path text s).fs
  unfolding stage_write
  stage_write-Same path q text s away = elim (Bool-cases S.on_disk) [
    | inr direct ↦ rw (direct, stage_write) (L.write_keeps path q text s away)
    | inl disk ↦ stage_write_disk path q text s disk
  ]

  pub stage_write_quiet :
      (path : FilePath) (text : Text) (s : S.vfs.State)
      → is_published (stage_write S path text s).file ≡ false
      → (q : FilePath) → Same S q s (stage_write S path text s).fs
  unfolding stage_write is_published
  stage_write_quiet path text s quiet q = elim (Bool-cases S.on_disk) [
    | inr direct ↦
        let shut : (S.write path text s).0.opened ≡ false = rw (direct, stage_write) at quiet in
        rw (direct, stage_write) (L.unopened path q text s shut).0
    | inl disk ↦ stage_write_disk path q text s disk
  ]

  pub commit_staged-Same :
      (f : Option Staged) (q : FilePath) (s : S.vfs.State)
      → ((e : Staged) → f ≡ some e → e.target ≢ q)
      → Same S q s (commit_staged S f s).1
  unfolding commit_staged
  commit_staged-Same none q s away = refl
  commit_staged-Same (some e) q s away = elim (Bool-cases e.temporary) [
    | inr there ↦ rw (there, commit_staged) refl
    | inl staged ↦
        rw (staged, commit_staged)
          (elim (Bool-cases (S.rename e.target e.text s).0) [
            | inl moved ↦ rw moved (L.rename_keeps e.target q e.text s (away e refl))
            | inr failed ↦ rw failed (L.unrenamed e.target q e.text s failed)
          ])
  ]

  pub commit_staged_quiet :
      (f : Option Staged) (q : FilePath) (s : S.vfs.State)
      → is_published (commit_staged S f s).0.1 ≡ false
      → Same S q s (commit_staged S f s).1
  unfolding commit_staged is_published
  commit_staged_quiet none q s quiet = refl
  commit_staged_quiet (some e) q s quiet = elim (Bool-cases e.temporary) [
    | inr there ↦ rw (there, commit_staged) refl
    | inl staged ↦
        rw (staged, commit_staged)
          (elim (Bool-cases (S.rename e.target e.text s).0) [
            | inl moved ↦
                let published : true ≡ false = rw (staged, moved, commit_staged) at quiet in
                ground arith
            | inr failed ↦ rw failed (L.unrenamed e.target q e.text s failed)
          ])
  ]
