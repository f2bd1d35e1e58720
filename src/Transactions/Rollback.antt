-- ===== src/Transactions/Rollback.antt =====
-- cache.go: discardPreparedStore, and the files of the stored keys when StoreContext fails.
use httpcache_kit.Common.{
  ℕ, ◌<◌, ◌≡◌, ◌⊎◌, inl, inr, refl, Bool, true, false, none, some, List, [], ◌∷◌, String, All,
  arith, Bool-cases, Option-cases, nat_eq, lookup-insert, leb, string_eq, if◌then◌else◌, map,
}
use httpcache_kit.Vfs.{body, header}
use httpcache_kit.Ledger.Defs.{find}
use httpcache_kit.Ledger.Admission.{Backed, remove_files, remove_entry, discard_unadmitted}
use httpcache_kit.Ledger.Entries.{find_hashed_key}
use httpcache_kit.Stale.Defs.{Markers, Outcome, stale_at}
use httpcache_kit.Stale.Marks.{stale-persist_stale}
use httpcache_kit.Cache.Defs.{Cache}
use httpcache_kit.Transactions.Storage.{Storage, StorageLaws}
use httpcache_kit.Transactions.Defs.{Target, target_of, Prepared, Setting}
use httpcache_kit.Transactions.Store.{mark_residual, discard_all}

-- The key has a marker that judges every entry stored up to `now`.
unfoldable pub is_marked : String → ℕ → Markers → Bool
is_marked key now m = elim (stale_at key m) [ none ↦ false | some at ↦ leb now at ]

module _ (S : Storage) where
  -- Neither file is there.
  abbrev pub IsGone : ℕ → S.vfs.State → Type 0
  IsGone h s = (S.content (body h) s ≡ none) × (S.content (header h) s ≡ none)

  -- Neither file of the key is there, or the key is marked.
  abbrev pub IsCleared : ℕ → Target → Cache S.vfs.State → Type 0
  IsCleared now n c = IsGone n.hashed_key c.backed.fs ⊎ (is_marked n.key now c.markers ≡ true)

module _ (S : Storage) (L : StorageLaws S) where
  remove_files-IsGone :
      (h : ℕ) (s : S.vfs.State)
      → (remove_files S.vfs h s).0 ≡ true
      → IsGone S h (remove_files S.vfs h s).1
  unfolding remove_files
  remove_files-IsGone h s gone =
      let s' = (S.vfs.remove (body h) s).1 in
      (
        L.stays_gone (header h) (body h) s' (L.removed (body h) s (ground arith)),
        L.removed (header h) s' (ground arith),
      )

  remove_files_stays-IsGone :
      (h k : ℕ) (s : S.vfs.State) → IsGone S k s → IsGone S k (remove_files S.vfs h s).1
  unfolding remove_files
  remove_files_stays-IsGone h k s gone =
      let s' = (S.vfs.remove (body h) s).1 in
      (
        L.stays_gone (header h) (body k) s' (L.stays_gone (body h) (body k) s gone.0),
        L.stays_gone (header h) (header k) s' (L.stays_gone (body h) (header k) s gone.1),
      )

  -- What discardUnadmitted does to the files is the removal of both.
  discard_unadmitted_files :
      (key : String) (h size stored_at now : ℕ) (c : Backed S.vfs.State)
      → ((discard_unadmitted S.vfs key h size stored_at now c).0 ≡ (remove_files S.vfs h c.fs).0)
        × ((discard_unadmitted S.vfs key h size stored_at now c).1.fs
            ≡ (remove_files S.vfs h c.fs).1)
  unfolding discard_unadmitted
  discard_unadmitted_files key h size stored_at now c = elim (Option-cases (find h c.lru)) [
    | inl absent ↦ rw (absent, discard_unadmitted) (refl, refl)
    | inr (e, found) ↦
        let same : e.hashed_key ≡ h = find_hashed_key h c.lru e found in
        let removed : (remove_entry S.vfs e c).0 ≡ (remove_files S.vfs h c.fs).0 =
          unfold remove_entry in ground arith in
        let left : (remove_entry S.vfs e c).1.fs ≡ (remove_files S.vfs h c.fs).1 =
          unfold remove_entry in ground arith in
        rw (found, discard_unadmitted) (removed, ground arith)
  ]

  mark_residual_stays :
      (X : Setting) (w : Outcome) (now : ℕ) (key k : String) (m : Markers)
      → is_marked k now m ≡ true
      → is_marked k now (mark_residual X w now key m) ≡ true
  unfolding mark_residual is_marked stale_at
  mark_residual_stays X w now key k m marked =
      let step = lookup-insert key k now m.stale in
      rw (stale-persist_stale X.limits.on_disk w) (ground arith)

  mark_residual_marks :
      (X : Setting) (w : Outcome) (now : ℕ) (key : String) (m : Markers)
      → 0 < now
      → is_marked key now (mark_residual X w now key m) ≡ true
  unfolding mark_residual is_marked stale_at
  mark_residual_marks X w now key m positive =
      let step = lookup-insert key key now m.stale in
      rw (stale-persist_stale X.limits.on_disk w) (ground (arith, string_eq.same_iff key key))

  -- One round of discard_all's loop.
  discard_all_clears :
      (X : Setting) (w : Outcome) (now : ℕ) (p : Prepared) (c d : Cache S.vfs.State)
      → 0 < now
      → d.backed.fs
        ≡ (discard_unadmitted S.vfs p.key p.hashed_key p.size p.stored_at now c.backed).1.fs
      → d.markers ≡ (
          if (discard_unadmitted S.vfs p.key p.hashed_key p.size p.stored_at now c.backed).0
          then c.markers
          else mark_residual X w now p.key c.markers)
      → IsCleared S now (target_of p) d
  discard_all_clears X w now p c d positive files marks =
      let both = discard_unadmitted_files p.key p.hashed_key p.size p.stored_at now c.backed in
      elim (Bool-cases (remove_files S.vfs p.hashed_key c.backed.fs).0) [
        | inl gone ↦ inl (rw (files, both.1) (remove_files-IsGone p.hashed_key c.backed.fs gone))
        | inr left ↦
            inr (rw (marks, both.0, left) (mark_residual_marks X w now p.key c.markers positive))
      ]

  discard_all_stays :
      (X : Setting) (w : Outcome) (now : ℕ) (ps : List Prepared) (n : Target)
      (c : Cache S.vfs.State)
      → IsCleared S now n c
      → IsCleared S now n (discard_all S X w now ps c)
  unfolding discard_all
  discard_all_stays X w now [] n c cleared = cleared
  discard_all_stays X w now (p ∷ ps) n c cleared =
      let one = discard_unadmitted S.vfs p.key p.hashed_key p.size p.stored_at now c.backed in
      let both = discard_unadmitted_files p.key p.hashed_key p.size p.stored_at now c.backed in
      let c' : Cache S.vfs.State = record c {
        backed = one.1;
        markers = if one.0 then c.markers else mark_residual X w now p.key c.markers;
      } in
      discard_all_stays X w now ps n c' (elim cleared [
        | inl gone ↦
            inl (rw both.1 (remove_files_stays-IsGone p.hashed_key n.hashed_key c.backed.fs gone))
        | inr marked ↦
            let stays = mark_residual_stays X w now p.key n.key c.markers marked in
            inr (elim (Bool-cases one.0) [ inl gone ↦ rw gone marked | inr left ↦ rw left stays ])
      ])

  pub discard_all-IsCleared :
      (X : Setting) (w : Outcome) (now : ℕ) (ps : List Prepared) (c : Cache S.vfs.State)
      → 0 < now
      → All (λ n. IsCleared S now n (discard_all S X w now ps c)) (map target_of ps)
  unfolding discard_all
  discard_all-IsCleared X w now [] c positive = tt
  discard_all-IsCleared X w now (p ∷ ps) c positive =
      let one = discard_unadmitted S.vfs p.key p.hashed_key p.size p.stored_at now c.backed in
      let c' : Cache S.vfs.State = record c {
        backed = one.1;
        markers = if one.0 then c.markers else mark_residual X w now p.key c.markers;
      } in
      (
        discard_all_stays X w now ps (target_of p) c'
            (discard_all_clears X w now p c c' positive refl refl),
        discard_all-IsCleared X w now ps c' positive,
      )
