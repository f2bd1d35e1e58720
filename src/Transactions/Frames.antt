-- ===== src/Transactions/Frames.antt =====
-- cache.go: what admissions and staged writes leave of the files of keys under way.
use httpcache_kit.Common.{
  ℕ, ◌+◌, ◌≡◌, ◌≢◌, refl, ap, sym, ◌∙◌, true, false, List, [], ◌∷◌, reverse, arith, nat_eq,
  lookup-insert, ◌-◌, ltb, ◌==◌, is_some, ℤ, pos, negsuc, Bool-cases, inl, inr,
}
use httpcache_kit.Vfs.{FilePath, body, header}
use httpcache_kit.Ledger.Defs.{Entry, Ledger, is_active, drop_entry, existing_size, reserve_growth}
use httpcache_kit.Ledger.Admission.{
  Backed, remove_files, remove_entry, evict_one, evict_step, evict_loop, evict_for_admission,
  reserve_entry, other_reserved, is_over,
}
use httpcache_kit.Transactions.Storage.{Storage, StorageLaws}

-- The hashed key that a file belongs to.
unfoldable pub owner : FilePath → ℕ
owner (body h) = h
owner (header h) = h

reserve_growth_active :
    (k h item : ℕ) (l : Ledger)
    → is_active k l ≡ true
    → is_active k (reserve_growth h item l) ≡ true
unfolding is_active reserve_growth
reserve_growth_active k h item l p =
    rw (lookup-insert h k (item - existing_size h l) l.reservations)
      (elim (Bool-cases (h == k)) [ inl own ↦ rw own refl | inr other ↦ rw other p ])

module _ (S : Storage) where
  -- The file is as it was.
  abbrev pub Same : FilePath → S.vfs.State → S.vfs.State → Type 0
  Same q s t = S.content q t ≡ S.content q s

  -- Reservations are not lost, and the files of keys that have one are as they were.
  pub record Kept (c d : Backed S.vfs.State) : Type 0 where
    pub active : (h : ℕ) → is_active h c.ledger ≡ true → is_active h d.ledger ≡ true
    pub same : (q : FilePath) → is_active (owner q) c.ledger ≡ true → Same q c.fs d.fs

  pub Kept-refl : (c : Backed S.vfs.State) → Kept c c
  Kept-refl c = record { active = λ h p. p; same = λ q p. refl }

  pub Kept-trans : {c d e : Backed S.vfs.State} → Kept c d → Kept d e → Kept c e
  Kept-trans k l = record {
    active = λ h p. l.active h (k.active h p);
    same = λ q p. l.same q (k.active (owner q) p) ∙ k.same q p;
  }

  module _ (L : StorageLaws S) where
    pub remove_files-Same :
        (h : ℕ) (q : FilePath) (s : S.vfs.State) → owner q ≢ h → Same q s (remove_files S.vfs h s).1
    unfolding remove_files owner
    remove_files-Same h q s p =
        let away : body h ≢ q = λ e. p (ap owner (sym e)) in
        let off : header h ≢ q = λ e. p (ap owner (sym e)) in
        L.remove_keeps (header h) q (S.vfs.remove (body h) s).1 off
        ∙ L.remove_keeps (body h) q s away

    remove_entry-Kept :
        (e : Entry) (c : Backed S.vfs.State)
        → is_active e.hashed_key c.ledger ≡ false
        → Kept c (remove_entry S.vfs e c).1
    unfolding remove_entry drop_entry
    remove_entry-Kept e c idle = elim (Bool-cases (remove_files S.vfs e.hashed_key c.fs).0) [
      | inl gone ↦ rw gone (record {
        active = λ h p. unfold is_active in p;
        same = λ q p. remove_files-Same e.hashed_key q c.fs (other_owner q p);
      })
      | inr left ↦ rw left (record {
        active = λ h p. p;
        same = λ q p. remove_files-Same e.hashed_key q c.fs (other_owner q p);
      })
    ]
      where
        other_owner : (q : FilePath) → is_active (owner q) c.ledger ≡ true → owner q ≢ e.hashed_key
        other_owner q p same = ground (arith, ap (λ h. is_active h c.ledger) same)

    evict_step-Kept :
        (budget charge h : ℕ) (e : Entry) (c : Backed S.vfs.State)
        → Kept c (evict_step S.vfs budget charge h e c)
    unfolding evict_step evict_one
    evict_step-Kept budget charge h e c = elim (Bool-cases (is_over S.vfs budget charge c)) [
      | inr fits ↦ rw fits (Kept-refl c)
      | inl over ↦ elim (Bool-cases (e.hashed_key == h)) [
        | inl own ↦ rw (over, own) (Kept-refl c)
        | inr other ↦ elim (Bool-cases (is_active e.hashed_key c.ledger)) [
          | inl busy ↦ rw (over, other, busy) (Kept-refl c)
          | inr idle ↦ rw (over, other, idle) (remove_entry-Kept e c idle)
        ]
      ]
    ]

    evict_loop-Kept :
        (budget charge h : ℕ) (es : List Entry) (c : Backed S.vfs.State)
        → Kept c (evict_loop S.vfs budget charge h es c)
    unfolding evict_loop
    evict_loop-Kept budget charge h [] c = Kept-refl c
    evict_loop-Kept budget charge h (e ∷ es) c =
        Kept-trans (evict_step-Kept budget charge h e c)
          (evict_loop-Kept budget charge h es (evict_step S.vfs budget charge h e c))

    evict_for_admission-Kept :
        (limit h : ℕ) (item : ℤ) (c : Backed S.vfs.State)
        → Kept c (evict_for_admission S.vfs limit h item c).1
    unfolding evict_for_admission
    evict_for_admission-Kept limit h (negsuc n) c = Kept-refl c
    evict_for_admission-Kept limit h (pos item) c = elim (Bool-cases (limit == 0)) [
      | inl free ↦ rw free (Kept-refl c)
      | inr bounded ↦ elim (Bool-cases (ltb limit item)) [
        | inl large ↦ rw (bounded, large) (Kept-refl c)
        | inr small ↦
            rw (bounded, small)
              (evict_loop-Kept (limit + existing_size h c.ledger) (other_reserved h c.ledger + item)
                h (reverse c.lru) c)
      ]
    ]

    pub reserve_entry-Kept :
        (limit h : ℕ) (item : ℤ) (c : Backed S.vfs.State)
        → Kept c (reserve_entry S.vfs limit h item c).1
    unfolding reserve_entry
    reserve_entry-Kept limit h (negsuc n) c = evict_for_admission-Kept limit h (negsuc n) c
    reserve_entry-Kept limit h (pos item) c =
        let admitted = evict_for_admission S.vfs limit h (pos item) c in
        let kept = evict_for_admission-Kept limit h (pos item) c in
        elim (Bool-cases (is_some admitted.0)) [
          | inl refused ↦ rw refused kept
          | inr granted ↦ rw granted (record {
            active = λ k p. reserve_growth_active k h item admitted.1.ledger (kept.active k p);
            same = kept.same;
          })
        ]
