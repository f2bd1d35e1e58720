-- ===== src/Transactions/Preparation.antt =====
-- cache.go: prepareResourceForKey and prepareStoreEntries, and what they leave of the files of the
-- keys that are stored.
use httpcache_kit.Common.{
  ℕ, ◌+◌, ◌≡◌, ◌⊎◌, All, contains, nat_eq, lookup-insert, ◌==◌, refl, ap, ◌∙◌, Bool, true, false,
  ◌&&◌, Option, none, some, List, [], ◌∷◌, Text, arith, Bool-cases, inl, inr, length, is_some, wrap,
  pos, map,
}
use httpcache_kit.Vfs.{FilePath, body, header}
use httpcache_kit.Ledger.Defs.{is_active, begin_reservation}
use httpcache_kit.Ledger.Admission.{Backed, reserve_entry}
use httpcache_kit.Transactions.Storage.{Storage, StorageLaws}
use httpcache_kit.Transactions.Defs.{
  Prepared, Setting, target_of, is_published, any_published, serialized, body_text, body_digest,
  size_fits, expected_body_size,
}
use httpcache_kit.Transactions.Store.{
  provisional_text, stage_write, prepare_header, prepare_body, admit_known, prepare_resource,
  prepare_all, begin_all,
}
use httpcache_kit.Transactions.Frames.{Same, Kept, Kept-refl, owner, reserve_entry-Kept}
use httpcache_kit.Transactions.Staging.{stage_write_quiet}

abbrev pub hashes : List Prepared → List ℕ
hashes ps = map (λ p. p.hashed_key) ps

-- Entries that nothing was staged for.
abbrev pub Fresh : List Prepared → Type 0
Fresh = All (λ p. (p.body_file ≡ none) × (p.header_file ≡ none))

Fresh-quiet : (ps : List Prepared) → Fresh ps → any_published ps ≡ false
unfolding any_published is_published
Fresh-quiet [] f = refl
Fresh-quiet (p ∷ ps) f = rw (f.0.0, f.0.1) (Fresh-quiet ps f.1)

module _ (S : Storage) where
  -- Unless it published something, a step lost no reservation and left the files of keys that have
  -- one.
  pub record Careful (published : Bool) (c d : Backed S.vfs.State) : Type 0 where
    pub active : (h : ℕ) → is_active h c.ledger ≡ true → is_active h d.ledger ≡ true
    pub same :
        published ≡ false
        → (q : FilePath) → is_active (owner q) c.ledger ≡ true
        → Same S q c.fs d.fs

  Careful-Kept : (w : Bool) {c d : Backed S.vfs.State} → Kept S c d → Careful w c d
  Careful-Kept w k = record { active = k.active; same = λ _. k.same }

  -- A step that published no more than what the pair of steps did.
  Careful-trans :
      {v w u : Bool} {c d e : Backed S.vfs.State}
      → (u ≡ false → (v ≡ false) × (w ≡ false))
      → Careful v c d
      → Careful w d e
      → Careful u c e
  Careful-trans both k l = record {
    active = λ h p. l.active h (k.active h p);
    same = λ calm q p. l.same (both calm).1 q (k.active (owner q) p) ∙ k.same (both calm).0 q p;
  }

  module _ (L : StorageLaws S) (X : Setting) where
    stage-Careful :
        (path : FilePath) (text : Text) (c : Backed S.vfs.State)
        → Careful
            (is_published (stage_write S path text c.fs).file)
            c
            (record c { fs = (stage_write S path text c.fs).fs })
    stage-Careful path text c = record {
      active = λ h p. p;
      same = λ calm q p. stage_write_quiet S L path text c.fs calm q;
    }

    prepare_header-Careful :
        (p : Prepared) (n : ℕ) (c : Backed S.vfs.State)
        → Careful
            (is_published (prepare_header S X p n c).0.1.header_file)
            c
            (prepare_header S X p n c).1
    unfolding prepare_header
    prepare_header-Careful p n c =
        let text = serialized X (target_of p) n (body_digest X) in
        let room =
          reserve_entry S.vfs X.limits.max_size p.hashed_key (wrap (pos (n + length text))) c in
        let kept =
          reserve_entry-Kept S L X.limits.max_size p.hashed_key (wrap (pos (n + length text))) c in
        elim (Bool-cases (is_some room.0)) [
          | inl refused ↦ rw refused (Careful-Kept (is_published p.header_file) kept)
          | inr granted ↦ rw granted (
              Careful-trans (λ calm. (refl, calm)) (Careful-Kept false kept)
                (stage-Careful (header p.hashed_key) text room.1))
        ]

    prepare_header_body :
        (p : Prepared) (n : ℕ) (c : Backed S.vfs.State)
        → (prepare_header S X p n c).0.1.body_file ≡ p.body_file
    unfolding prepare_header
    prepare_header_body p n c = ground arith

    prepare_header_name :
        (p : Prepared) (n : ℕ) (c : Backed S.vfs.State)
        → target_of (prepare_header S X p n c).0.1 ≡ target_of p
    unfolding prepare_header
    prepare_header_name p n c = ground arith

    prepare_body-Careful :
        (p : Prepared) (provisional : Text) (c : Backed S.vfs.State)
        → p.header_file ≡ none
        → Careful
            (any_published ((prepare_body S X p provisional c).0.1 ∷ []))
            c
            (prepare_body S X p provisional c).1
    unfolding prepare_body any_published is_published
    prepare_body-Careful p provisional c fresh =
        let st = stage_write S (body p.hashed_key) (body_text X) c.fs in
        let p' : Prepared = record p {
          body_file = st.file;
          size = st.bytes + length provisional;
        } in
        let c' = record c { fs = st.fs } in
        let staged = stage-Careful (body p.hashed_key) (body_text X) c in
        elim (Bool-cases
          (st.done && size_fits (expected_body_size X.platform X.res.header) st.bytes)) [
            | inr failed ↦
                rw (failed, fresh)
                  (Careful-trans (λ calm. (ground arith, refl)) staged
                    (Careful-Kept false (Kept-refl S c')))
            | inl done ↦
                rw (done, prepare_header_body p' st.bytes c')
                  (Careful-trans (λ calm. (ground arith, ground arith)) staged
                    (prepare_header-Careful p' st.bytes c'))
          ]

    prepare_body_name :
        (p : Prepared) (provisional : Text) (c : Backed S.vfs.State)
        → target_of (prepare_body S X p provisional c).0.1 ≡ target_of p
    unfolding prepare_body
    prepare_body_name p provisional c =
        let st = stage_write S (body p.hashed_key) (body_text X) c.fs in
        ground (
          arith,
          prepare_header_name
              (record p { body_file = st.file; size = st.bytes + length provisional }) st.bytes
              (record c { fs = st.fs }),
        )

    -- Room for a length that is known in advance.
    pub admit_known-Kept :
        (h : ℕ) (n : Option ℕ) (provisional : Text) (c : Backed S.vfs.State)
        → Kept S c (admit_known S X h n provisional c).1
    unfolding admit_known
    admit_known-Kept h none provisional c = Kept-refl S c
    admit_known-Kept h (some n) provisional c =
        reserve_entry-Kept S L X.limits.max_size h (wrap (pos (n + length provisional))) c

    -- What prepareResourceForKey makes of an entry that has no files yet.
    pub prepare_resource-Careful :
        (p : Prepared) (c : Backed S.vfs.State)
        → p.body_file ≡ none
        → p.header_file ≡ none
        → Careful
            (any_published ((prepare_resource S X p c).0.1 ∷ []))
            c
            (prepare_resource S X p c).1
    unfolding prepare_resource any_published provisional_text serialized
    prepare_resource-Careful p c b h =
        let known = expected_body_size X.platform X.res.header in
        let provisional = provisional_text X p in
        let admitted = admit_known S X p.hashed_key known provisional c in
        let room = admit_known-Kept p.hashed_key known provisional c in
        elim (Bool-cases (X.rewinds p.key)) [
          | inr fails ↦ rw (fails, b, h) (Careful-Kept _ (Kept-refl S c))
          | inl rewound ↦ elim (Bool-cases (is_some admitted.0)) [
            | inl refused ↦ rw (rewound, refused, b, h) (Careful-Kept _ room)
            | inr granted ↦
                rw (rewound, granted)
                  (Careful-trans (λ calm. (refl, calm)) (Careful-Kept false room)
                    (prepare_body-Careful p provisional admitted.1 h))
          ]
        ]

    pub prepare_resource_name :
        (p : Prepared) (c : Backed S.vfs.State)
        → target_of (prepare_resource S X p c).0.1 ≡ target_of p
    unfolding prepare_resource
    prepare_resource_name p c =
        let known = expected_body_size X.platform X.res.header in
        let provisional = provisional_text X p in
        let admitted = admit_known S X p.hashed_key known provisional c in
        ground (arith, prepare_body_name p provisional admitted.1)

    pub prepare_all-Careful :
        (ps : List Prepared) (c : Backed S.vfs.State)
        → Fresh ps
        → Careful (any_published (prepare_all S X ps c).0.1) c (prepare_all S X ps c).1
    unfolding prepare_all any_published
    prepare_all-Careful [] c f = Careful-Kept false (Kept-refl S c)
    prepare_all-Careful (p ∷ ps) c f =
        let r = prepare_resource S X p c in
        let one = prepare_resource-Careful p c f.0.0 f.0.1 in
        let rest = prepare_all-Careful ps r.1 f.1 in
        elim (Bool-cases r.0.0) [
          | inr failed ↦ rw (failed, Fresh-quiet ps f.1) one
          | inl done ↦ rw done (Careful-trans (λ calm. (ground arith, ground arith)) one rest)
        ]

    pub prepare_all_names :
        (ps : List Prepared) (c : Backed S.vfs.State)
        → map target_of (prepare_all S X ps c).0.1 ≡ map target_of ps
    unfolding prepare_all
    prepare_all_names [] c = refl
    prepare_all_names (p ∷ ps) c =
        let r = prepare_resource S X p c in
        let one = prepare_resource_name p c in
        let rest = prepare_all_names ps r.1 in
        elim (Bool-cases r.0.0) [
          | inr failed ↦ rw failed (ap (λ n. n ∷ map target_of ps) one)
          | inl done ↦ rw done (cc)
        ]

  -- Every key has a reservation before anything is admitted.
  pub begin_all_active :
      (h : ℕ) (ps : List Prepared) (c : Backed S.vfs.State)
      → (is_active h c.ledger ≡ true) ⊎ (contains h (hashes ps) ≡ true)
      → is_active h (begin_all S ps c).ledger ≡ true
  unfolding begin_all begin_reservation contains
  begin_all_active h [] c (inl p) = p
  begin_all_active h [] c (inr p) = ground arith
  begin_all_active h (p ∷ ps) c held =
      let c' : Backed S.vfs.State = record c { ledger = begin_reservation p.hashed_key c.ledger } in
      let begun = lookup-insert p.hashed_key h 0 c.reservations in
      elim (Bool-cases (p.hashed_key == h)) [
        | inl own ↦ begin_all_active h ps c' (inl (unfold is_active in rw (begun, own) refl))
        | inr other ↦ elim held [
          | inl before ↦
              begin_all_active h ps c' (inl (unfold is_active in rw (begun, other) before))
          | inr later ↦ begin_all_active h ps c' (inr (rw other at later))
        ]
      ]

  pub begin_all_fs : (ps : List Prepared) (c : Backed S.vfs.State) → (begin_all S ps c).fs ≡ c.fs
  unfolding begin_all
  begin_all_fs [] c = refl
  begin_all_fs (p ∷ ps) c =
      begin_all_fs ps (record c { ledger = begin_reservation p.hashed_key c.ledger })
