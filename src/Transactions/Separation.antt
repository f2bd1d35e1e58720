-- ===== src/Transactions/Separation.antt =====
-- cache.go: the files of one key while another one of the same transaction is stored.
use httpcache_kit.Common.{
  ℕ, ◌+◌, ◌≡◌, ◌≢◌, inl, inr, refl, ap, sym, ◌∙◌, true, false, ◌&&◌, Option, List, [], ◌∷◌, Text,
  length, All, arith, Bool-cases, is_some, wrap, pos, nat_eq, contains,
}
use httpcache_kit.Vfs.{FilePath, body, header}
use httpcache_kit.Ledger.Defs.{is_active}
use httpcache_kit.Ledger.Admission.{Backed, reserve_entry}
use httpcache_kit.Transactions.Storage.{Storage, StorageLaws}
use httpcache_kit.Transactions.Defs.{
  Staged, target_of, Prepared, Setting, serialized, body_text, body_digest, size_fits,
  expected_body_size,
}
use httpcache_kit.Transactions.Store.{
  stage_write, commit_staged, commit_entry, commit_all, admit_known, provisional_text,
  prepare_header, prepare_body, prepare_resource, prepare_all,
}
use httpcache_kit.Transactions.Frames.{Same, owner, reserve_entry-Kept}
use httpcache_kit.Transactions.Staging.{stage_write-Same, commit_staged-Same}
use httpcache_kit.Transactions.Preparation.{
  admit_known-Kept, hashes, Fresh, prepare_resource-Careful,
}
use httpcache_kit.Transactions.Contents.{Held, IsReady, header_text}

module _ (S : Storage) (L : StorageLaws S) (X : Setting) where
  -- A file of another key that has a reservation.
  module _ (q : FilePath) where
    prepare_header_others :
        (p : Prepared) (n : ℕ) (c : Backed S.vfs.State)
        → owner q ≢ p.hashed_key
        → is_active (owner q) c.ledger ≡ true
        → Same S q c.fs (prepare_header S X p n c).1.fs
    unfolding prepare_header owner
    prepare_header_others p n c other active =
        let text = serialized X (target_of p) n (body_digest X) in
        let item = wrap (pos (n + length text)) in
        let room = reserve_entry S.vfs X.limits.max_size p.hashed_key item c in
        let kept = (reserve_entry-Kept S L X.limits.max_size p.hashed_key item c).same q active in
        let away : header p.hashed_key ≢ q = λ e. other (ap owner (sym e)) in
        elim (Bool-cases (is_some room.0)) [
          | inl refused ↦ rw refused kept
          | inr granted ↦
              rw granted (stage_write-Same S L (header p.hashed_key) q text room.1.fs away ∙ kept)
        ]

    prepare_body_others :
        (p : Prepared) (provisional : Text) (c : Backed S.vfs.State)
        → owner q ≢ p.hashed_key
        → is_active (owner q) c.ledger ≡ true
        → Same S q c.fs (prepare_body S X p provisional c).1.fs
    unfolding prepare_body owner
    prepare_body_others p provisional c other active =
        let st = stage_write S (body p.hashed_key) (body_text X) c.fs in
        let p' : Prepared = record p {
          body_file = st.file;
          size = st.bytes + length provisional;
        } in
        let away : body p.hashed_key ≢ q = λ e. other (ap owner (sym e)) in
        let wrote = stage_write-Same S L (body p.hashed_key) q (body_text X) c.fs away in
        elim (Bool-cases
          (st.done && size_fits (expected_body_size X.platform X.res.header) st.bytes)) [
            | inr failed ↦ rw failed wrote
            | inl whole ↦
                rw whole
                  (prepare_header_others p' st.bytes (record c { fs = st.fs }) other active ∙ wrote)
          ]

    prepare_resource_others :
        (p : Prepared) (c : Backed S.vfs.State)
        → owner q ≢ p.hashed_key
        → is_active (owner q) c.ledger ≡ true
        → Same S q c.fs (prepare_resource S X p c).1.fs
    unfolding prepare_resource
    prepare_resource_others p c other active =
        let known = expected_body_size X.platform X.res.header in
        let provisional = provisional_text X p in
        let admitted = admit_known S X p.hashed_key known provisional c in
        let room = admit_known-Kept S L X p.hashed_key known provisional c in
        elim (Bool-cases (X.rewinds p.key)) [
          | inr fails ↦ rw fails refl
          | inl rewound ↦ elim (Bool-cases (is_some admitted.0)) [
            | inl refused ↦ rw (rewound, refused) (room.same q active)
            | inr granted ↦
                rw (rewound, granted)
                  (prepare_body_others p provisional admitted.1 other (room.active (owner q) active)
                    ∙ room.same q active)
          ]
        ]

    pub prepare_all_others :
        (ps : List Prepared) (c : Backed S.vfs.State)
        → Fresh ps
        → contains (owner q) (hashes ps) ≡ false
        → is_active (owner q) c.ledger ≡ true
        → Same S q c.fs (prepare_all S X ps c).1.fs
    unfolding prepare_all contains
    prepare_all_others [] c f apart active = refl
    prepare_all_others (p ∷ ps) c f apart active =
        let r = prepare_resource S X p c in
        let one = prepare_resource_others p c (ground arith) active in
        let still = (prepare_resource-Careful S L X p c f.0.0 f.0.1).active (owner q) active in
        elim (Bool-cases r.0.0) [
          | inr failed ↦ rw failed one
          | inl done ↦ rw done (prepare_all_others ps r.1 f.1 (ground arith) still ∙ one)
        ]

    pub commit-Held_others :
        (x : FilePath) (t : Text) (f : Option Staged) (s s' : S.vfs.State)
        → x ≢ q
        → Held S x t f s
        → Same S q s' (commit_staged S f s').1
    commit-Held_others x t f s s' away h =
        commit_staged-Same S L f q s' (λ e there at_q. away (ground arith))

    pub commit_entry_others :
        (p : Prepared) (start s : S.vfs.State)
        → owner q ≢ p.hashed_key
        → IsReady S L X (target_of p) p start
        → Same S q s (commit_entry S p s).1
    unfolding commit_entry owner
    commit_entry_others p start s other ready =
        let b = commit_staged S p.body_file s in
        let one =
          commit-Held_others (body p.hashed_key) (body_text X) p.body_file start s
            (λ e. other (ap owner (sym e))) ready.body_held in
        let two =
          commit-Held_others (header p.hashed_key) (header_text X (target_of p)) p.header_file start
            b.1 (λ e. other (ap owner (sym e))) ready.header_held in
        elim (Bool-cases b.0.0) [ inr failed ↦ rw failed one | inl done ↦ rw done (two ∙ one) ]

    pub commit_all_others :
        (ps : List Prepared) (start s : S.vfs.State)
        → contains (owner q) (hashes ps) ≡ false
        → All (λ p. IsReady S L X (target_of p) p start) ps
        → Same S q s (commit_all S ps s).1
    unfolding commit_all contains
    commit_all_others [] start s apart ready = refl
    commit_all_others (p ∷ ps) start s apart ready =
        let e = commit_entry S p s in
        let one = commit_entry_others p start s (ground arith) ready.0 in
        elim (Bool-cases e.0.0) [
          | inr failed ↦ rw failed one
          | inl done ↦ rw done (commit_all_others ps start e.1 (ground arith) ready.1 ∙ one)
        ]
