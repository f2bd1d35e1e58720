-- ===== src/Transactions/Contents.antt =====
-- cache.go: what a prepared entry's files hold, staged or in place.
use mathlib.Core.Path.{subst}
use httpcache_kit.Common.{
  ℕ, ◌+◌, ◌≡◌, ◌≢◌, ◌⊎◌, inl, inr, refl, ap, ◌∙◌, true, false, ◌&&◌, not, Option, some, Text,
  length, arith, Bool-cases, is_some, wrap, pos, nat_eq,
}
use httpcache_kit.Vfs.{FilePath, body, header}
use httpcache_kit.Ledger.Defs.{is_active}
use httpcache_kit.Ledger.Admission.{Backed, reserve_entry}
use httpcache_kit.Transactions.Storage.{Storage, StorageLaws}
use httpcache_kit.Transactions.Defs.{
  Staged, Target, target_of, Prepared, Setting, serialized, body_text, body_digest, size_fits,
  expected_body_size,
}
use httpcache_kit.Transactions.Store.{
  stage_write, commit_staged, admit_known, provisional_text, prepare_header, prepare_body,
  prepare_resource,
}
use httpcache_kit.Transactions.Frames.{Same, owner, reserve_entry-Kept}
use httpcache_kit.Transactions.Staging.{stage_write-Same}
use httpcache_kit.Transactions.Preparation.{admit_known-Kept}

-- The header that is written once the body's length and digest are known.
abbrev pub header_text : Setting → Target → Text
header_text X t = serialized X t (length (body_text X)) (body_digest X)

module _ (S : Storage) where
  -- A file that holds the text already, or will once it is renamed.
  pub record Held (q : FilePath) (t : Text) (f : Option Staged) (s : S.vfs.State) : Type 0 where
    pub file : Staged
    pub there : f ≡ some file
    pub target : file.target ≡ q
    pub text : file.text ≡ t
    pub stands : (file.temporary ≡ true) ⊎ (S.content q s ≡ some t)

  pub Held-Same :
      {q : FilePath} {t : Text} {f : Option Staged} {s s' : S.vfs.State}
      → Same S q s s'
      → Held q t f s
      → Held q t f s'
  Held-Same same h = record {
    file = h.file;
    there = h.there;
    target = h.target;
    text = h.text;
    stands = elim h.stands [ inl staged ↦ inl staged | inr stored ↦ inr (same ∙ stored) ];
  }

  module _ (L : StorageLaws S) where
    stage_write-Held :
        (path : FilePath) (text : Text) (s : S.vfs.State)
        → (stage_write S path text s).done ≡ true
        → Held path text (stage_write S path text s).file (stage_write S path text s).fs
          × ((stage_write S path text s).bytes ≡ length text)
    unfolding stage_write
    stage_write-Held path text s done = elim (Bool-cases S.on_disk) [
      | inr direct ↦
          let whole : (S.write path text s).0.done ≡ true = rw (direct, stage_write) at done in
          let w = L.written path text s whole in
          let e : Staged = record {
            temporary = S.on_disk;
            target = path;
            text = text;
            published = not S.on_disk && (S.write path text s).0.opened;
          } in
          rw (direct, stage_write)
            (
              record {
                file = record e { temporary = false; published = (S.write path text s).0.opened };
                there = refl;
                target = refl;
                text = refl;
                stands = inr w.0;
              },
              w.1,
            )
      | inl disk ↦ elim (Bool-cases (S.stage text s).0.opened) [
        | inr shut ↦
            let absurd : false ≡ true = rw (disk, shut, stage_write) at done in ground arith
        | inl opened ↦ elim (Bool-cases (S.stage text s).0.done) [
          | inl whole ↦
              let w = L.staged text s whole in
              rw (disk, opened, whole, stage_write)
                (
                  record {
                    file = record {
                      temporary = true;
                      target = path;
                      text = text;
                      published = false;
                    };
                    there = refl;
                    target = refl;
                    text = refl;
                    stands = inl refl;
                  },
                  w.0,
                )
          | inr torn ↦
              let absurd : false ≡ true = rw (disk, opened, torn, stage_write) at done in
              ground arith
        ]
      ]
    ]

    pub commit_staged-Held :
        (q : FilePath) (t : Text) (f : Option Staged) (s : S.vfs.State)
        → Held q t f s
        → (commit_staged S f s).0.0 ≡ true
        → S.content q (commit_staged S f s).1 ≡ some t
    unfolding commit_staged
    commit_staged-Held q t f s h done =
        let e = h.file in
        elim (Bool-cases e.temporary) [
          | inr there ↦
              rw (h.there, there, commit_staged)
                (elim h.stands [ inl staged ↦ ground arith | inr stored ↦ stored ])
          | inl staged ↦
              let moved : (S.rename e.target e.text s).0 ≡ true =
                elim (Bool-cases (S.rename e.target e.text s).0) [
                  | inl ok ↦ ok
                  | inr failed ↦
                      let absurd : false ≡ true =
                        rw (h.there, staged, failed, commit_staged) at done in
                      ground arith
                ] in
              rw (h.there, staged, commit_staged, moved)
                (subst (λ x. S.content x (S.rename e.target e.text s).1 ≡ some t) h.target
                  (L.renamed e.target e.text s moved ∙ ap some h.text))
        ]

    module _ (X : Setting) where
      -- Both files hold their texts, and the size is that of both.
      pub record IsReady (t : Target) (p : Prepared) (s : S.vfs.State) : Type 0 where
        pub body_held : Held (body t.hashed_key) (body_text X) p.body_file s
        pub header_held : Held (header t.hashed_key) (header_text X t) p.header_file s
        pub counted : p.size ≡ length (body_text X) + length (header_text X t)

      prepare_header-IsReady :
          (p : Prepared) (n : ℕ) (c : Backed S.vfs.State)
          → is_active p.hashed_key c.ledger ≡ true
          → n ≡ length (body_text X)
          → Held (body p.hashed_key) (body_text X) p.body_file c.fs
          → (prepare_header S X p n c).0.0 ≡ true
          → IsReady (target_of p) (prepare_header S X p n c).0.1 (prepare_header S X p n c).1.fs
      unfolding prepare_header
      prepare_header-IsReady p n c active whole held done =
          let text = serialized X (target_of p) n (body_digest X) in
          let same : text ≡ header_text X (target_of p) =
            ap (λ n. serialized X (target_of p) n (body_digest X)) whole in
          let item = wrap (pos (n + length text)) in
          let room = reserve_entry S.vfs X.limits.max_size p.hashed_key item c in
          let kept = reserve_entry-Kept S L X.limits.max_size p.hashed_key item c in
          let path = header p.hashed_key in
          let apart : path ≢ body p.hashed_key = ground arith in
          elim (Bool-cases (is_some room.0)) [
            | inl refused ↦
                let absurd : false ≡ true = rw (refused, prepare_header) at done in ground arith
            | inr granted ↦
                let st = stage_write S path text room.1.fs in
                let ended : st.done && not (X.cancelled p.key) ≡ true =
                  rw (granted, prepare_header) at done in
                let wrote = stage_write-Held path text room.1.fs (ground arith) in
                rw granted (record {
                  body_held =
                      Held-Same
                        (stage_write-Same S L path (body p.hashed_key) text room.1.fs apart
                          ∙ kept.same (body p.hashed_key) (unfold owner in active))
                        held;
                  header_held = subst (λ t. Held path t st.file st.fs) same wrote.0;
                  counted = omega (arith, wrote.1, ap length same, whole);
                })
          ]

      prepare_body-IsReady :
          (p : Prepared) (provisional : Text) (c : Backed S.vfs.State)
          → is_active p.hashed_key c.ledger ≡ true
          → (prepare_body S X p provisional c).0.0 ≡ true
          → IsReady
              (target_of p)
              (prepare_body S X p provisional c).0.1
              (prepare_body S X p provisional c).1.fs
      unfolding prepare_body
      prepare_body-IsReady p provisional c active done =
          let path = body p.hashed_key in
          let st = stage_write S path (body_text X) c.fs in
          let p' : Prepared = record p {
            body_file = st.file;
            size = st.bytes + length provisional;
          } in
          let fits = size_fits (expected_body_size X.platform X.res.header) st.bytes in
          elim (Bool-cases (st.done && fits)) [
            | inr failed ↦
                let absurd : false ≡ true = rw (failed, prepare_body) at done in ground arith
            | inl whole ↦
                let ready : (prepare_header S X p' st.bytes (record c { fs = st.fs })).0.0 ≡ true =
                  rw (whole, prepare_body) at done in
                let wrote = stage_write-Held path (body_text X) c.fs (ground arith) in
                rw whole (
                  prepare_header-IsReady p' st.bytes (record c { fs = st.fs }) active wrote.1
                    wrote.0 ready)
          ]

      pub prepare_resource-IsReady :
          (p : Prepared) (c : Backed S.vfs.State)
          → is_active p.hashed_key c.ledger ≡ true
          → (prepare_resource S X p c).0.0 ≡ true
          → IsReady (target_of p) (prepare_resource S X p c).0.1 (prepare_resource S X p c).1.fs
      unfolding prepare_resource
      prepare_resource-IsReady p c active done =
          let known = expected_body_size X.platform X.res.header in
          let provisional = provisional_text X p in
          let admitted = admit_known S X p.hashed_key known provisional c in
          let room = admit_known-Kept S L X p.hashed_key known provisional c in
          elim (Bool-cases (X.rewinds p.key)) [
            | inr fails ↦
                let absurd : false ≡ true = rw (fails, prepare_resource) at done in ground arith
            | inl rewound ↦ elim (Bool-cases (is_some admitted.0)) [
              | inl refused ↦
                  let absurd : false ≡ true = rw (rewound, refused, prepare_resource) at done in
                  ground arith
              | inr granted ↦
                  let ready : (prepare_body S X p provisional admitted.1).0.0 ≡ true =
                    rw (rewound, granted, prepare_resource) at done in
                  rw (rewound, granted)
                    (prepare_body-IsReady p provisional admitted.1 (room.active p.hashed_key active)
                      ready)
            ]
          ]
