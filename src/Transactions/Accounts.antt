-- ===== src/Transactions/Accounts.antt =====
-- cache.go: the ledger across StoreContext.
use httpcache_kit.Common.{
  ℕ, ◌+◌, Bool, ◌&&◌, Option, none, some, List, [], ◌∷◌, Text, length, Bool-cases, inl, inr,
  is_some, wrap, pos, nat_eq, if◌then◌else◌,
}
use httpcache_kit.Vfs.{body}
use httpcache_kit.Ledger.Defs.{track_entry}
use httpcache_kit.Ledger.Admission.{Backed, reserve_entry, discard_unadmitted}
use httpcache_kit.Ledger.Invariant.{IsLedger, track_entry-IsLedger}
use httpcache_kit.Ledger.Steps.{reserve_entry-IsLedger, discard_unadmitted-IsLedger}
use httpcache_kit.Stale.Defs.{Outcome}
use httpcache_kit.Cache.Defs.{Cache}
use httpcache_kit.Transactions.Storage.{Storage}
use httpcache_kit.Transactions.Defs.{
  target_of, Prepared, Setting, serialized, body_text, body_digest, size_fits, expected_body_size,
  any_published,
}
use httpcache_kit.Transactions.Store.{
  stage_write, admit_known, provisional_text, prepare_header, prepare_body, prepare_resource,
  prepare_all, commit_all, abandon_all, mark_residual, discard_all, discard_prepared, track_all,
  publish,
}

module _ (S : Storage) (X : Setting) where
  prepare_header-IsLedger :
      (p : Prepared) (n : ℕ) (c : Backed S.vfs.State)
      → IsLedger c.ledger
      → IsLedger (prepare_header S X p n c).1.ledger
  unfolding prepare_header
  prepare_header-IsLedger p n c v =
      let item = wrap (pos (n + length (serialized X (target_of p) n (body_digest X)))) in
      let room = reserve_entry S.vfs X.limits.max_size p.hashed_key item c in
      let kept = reserve_entry-IsLedger S.vfs X.limits.max_size p.hashed_key item c v in
      elim (Bool-cases (is_some room.0)) [
        | inl refused ↦ rw refused kept
        | inr granted ↦ rw granted kept
      ]

  prepare_body-IsLedger :
      (p : Prepared) (provisional : Text) (c : Backed S.vfs.State)
      → IsLedger c.ledger
      → IsLedger (prepare_body S X p provisional c).1.ledger
  unfolding prepare_body
  prepare_body-IsLedger p provisional c v =
      let st = stage_write S (body p.hashed_key) (body_text X) c.fs in
      let p' : Prepared = record p { body_file = st.file; size = st.bytes + length provisional } in
      let fits = size_fits (expected_body_size X.platform X.res.header) st.bytes in
      elim (Bool-cases (st.done && fits)) [
        | inr failed ↦ rw failed v
        | inl whole ↦ rw whole (prepare_header-IsLedger p' st.bytes (record c { fs = st.fs }) v)
      ]

  admit_known-IsLedger :
      (h : ℕ) (n : Option ℕ) (provisional : Text) (c : Backed S.vfs.State)
      → IsLedger c.ledger
      → IsLedger (admit_known S X h n provisional c).1.ledger
  unfolding admit_known
  admit_known-IsLedger h none provisional c v = v
  admit_known-IsLedger h (some n) provisional c v =
      reserve_entry-IsLedger S.vfs X.limits.max_size h (wrap (pos (n + length provisional))) c v

  prepare_resource-IsLedger :
      (p : Prepared) (c : Backed S.vfs.State)
      → IsLedger c.ledger
      → IsLedger (prepare_resource S X p c).1.ledger
  unfolding prepare_resource
  prepare_resource-IsLedger p c v =
      let known = expected_body_size X.platform X.res.header in
      let provisional = provisional_text X p in
      let admitted = admit_known S X p.hashed_key known provisional c in
      let kept = admit_known-IsLedger p.hashed_key known provisional c v in
      elim (Bool-cases (X.rewinds p.key)) [
        | inr fails ↦ rw fails v
        | inl rewound ↦ elim (Bool-cases (is_some admitted.0)) [
          | inl refused ↦ rw (rewound, refused) kept
          | inr granted ↦
              rw (rewound, granted) (prepare_body-IsLedger p provisional admitted.1 kept)
        ]
      ]

  pub prepare_all-IsLedger :
      (ps : List Prepared) (c : Backed S.vfs.State)
      → IsLedger c.ledger
      → IsLedger (prepare_all S X ps c).1.ledger
  unfolding prepare_all
  prepare_all-IsLedger [] c v = v
  prepare_all-IsLedger (p ∷ ps) c v =
      let r = prepare_resource S X p c in
      let kept = prepare_resource-IsLedger p c v in
      elim (Bool-cases r.0.0) [
        | inr failed ↦ rw failed kept
        | inl done ↦ rw done (prepare_all-IsLedger ps r.1 kept)
      ]

  discard_all-IsLedger :
      (w : Outcome) (now : ℕ) (ps : List Prepared) (c : Cache S.vfs.State)
      → IsLedger c.backed.ledger
      → IsLedger (discard_all S X w now ps c).backed.ledger
  unfolding discard_all
  discard_all-IsLedger w now [] c v = v
  discard_all-IsLedger w now (p ∷ ps) c v =
      let one = discard_unadmitted S.vfs p.key p.hashed_key p.size p.stored_at now c.backed in
      discard_all-IsLedger w now ps
        (record c {
          backed = one.1;
          markers = if one.0 then c.markers else mark_residual X w now p.key c.markers;
        })
        (discard_unadmitted-IsLedger S.vfs p.key p.hashed_key p.size p.stored_at now c.backed v)

  pub discard_prepared-IsLedger :
      (w : Outcome) (now : ℕ) (ps : List Prepared) (c : Cache S.vfs.State)
      → IsLedger c.backed.ledger
      → IsLedger (discard_prepared S X w now ps c).backed.ledger
  unfolding discard_prepared
  discard_prepared-IsLedger w now ps c v =
      let gone = abandon_all S ps c.backed.fs in
      elim (Bool-cases (any_published ps)) [
        | inr quiet ↦ rw quiet v
        | inl published ↦ rw published (
            discard_all-IsLedger w now gone.0
              (record c { backed = record c.backed { fs = gone.1 } }) v)
      ]

  track_all-IsLedger :
      (now : ℕ) (ps : List Prepared) (c : Backed S.vfs.State)
      → IsLedger c.ledger
      → IsLedger (track_all S now ps c).ledger
  unfolding track_all
  track_all-IsLedger now [] c v = v
  track_all-IsLedger now (p ∷ ps) c v =
      track_all-IsLedger now ps
        (record c { ledger = track_entry p.key p.hashed_key p.size p.stored_at now c.ledger })
        (track_entry-IsLedger p.key p.hashed_key p.size p.stored_at now c.ledger v)

  pub publish-IsLedger :
      (w : Outcome) (now : ℕ) (stopped : Bool) (ps : List Prepared) (c : Cache S.vfs.State)
      → IsLedger c.backed.ledger
      → IsLedger (publish S X w now stopped ps c).1.backed.ledger
  unfolding publish
  publish-IsLedger w now stopped ps c v =
      let moved = commit_all S ps c.backed.fs in
      let c' : Cache S.vfs.State = record c { backed = record c.backed { fs = moved.1 } } in
      elim (Bool-cases stopped) [
        | inl ended ↦ rw ended (discard_prepared-IsLedger w now ps c v)
        | inr going ↦ elim (Bool-cases moved.0.0) [
          | inl committed ↦ rw (going, committed) (track_all-IsLedger now moved.0.1 c'.backed v)
          | inr refused ↦ rw (going, refused) (discard_prepared-IsLedger w now moved.0.1 c' v)
        ]
      ]
