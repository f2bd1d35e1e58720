-- ===== src/Transactions/Store.antt =====
-- cache.go: stageWrite, commitStaged, abandonStaged, prepareResourceForKey, discardPreparedStore and
-- StoreContext.
use httpcache_kit.Common.{
  ℕ, ◌+◌, Bool, true, false, ◌&&◌, not, Option, none, some, List, [], ◌∷◌, String, Text, codes,
  nat_eq, ◌==◌, length, lookup, insert, ltb, is_some, pos, wrap, string_eq, if◌then◌else◌,
}
use httpcache_kit.Vfs.{FilePath, body, header}
use httpcache_kit.Ledger.Defs.{begin_reservation, release_reservation, track_entry}
use httpcache_kit.Ledger.Admission.{Backed, AdmissionError, reserve_entry, discard_unadmitted}
use httpcache_kit.Stale.Defs.{Markers, Outcome, persist_stale}
use httpcache_kit.Cache.Defs.{Cache}
use httpcache_kit.Transactions.Storage.{Storage}
use httpcache_kit.Transactions.Defs.{
  Staged, Prepared, Setting, expected_body_size, response_superseded, unique_keys, any_published,
  target_of, prepared_entries, serialized, body_text, body_digest, size_fits,
}

-- The header with 64 zeros in place of the digest, which is as long as the one to come if the length
-- is known.
unfoldable pub provisional_text : Setting → Prepared → Text
provisional_text X p =
    let zeros = codes "0000000000000000000000000000000000000000000000000000000000000000" in
    serialized X (target_of p)
      (elim (expected_body_size X.platform X.res.header) [ none ↦ 0 | some n ↦ n ]) zeros

-- A key whose files could not be removed is marked, unless it has a later marker.
unfoldable pub mark_residual : Setting → Outcome → ℕ → String → Markers → Markers
mark_residual X w now key m =
    let earlier : Bool = elim (lookup key m.stale) [ none ↦ ltb 0 now | some at ↦ ltb at now ] in
    persist_stale X.limits.on_disk w
      (if earlier then record m { stale = insert key now m.stale } else m)

module _ (S : Storage) where
  -- What stageWrite returns: the staged file, the bytes copied, and whether there was no error.
  pub record Stage : Type 0 where
    pub file : Option Staged
    pub bytes : ℕ
    pub done : Bool
    pub fs : S.vfs.State

  -- A temporary file that cannot be removed stays in place.
  unfoldable pub abandon_staged : Option Staged → S.vfs.State → Option Staged × S.vfs.State
  abandon_staged none s = (none, s)
  abandon_staged (some e) s =
      let (gone, s') = S.remove_temp s in
      if e.temporary then (some (record e { temporary = not gone }), s') else (some e, s)

  -- A new file: in place, where opening it publishes it, or under a temporary name.
  unfoldable pub stage_write : FilePath → Text → S.vfs.State → Stage
  stage_write path text s =
      let (w, s1) = S.write path text s in
      let (t, s2) = S.stage text s in
      let e : Staged = record {
        temporary = S.on_disk;
        target = path;
        text = text;
        published = not S.on_disk && w.opened;
      } in
      let (kept, s3) = abandon_staged (some e) s2 in
      if not S.on_disk
      then record { file = some e; bytes = w.bytes; done = w.done; fs = s1 }
      else if not t.opened
      then record { file = none; bytes = 0; done = false; fs = s2 }
      else if t.done
      then record { file = some e; bytes = t.bytes; done = true; fs = s2 }
      else record { file = kept; bytes = t.bytes; done = false; fs = s3 }

  -- One file of commitStagedLocked; false is its error.
  unfoldable pub commit_staged : Option Staged → S.vfs.State → (Bool × Option Staged) × S.vfs.State
  commit_staged none s = ((true, none), s)
  commit_staged (some e) s =
      let (moved, s') = S.rename e.target e.text s in
      if not e.temporary
      then ((true, some e), s)
      else if moved
      then ((true, some (record e { temporary = false; published = true })), s')
      else ((false, some e), s')

  -- A prepared entry's two files, the body first.
  unfoldable pub commit_entry : Prepared → S.vfs.State → (Bool × Prepared) × S.vfs.State
  commit_entry p s =
      let ((first, b), s1) = commit_staged p.body_file s in
      let ((second, h), s2) = commit_staged p.header_file s1 in
      if first
      then ((second, record p { body_file = b; header_file = h }), s2)
      else ((false, record p { body_file = b }), s1)

  unfoldable pub commit_all : List Prepared → S.vfs.State → (Bool × List Prepared) × S.vfs.State
  commit_all [] s = ((true, []), s)
  commit_all (p ∷ ps) s =
      let ((done, p'), s1) = commit_entry p s in
      let ((rest_done, ps'), s2) = commit_all ps s1 in
      if done then ((rest_done, p' ∷ ps'), s2) else ((false, p' ∷ ps), s1)

  unfoldable pub abandon_all : List Prepared → S.vfs.State → List Prepared × S.vfs.State
  abandon_all [] s = ([], s)
  abandon_all (p ∷ ps) s =
      let (b, s1) = abandon_staged p.body_file s in
      let (h, s2) = abandon_staged p.header_file s1 in
      let (ps', s3) = abandon_all ps s2 in (record p { body_file = b; header_file = h } ∷ ps', s3)

  -- The header is staged once its growth is admitted.
  unfoldable pub prepare_header :
      Setting → Prepared → ℕ → Backed S.vfs.State → (Bool × Prepared) × Backed S.vfs.State
  prepare_header X p written c =
      let text = serialized X (target_of p) written (body_digest X) in
      let (refused, c1) =
        reserve_entry S.vfs X.limits.max_size p.hashed_key (wrap (pos (written + length text))) c in
      let st = stage_write (header p.hashed_key) text c1.fs in
      if is_some refused then ((false, p), c1) else (
        (
          st.done && not (X.cancelled p.key),
          record p { header_file = st.file; size = written + st.bytes },
        ),
        record c1 { fs = st.fs },
      )

  -- `provisional` is the header that is serialized to count its bytes.
  unfoldable pub prepare_body :
      Setting → Prepared → Text → Backed S.vfs.State → (Bool × Prepared) × Backed S.vfs.State
  prepare_body X p provisional c =
      let st = stage_write (body p.hashed_key) (body_text X) c.fs in
      let p' = record p { body_file = st.file; size = st.bytes + length provisional } in
      let c' = record c { fs = st.fs } in
      if st.done && size_fits (expected_body_size X.platform X.res.header) st.bytes
      then prepare_header X p' st.bytes c'
      else ((false, p'), c')

  -- A known length is admitted before anything is written.
  unfoldable pub admit_known :
      Setting
      → ℕ
      → Option ℕ
      → Text
      → Backed S.vfs.State
      → Option AdmissionError × Backed S.vfs.State
  admit_known X h none provisional c = (none, c)
  admit_known X h (some n) provisional c =
      reserve_entry S.vfs X.limits.max_size h (wrap (pos (n + length provisional))) c

  -- prepareResourceForKey
  unfoldable pub prepare_resource :
      Setting → Prepared → Backed S.vfs.State → (Bool × Prepared) × Backed S.vfs.State
  prepare_resource X p c =
      let provisional = provisional_text X p in
      let admitted =
        admit_known X p.hashed_key (expected_body_size X.platform X.res.header) provisional c in
      if not (X.rewinds p.key)
      then ((false, p), c)
      else if is_some admitted.0
      then ((false, p), admitted.1)
      else prepare_body X p provisional admitted.1

  -- prepareStoreEntries: up to the first entry that fails.
  unfoldable pub prepare_all :
      Setting → List Prepared → Backed S.vfs.State → (Bool × List Prepared) × Backed S.vfs.State
  prepare_all X [] c = ((true, []), c)
  prepare_all X (p ∷ ps) c =
      let ((done, p'), c1) = prepare_resource X p c in
      let ((rest_done, ps'), c2) = prepare_all X ps c1 in
      if done then ((rest_done, p' ∷ ps'), c2) else ((false, p' ∷ ps), c1)

  unfoldable pub discard_all :
      Setting → Outcome → ℕ → List Prepared → Cache S.vfs.State → Cache S.vfs.State
  discard_all X w now [] c = c
  discard_all X w now (p ∷ ps) c =
      let (gone, b) = discard_unadmitted S.vfs p.key p.hashed_key p.size p.stored_at now c.backed in
      discard_all X w now ps (record c {
        backed = b;
        markers = if gone then c.markers else mark_residual X w now p.key c.markers;
      })

  -- Nothing is discarded unless something was published.
  unfoldable pub discard_prepared :
      Setting → Outcome → ℕ → List Prepared → Cache S.vfs.State → Cache S.vfs.State
  discard_prepared X w now ps c =
      let (ps', s) = abandon_all ps c.backed.fs in
      let c' = record c { backed = record c.backed { fs = s } } in
      if any_published ps then discard_all X w now ps' c' else c'

  unfoldable pub begin_all : List Prepared → Backed S.vfs.State → Backed S.vfs.State
  begin_all [] c = c
  begin_all (p ∷ ps) c =
      begin_all ps (record c { ledger = begin_reservation p.hashed_key c.ledger })

  unfoldable pub release_all : List Prepared → Cache S.vfs.State → Cache S.vfs.State
  release_all [] c = c
  release_all (p ∷ ps) c = release_all ps (record c {
    backed = record c.backed { ledger = release_reservation p.hashed_key c.backed.ledger };
  })

  unfoldable pub track_all : ℕ → List Prepared → Backed S.vfs.State → Backed S.vfs.State
  track_all now [] c = c
  track_all now (p ∷ ps) c =
      track_all now ps
        (record c { ledger = track_entry p.key p.hashed_key p.size p.stored_at now c.ledger })

  -- The commit, once every entry is prepared; `stopped` is a context that ended on the way.
  unfoldable pub publish :
      Setting → Outcome → ℕ → Bool → List Prepared → Cache S.vfs.State → Bool × Cache S.vfs.State
  publish X w now stopped ps c =
      let ((committed, ps'), s) = commit_all ps c.backed.fs in
      let c' = record c { backed = record c.backed { fs = s } } in
      if stopped
      then (false, discard_prepared X w now ps c)
      else if committed
      then (true, record c' { backed = track_all now ps' c'.backed })
      else (false, discard_prepared X w now ps' c')

  -- The writes of a store that no marker supersedes.
  unfoldable pub store_entries :
      Setting → Outcome → ℕ → Bool → List Prepared → Cache S.vfs.State → Bool × Cache S.vfs.State
  store_entries X w now stopped ps c =
      let ((done, ps'), b) = prepare_all X ps (begin_all ps c.backed) in
      let c' = record c { backed = b } in
      let (stored, c2) =
        if done then publish X w now stopped ps' c' else (false, discard_prepared X w now ps' c') in
      (stored, release_all ps c2)

  -- StoreContext; the first part says whether it returns no error.
  unfoldable pub store_context :
      Setting
      → Outcome
      → ℕ
      → Bool
      → Bool
      → List String
      → Cache S.vfs.State
      → Bool × Cache S.vfs.State
  store_context X w now ended stopped keys c =
      let targets = unique_keys X.hash_key [] keys in
      if ended
      then (false, c)
      else if length keys == 0
      then (true, c)
      else if response_superseded X.platform X.res targets c.markers
      then (true, c)
      else store_entries X w now stopped (prepared_entries X now targets) c
