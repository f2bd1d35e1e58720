-- ===== src/Retrieval/Defs.antt =====
-- cache.go: readHeaderProvenance, readStoredHeaders, retrieve; integrity.go: parseIntegrityPreamble,
-- discardCorrupt and integrityResult.
--
-- A retrieval holds publishMu and cleanupMu, so it is one step. A file that is there can be opened
-- and read; the identity of a header file, beside its digest, is left out. net/textproto and the
-- parsers of package time and strconv are parameters.
use httpcache_kit.Common.{
  ℕ, ◌+◌, Bool, true, false, not, Option, none, some, [], ◌∷◌, ◌++◌, reverse, String, Text, codes,
  text_key, nat_eq, ◌==◌, if◌then◌else◌, length,
}
use httpcache_kit.Vfs.{body, header}
use httpcache_kit.Http.Headers.{Headers}
use httpcache_kit.Ledger.Defs.{entry_stored_at, touch_entry}
use httpcache_kit.Ledger.Admission.{discard_unadmitted}
use httpcache_kit.Stale.Defs.{stale_at}
use httpcache_kit.Cache.Defs.{Cache, record_hit, record_miss}
use httpcache_kit.Policy.Resource.{Resource, stored_after, mark_stale}
use httpcache_kit.Http.Platform.{Platform}
use httpcache_kit.Records.Defs.{
  Meta, Codec, Decoded, plain, checked, corrupt, crlf, integrity_preamble, stored_at_preamble,
  after_prefix, decode_integrity, verify_stored_body,
}
use httpcache_kit.Transactions.Storage.{Storage}

-- textproto's ReadLine and ReadMIMEHeader, with what is left of the text; strconv.Atoi, for a number
-- that is not negative; time.Parse.
pub record Reader : Type 0 where
  pub read_line : Text → Option (Text × Text)
  pub read_mime_header : Text → Option Headers
  pub atoi : Text → Option ℕ
  pub parse_time : Text → Option ℕ

-- The header of an entry, and when it was stored, 0 if the record does not say.
pub record StoredHeader : Type 0 where
  pub status_code : ℕ
  pub header : Headers
  pub stored_at : ℕ

-- What a read finds: ErrNotFoundInCache, a corruptEntryError, another error, or a value.
pub data Found (A : Type 0) : Type 0 where
  missing : Found A
  faulty : Text → Found A
  failed : Found A
  found : A → Found A

infixl 10 ◌>>=◌
abbrev ◌>>=◌ : {A B : Type 0} → Option A → (A → Option B) → Option B
none >>= f = none
(some x) >>= f = f x

-- strings.SplitN(line, " ", 3), by its first two parts, if there are two.
unfoldable pub part_to_space : Text → Text
part_to_space [] = []
part_to_space (b ∷ s) = let rest = part_to_space s in if b == 32 then [] else b ∷ rest

unfoldable pub second_part : Text → Option Text
second_part [] = none
second_part (b ∷ s) = let rest = second_part s in if b == 32 then some (part_to_space s) else rest

module _ (K : Codec) (R : Reader) where
  -- The time, and the text behind the line that tells it.
  unfoldable pub read_stored_at : Text → Text → Option (ℕ × Text × Text)
  read_stored_at line rest = elim (after_prefix stored_at_preamble line) [
    | none ↦ some (0, line, rest)
    | some text ↦ elim (R.parse_time text) [
      | none ↦ none
      | some at ↦ elim (R.read_line rest) [
        | none ↦ none
        | some (next, rest') ↦ some (at, next, rest')
      ]
    ]
  ]

  -- parseIntegrityPreamble, behind the preamble.
  unfoldable pub parse_integrity_preamble : Text → Option Meta
  parse_integrity_preamble encoded = elim (K.decode64 encoded) [
    | none ↦ none
    | some text ↦ K.unmarshal text
  ]

  unfoldable pub read_integrity_at : ℕ → Text → Text → Option (ℕ × Text × Text)
  read_integrity_at at line rest = elim (after_prefix integrity_preamble line) [
    | none ↦ some (at, line, rest)
    | some encoded ↦ elim (parse_integrity_preamble encoded) [
      | none ↦ none
      | some meta ↦ elim (R.read_line rest) [
        | none ↦ none
        | some (next, rest') ↦ some (meta.stored_at, next, rest')
      ]
    ]
  ]

  unfoldable pub read_status : ℕ → Text → Text → Option StoredHeader
  read_status at line rest = elim (second_part line >>= R.atoi) [
    | none ↦ none
    | some code ↦ elim (R.read_mime_header rest) [
      | none ↦ none
      | some h ↦ some (record { status_code = code; header = h; stored_at = at })
    ]
  ]

  unfoldable pub read_stored_headers : Text → Option StoredHeader
  read_stored_headers raw = do
    (line, rest) ← R.read_line raw
    (at, line', rest') ← read_stored_at line rest
    (at', line'', rest'') ← read_integrity_at at line' rest'
    read_status at' line'' rest''

  -- bytes.HasSuffix(raw, headerRecordTerminator)
  unfoldable pub is_terminated : Text → Bool
  is_terminated raw = elim (after_prefix (reverse (crlf ++ crlf)) (reverse raw)) [
    | none ↦ false
    | some rest ↦ true
  ]

  -- The parsed record behind its checked metadata.
  unfoldable pub parse_record :
      Text → Option Meta → Option StoredHeader → Found (StoredHeader × Option Meta)
  parse_record raw meta (some h) = found (h, meta)
  parse_record raw none none = failed
  parse_record raw (some meta) none = faulty (K.sha256_text raw)

  unfoldable pub judge_record : Text → Decoded → Found (StoredHeader × Option Meta)
  judge_record raw (corrupt fault) = faulty (K.sha256_text raw)
  judge_record raw plain = parse_record raw none (read_stored_headers raw)
  judge_record raw (checked meta) = parse_record raw (some meta) (read_stored_headers raw)

  -- readHeaderProvenance: a record that is cut short is none yet.
  unfoldable pub read_header : Bool → Text → Option Text → Found (StoredHeader × Option Meta)
  read_header sha256 key none = missing
  read_header sha256 key (some raw) =
      if is_terminated raw
      then judge_record raw (decode_integrity K raw key sha256 true)
      else missing

  -- The body is checked against the metadata, if there are any.
  unfoldable pub read_body : Text → Option Meta → Bool
  read_body text none = true
  read_body text (some meta) = verify_stored_body K text meta

-- What a retrieval returns: the resource, and the bytes of its body.
pub record Retrieved : Type 0 where
  pub resource : Resource
  pub text : Text

module _ (S : Storage) (P : Platform) (K : Codec) (R : Reader) (hash_key : String → ℕ) where
  unfoldable pub count_miss : Bool → Cache S.vfs.State → Cache S.vfs.State
  count_miss counted c = if counted then record_miss c else c

  -- The resource of a header and a body, judged by the key's marker.
  unfoldable pub resource_of : String → StoredHeader → Cache S.vfs.State → Resource
  resource_of key h c =
      let at =
        if h.stored_at == 0 then entry_stored_at (hash_key key) c.backed.ledger else h.stored_at in
      let res : Resource = record {
        header = h.header;
        status_code = h.status_code;
        cc = none;
        stale = false;
        stored_at = at;
        request_time = 0;
        handler_stored_at = 0;
      } in
      elim (stale_at key c.markers) [
        | none ↦ res
        | some marked ↦ if stored_after P marked res then res else mark_stale res
      ]

  -- retrieve, once the header was read.
  unfoldable pub retrieve_with :
      ℕ
      → Bool
      → String
      → Text
      → Text
      → Found (StoredHeader × Option Meta)
      → Cache S.vfs.State
      → Found Retrieved × Cache S.vfs.State
  retrieve_with now counted key text raw missing c = (missing, count_miss counted c)
  retrieve_with now counted key text raw (faulty digest) c = (faulty digest, c)
  retrieve_with now counted key text raw failed c = (failed, c)
  retrieve_with now counted key text raw (found (h, meta)) c =
      let touched = record c {
        backed = record c.backed { ledger = touch_entry (hash_key key) now c.backed.ledger };
      } in
      if not (read_body K R text meta) then (faulty (K.sha256_text raw), c) else (
        found (record { resource = resource_of key h c; text = text }),
        if counted then record_hit touched else touched,
      )

  unfoldable pub retrieve :
      Bool → ℕ → Bool → String → Cache S.vfs.State → Found Retrieved × Cache S.vfs.State
  retrieve sha256 now counted key c =
      let raw = S.content (header (hash_key key)) c.backed.fs in
      let bytes : Text = elim raw [ none ↦ [] | some t ↦ t ] in
      elim (S.content (body (hash_key key)) c.backed.fs) [
        | none ↦ (missing, count_miss counted c)
        | some text ↦
            retrieve_with now counted key text bytes (read_header K R sha256 (codes key) raw) c
      ]

  -- discardCorrupt: only if the header is still the one that was read.
  unfoldable pub discard_corrupt : ℕ → String → Text → Cache S.vfs.State → Cache S.vfs.State
  discard_corrupt now key digest c =
      let h = hash_key key in
      elim (S.content (header h) c.backed.fs) [
        | none ↦ c
        | some raw ↦
            let more : ℕ = elim (S.vfs.stat (body h) c.backed.fs) [ none ↦ 0 | some n ↦ n ] in
            let gone = discard_unadmitted S.vfs key h (length raw + more) 0 now c.backed in
            if not (K.sha256_text raw == digest) then c else record c { backed = gone.1 }
      ]

  -- integrityResult: a corrupt entry is a miss, once it is discarded.
  unfoldable pub integrity_result :
      ℕ → Bool → String → Found Retrieved → Cache S.vfs.State → Found Retrieved × Cache S.vfs.State
  integrity_result now counted key (faulty digest) c =
      (missing, count_miss counted (discard_corrupt now key digest c))
  integrity_result now counted key missing c = (missing, c)
  integrity_result now counted key failed c = (failed, c)
  integrity_result now counted key (found r) c = (found r, c)

  -- Retrieve; `others` is what happens to the cache between the two steps.
  unfoldable pub retrieve_recorded :
      (Cache S.vfs.State → Cache S.vfs.State)
      → Bool
      → ℕ
      → Bool
      → String
      → Cache S.vfs.State
      → Found Retrieved × Cache S.vfs.State
  retrieve_recorded others sha256 now counted key c =
      let (answer, c') = retrieve sha256 now counted key c in
      integrity_result now counted key answer (others c')
