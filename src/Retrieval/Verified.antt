-- ===== src/Retrieval/Verified.antt =====
-- cache.go: what a hit of Retrieve has been checked for.
use httpcache_kit.Common.{
  ℕ, ◌≡◌, ◌≢◌, refl, Bool, true, Option, none, some, String, Text, codes, text_key, ◌==◌, arith,
  Bool-cases, Option-cases, inl, inr, length, text_eqb_iff,
}
use httpcache_kit.Vfs.{body, header}
use httpcache_kit.Cache.Defs.{Cache}
use httpcache_kit.Http.Platform.{Platform}
use httpcache_kit.Records.Defs.{
  check_meta, decode_line, after_prefix, integrity_preamble, cut_line, bad_encoding, digest_missing,
  Meta, Codec, Decoded, plain, checked, corrupt, decode_integrity, verify_stored_body, is_size,
}
use httpcache_kit.Transactions.Storage.{Storage}
use httpcache_kit.Retrieval.Defs.{
  Reader, StoredHeader, Found, missing, faulty, failed, found, Retrieved, read_stored_headers,
  is_terminated, parse_record, judge_record, read_header, read_body, retrieve_with, retrieve,
}

module _ (K : Codec) (R : Reader) where
  parse_record_meta :
      (raw : Text) (meta m : Option Meta) (h : Option StoredHeader) (g : StoredHeader)
      → parse_record K R raw meta h ≡ found (g, m)
      → m ≡ meta
  unfolding parse_record
  parse_record_meta raw meta m (some h) g p = ground arith
  parse_record_meta raw none m none g p = ground arith
  parse_record_meta raw (some meta) m none g p = ground arith

  check_meta_judged :
      (key text : Text) (check_key : Bool) (m : Option Meta)
      → check_meta K key check_key text m ≢ plain
  unfolding check_meta
  check_meta_judged key text check_key none p = ground arith
  check_meta_judged key text check_key (some m) p = ground arith

  decode_line_judged :
      (key : Text) (check_key : Bool) (cut : Option (Text × Text))
      → decode_line K key check_key cut ≢ plain
  unfolding decode_line
  decode_line_judged key check_key none p = ground arith
  decode_line_judged key check_key (some (line, text)) p = elim (Option-cases (K.decode64 line)) [
    | inl bad ↦
        let absurd : corrupt bad_encoding ≡ plain = rw (bad, decode_line) at p in ground arith
    | inr (encoded, good) ↦
        check_meta_judged key text check_key (K.unmarshal encoded) (rw (good, decode_line) at p)
  ]

  -- Where records are required, none is taken for one of the old format.
  decode_integrity_judged : (raw key : Text) → decode_integrity K raw key true true ≢ plain
  unfolding decode_integrity
  decode_integrity_judged raw key p = elim (Option-cases (after_prefix integrity_preamble raw)) [
    | inl bare ↦
        let absurd : corrupt digest_missing ≡ plain = rw (bare, decode_integrity) at p in
        ground arith
    | inr (rest, there) ↦
        decode_line_judged key true (cut_line rest) (rw (there, decode_integrity) at p)
  ]

  judge_record_checked :
      (raw : Text) (d : Decoded) (h : StoredHeader) (m : Option Meta)
      → d ≢ plain
      → judge_record K R raw d ≡ found (h, m)
      → (meta : Meta) × (m ≡ some meta) × (d ≡ checked meta)
  unfolding judge_record
  judge_record_checked raw (corrupt fault) h m judged p = ground arith
  judge_record_checked raw plain h m judged p = elim (judged refl) [ ]
  judge_record_checked raw (checked meta) h m judged p =
      (meta, parse_record_meta raw (some meta) m (read_stored_headers K R raw) h p, refl)

  -- A header that is accepted where records are required has checked metadata.
  read_header_checked :
      (key raw : Text) (h : StoredHeader) (m : Option Meta)
      → read_header K R true key (some raw) ≡ found (h, m)
      → (meta : Meta) × (m ≡ some meta) × (decode_integrity K raw key true true ≡ checked meta)
  unfolding read_header
  read_header_checked key raw h m p = elim (Bool-cases (is_terminated K R raw)) [
    | inr torn ↦
        let none_yet : Found (StoredHeader × Option Meta) = missing in
        let absurd : none_yet ≡ found (h, m) = rw (torn, read_header) at p in ground arith
    | inl whole ↦
        judge_record_checked raw (decode_integrity K raw key true true) h m
          (decode_integrity_judged raw key) (rw (whole, read_header) at p)
  ]

module _ (S : Storage) (P : Platform) (K : Codec) (R : Reader) (hash_key : String → ℕ) where
  retrieve_with_checked :
      (now : ℕ) (counted : Bool) (key : String) (text raw : Text) (c : Cache S.vfs.State)
      (r : Retrieved) (answer : Found (StoredHeader × Option Meta))
      → (retrieve_with S P K R hash_key now counted key text raw answer c).0 ≡ found r
      → (h : StoredHeader) × (m : Option Meta) × (answer ≡ found (h, m))
        × (read_body K R text m ≡ true)
        × (r.text ≡ text)
  unfolding retrieve_with
  retrieve_with_checked now counted key text raw c r missing p = ground arith
  retrieve_with_checked now counted key text raw c r (faulty digest) p = ground arith
  retrieve_with_checked now counted key text raw c r failed p = ground arith
  retrieve_with_checked now counted key text raw c r (found (h, m)) p =
      (h, m, refl, ground arith, ground arith)

  body_matches :
      (text : Text) (meta : Meta)
      → read_body K R text (some meta) ≡ true
      → (is_size K (length text) meta.size ≡ true) × (K.sha256_text text ≡ meta.body_sha256)
  unfolding read_body verify_stored_body
  body_matches text meta ok =
      let digest : (K.sha256_text text == meta.body_sha256) ≡ true = ground arith in
      (ground arith, (text_eqb_iff (K.sha256_text text) meta.body_sha256).0 digest)

  retrieve_answered :
      (now : ℕ) (counted : Bool) (key : String) (c : Cache S.vfs.State) (r : Retrieved)
      → (retrieve S P K R hash_key true now counted key c).0 ≡ found r
      → (raw text : Text) × (S.content (header (hash_key key)) c.backed.fs ≡ some raw)
        × (S.content (body (hash_key key)) c.backed.fs ≡ some text)
        × ((retrieve_with S P K R hash_key now counted key text raw
              (read_header K R true (codes key) (some raw))
              c).0
            ≡ found r)
  unfolding retrieve read_header retrieve_with
  retrieve_answered now counted key c r p =
      elim (Option-cases (S.content (body (hash_key key)) c.backed.fs)) [
        | inl absent ↦ let q : missing ≡ found r = rw (absent, retrieve) at p in ground arith
        | inr (text, there) ↦ elim (Option-cases (S.content (header (hash_key key)) c.backed.fs)) [
          | inl bare ↦ let q : missing ≡ found r = rw (there, bare, retrieve) at p in ground arith
          | inr (raw, h_there) ↦ (raw, text, h_there, there, rw (there, h_there, retrieve) at p)
        ]
      ]

  -- With integrity on, a hit is what was stored: the header file holds a record whose metadata name
  -- the key and are signed with the record, and the body that is returned is the body file's, with
  -- the length and the digest of the metadata.
  pub retrieve_verified :
      (now : ℕ) (counted : Bool) (key : String) (c : Cache S.vfs.State) (r : Retrieved)
      → (retrieve S P K R hash_key true now counted key c).0 ≡ found r
      → (raw : Text) × (meta : Meta) × (S.content (header (hash_key key)) c.backed.fs ≡ some raw)
        × (S.content (body (hash_key key)) c.backed.fs ≡ some r.text)
        × (decode_integrity K raw (codes key) true true ≡ checked meta)
        × (is_size K (length r.text) meta.size ≡ true)
        × (K.sha256_text r.text ≡ meta.body_sha256)
  retrieve_verified now counted key c r p =
      let (raw, text, h_there, there, q) = retrieve_answered now counted key c r p in
      let (h, m, answer, ok, same) =
        retrieve_with_checked now counted key text raw c r
          (read_header K R true (codes key) (some raw)) q in
      let (meta, named, decoded) = read_header_checked K R (codes key) raw h m answer in
      let fits = body_matches text meta (rw named at ok) in
      (raw, meta, h_there, rw same there, decoded, rw same (fits.0), rw same (fits.1))
