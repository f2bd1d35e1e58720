-- ===== src/Records/Defs.antt =====
-- integrity.go: the integrity record, its serialization and decodeIntegrity; cache.go:
-- serializeStoredHeader, serializeCacheHeader and the terminator of a record.
--
-- SHA-256 in hexadecimal, JSON, base64, the layout of http.Header.Write and of times are the
-- platform's. A text is a list of bytes.
use httpcache_kit.Common.{
  ℤ, pos, negsuc, ltb_ℤ, false, ℕ, Bool, ◌&&◌, ◌||◌, not, Option, none, some, [], ◌∷◌, ◌++◌, Text,
  codes, length, text_key, nat_eq, ◌==◌, if◌then◌else◌,
}
use httpcache_kit.Http.Headers.{Headers}

-- integrityRecord, but for its fingerprint.
pub record Meta : Type 0 where
  pub stored_at : ℕ
  pub size : ℤ
  pub body_sha256 : Text
  pub header_sha256 : Text
  pub key_sha256 : Text

pub record Codec : Type 0 where
  -- sha256Text
  pub sha256_text : Text → Text
  -- hex.DecodeString succeeds with 32 bytes
  pub is_digest : Text → Bool
  pub marshal : Meta → Text
  pub unmarshal : Text → Option Meta
  pub encode64 : Text → Text
  pub decode64 : Text → Option Text
  -- http.Header.Write
  pub print_headers : Headers → Text
  -- strconv.Itoa, http.StatusText and time.Time.Format(time.RFC3339Nano)
  pub print_number : ℕ → Text
  pub status_text : ℕ → Text
  pub print_time : ℕ → Text

abbrev pub crlf : Text
crlf = 13 ∷ 10 ∷ []

unfoldable pub integrity_preamble : Text
unfolding codes
integrity_preamble = codes "HTTPCACHE/2 "

unfoldable pub stored_at_preamble : Text
unfolding codes
stored_at_preamble = codes "HTTPCACHE/1 "

-- bytes.HasPrefix, with what follows the prefix.
unfoldable pub after_prefix : Text → Text → Option Text
after_prefix [] s = some s
after_prefix (a ∷ p) [] = none
after_prefix (a ∷ p) (b ∷ s) = let rest = after_prefix p s in if a == b then rest else none

-- The text before the first CRLF and the text behind it.
unfoldable pub cut_line : Text → Option (Text × Text)
cut_line [] = none
cut_line (a ∷ s) = elim (after_prefix crlf (a ∷ s)) [
  | some rest ↦ some ([], rest)
  | none ↦ elim (cut_line s) [ none ↦ none | some (line, rest) ↦ some (a ∷ line, rest) ]
]

-- Why an entry is corrupt.
pub data Fault : Type 0 where
  digest_missing incomplete bad_encoding bad_metadata mismatch : Fault

-- No record, for an entry of the old format; a checked record; or a corrupt entry.
pub data Decoded : Type 0 where
  plain : Decoded
  checked : Meta → Decoded
  corrupt : Fault → Decoded

module _ (K : Codec) where
  -- The status line and the header fields, ended by an empty line.
  unfoldable pub http_record : ℕ → Headers → Text
  http_record code header =
      codes "HTTP/1.1 "
      ++ (K.print_number code
          ++ (codes " " ++ (K.status_text code ++ (crlf ++ (K.print_headers header ++ crlf)))))

  unfoldable pub record_digest : Meta → Text → Text
  record_digest meta text =
      K.sha256_text (K.marshal (record meta { header_sha256 = [] }) ++ (10 ∷ text))

  unfoldable pub serialize_integrity_header : ℕ → Headers → Meta → Text
  serialize_integrity_header code header meta =
      let text = http_record code header in
      let signed = record meta { header_sha256 = record_digest meta text } in
      integrity_preamble ++ (K.encode64 (K.marshal signed) ++ (crlf ++ text))

  unfoldable pub is_well_formed : Meta → Bool
  is_well_formed meta =
      not (meta.stored_at == 0)
      && not (ltb_ℤ meta.size (pos 0))
      && K.is_digest meta.body_sha256
      && K.is_digest meta.header_sha256
      && K.is_digest meta.key_sha256

  unfoldable pub check_meta : Text → Bool → Text → Option Meta → Decoded
  check_meta key check_key text none = corrupt bad_metadata
  check_meta key check_key text (some meta) =
      if not (is_well_formed meta)
      then corrupt bad_metadata
      else if (check_key && not (meta.key_sha256 == K.sha256_text key))
          || not (meta.header_sha256 == record_digest meta text)
      then corrupt mismatch
      else checked meta

  unfoldable pub decode_line : Text → Bool → Option (Text × Text) → Decoded
  decode_line key check_key none = corrupt incomplete
  decode_line key check_key (some (line, text)) = elim (K.decode64 line) [
    | none ↦ corrupt bad_encoding
    | some encoded ↦ check_meta key check_key text (K.unmarshal encoded)
  ]

  -- decodeIntegrityRecord
  unfoldable pub decode_integrity : Text → Text → Bool → Bool → Decoded
  decode_integrity raw key required check_key = elim (after_prefix integrity_preamble raw) [
    | none ↦ if required then corrupt digest_missing else plain
    | some rest ↦ decode_line key check_key (cut_line rest)
  ]

  unfoldable pub serialize_stored_header : ℕ → Headers → ℕ → Text
  serialize_stored_header code header stored_at =
      stored_at_preamble ++ (K.print_time stored_at ++ (crlf ++ http_record code header))

  -- `sha256` is config.Integrity != IntegrityDisabled.
  unfoldable pub serialize_cache_header : Bool → ℕ → Headers → ℕ → Text → ℤ → Text → Text
  serialize_cache_header sha256 code header at key size digest =
      if sha256
      then serialize_integrity_header code header (record {
        stored_at = at;
        size = size;
        body_sha256 = digest;
        header_sha256 = [];
        key_sha256 = K.sha256_text key;
      })
      else serialize_stored_header code header at

  abbrev pub is_size : ℕ → ℤ → Bool
  is_size n (pos m) = n == m
  is_size n (negsuc m) = false

  -- verifyStoredBody, of a body that can be read.
  unfoldable pub verify_stored_body : Text → Meta → Bool
  verify_stored_body body meta =
      is_size (length body) meta.size && (K.sha256_text body == meta.body_sha256)
