-- ===== src/Records/Checks.antt =====
-- integrity.go: decodeIntegrity, against what serializeIntegrityHeader writes and what it accepts.
use mathlib.Core.Path.{subst}
use httpcache_kit.Common.{
  ℕ, ◌≡◌, refl, sym, ap, ◌∙◌, Bool, true, false, Option, none, some, [], ◌∷◌, ◌++◌, Text, text_key,
  nat_eq, ◌==◌, arith, contains, text_eqb_iff, Bool-cases, Option-cases, inl, inr,
}
use httpcache_kit.Http.Headers.{Headers}
use httpcache_kit.Records.Defs.{
  Meta, Codec, crlf, integrity_preamble, after_prefix, cut_line, digest_missing, checked, corrupt,
  http_record, record_digest, serialize_integrity_header, is_well_formed, check_meta, decode_line,
  decode_integrity,
}

pub after_prefix-append : (p s : Text) → after_prefix p (p ++ s) ≡ some s
unfolding after_prefix
after_prefix-append [] s = refl
after_prefix-append (a ∷ p) s = ground (arith, after_prefix-append p s)

after_prefix_sound : (p s rest : Text) → after_prefix p s ≡ some rest → s ≡ p ++ rest
unfolding after_prefix
after_prefix_sound [] s rest h = ground arith
after_prefix_sound (a ∷ p) [] rest h = ground arith
after_prefix_sound (a ∷ p) (b ∷ s) rest h = ground (arith, after_prefix_sound p s rest)

after_crlf_no_cr : (a : ℕ) (s : Text) → (a == 13) ≡ false → after_prefix crlf (a ∷ s) ≡ none
unfolding after_prefix
after_crlf_no_cr a s h = ground arith

pub cut_line-append :
    (line rest : Text)
    → contains 13 line ≡ false
    → cut_line (line ++ (crlf ++ rest)) ≡ some (line, rest)
unfolding cut_line contains
cut_line-append [] rest h = rw (cut_line, after_prefix-append crlf rest) refl
cut_line-append (a ∷ line) rest h =
    let e : (a == 13) ≡ false = ground arith in
    rw
      (
        cut_line,
        after_crlf_no_cr a (line ++ (crlf ++ rest)) e,
        cut_line-append line rest (ground arith),
      )
      refl

cut_line_sound : (s line rest : Text) → cut_line s ≡ some (line, rest) → s ≡ line ++ (crlf ++ rest)
unfolding cut_line
cut_line_sound [] line rest h = ground arith
cut_line_sound (a ∷ s) line rest h = elim (Option-cases (after_prefix crlf (a ∷ s))) [
  | inr (r, ended) ↦
      let start = after_prefix_sound crlf (a ∷ s) r ended in
      let same : ◌≡◌ {A = Option (Text × Text)} (some ([], r)) (some (line, rest)) =
        rw (cut_line, ended) at h in
      ground arith
  | inl going ↦ elim (Option-cases (cut_line s)) [
    | inl never ↦
        let same : ◌≡◌ {A = Option (Text × Text)} none (some (line, rest)) =
          rw (cut_line, going, never) at h in
        ground arith
    | inr ((l, r), later) ↦
        let ih = cut_line_sound s l r later in
        let same : ◌≡◌ {A = Option (Text × Text)} (some (a ∷ l, r)) (some (line, rest)) =
          rw (cut_line, going, later) at h in
        ground arith
  ]
]

-- What the platform documents of the encodings: each decodes what it encoded, base64 has no
-- carriage return, and a digest is one.
pub record CodecLaws (K : Codec) : Type 0 where
  pub decode-encode : (t : Text) → K.decode64 (K.encode64 t) ≡ some t
  pub encode_line : (t : Text) → contains 13 (K.encode64 t) ≡ false
  pub unmarshal-marshal : (m : Meta) → K.unmarshal (K.marshal m) ≡ some m
  pub digest : (t : Text) → K.is_digest (K.sha256_text t) ≡ true

module _ (K : Codec) where
  -- The metadata with the digest that serializeIntegrityHeader signs them with.
  unfoldable pub signed : ℕ → Headers → Meta → Meta
  signed code header meta = record meta {
    header_sha256 = record_digest K meta (http_record K code header);
  }

  resigned :
      (meta : Meta) (d text : Text)
      → record_digest K (record meta { header_sha256 = d }) text ≡ record_digest K meta text
  unfolding record_digest
  resigned meta d text = refl

  signed-well_formed :
      (laws : CodecLaws K) (code : ℕ) (header : Headers) (meta : Meta)
      → is_well_formed K (record meta { header_sha256 = K.sha256_text [] }) ≡ true
      → is_well_formed K (signed code header meta) ≡ true
  unfolding is_well_formed signed record_digest
  signed-well_formed laws code header meta h = ground (
    arith,
    laws.digest
        (K.marshal (record meta { header_sha256 = [] }) ++ (10 ∷ http_record K code header)),
  )

  check_meta-signed :
      (meta : Meta) (key text : Text)
      → is_well_formed K meta ≡ true
      → meta.key_sha256 ≡ K.sha256_text key
      → meta.header_sha256 ≡ record_digest K meta text
      → check_meta K key true text (some meta) ≡ checked meta
  unfolding check_meta
  check_meta-signed meta key text good named digest = ground (
    arith,
    text_eqb_iff meta.key_sha256 (K.sha256_text key),
    text_eqb_iff meta.header_sha256 (record_digest K meta text),
  )

  -- A record that was serialized for a key is accepted under that key, with the metadata it was
  -- given, signed, if they are well-formed and name the key.
  pub decode_integrity-serialize :
      (laws : CodecLaws K) (code : ℕ) (header : Headers) (meta : Meta) (key : Text)
      (required : Bool)
      → is_well_formed K (record meta { header_sha256 = K.sha256_text [] }) ≡ true
      → meta.key_sha256 ≡ K.sha256_text key
      → decode_integrity K (serialize_integrity_header K code header meta) key required true
        ≡ checked (signed code header meta)
  unfolding decode_integrity serialize_integrity_header decode_line signed
  decode_integrity-serialize laws code header meta key required good named =
      let text = http_record K code header in
      let m = signed code header meta in
      let line = K.encode64 (K.marshal m) in
      let accepted =
        check_meta-signed m key text (signed-well_formed laws code header meta good) named
          (sym (resigned meta (record_digest K meta text) text)) in
      rw
        (
          decode_integrity,
          serialize_integrity_header,
          after_prefix-append integrity_preamble (line ++ (crlf ++ text)),
          cut_line-append line text (laws.encode_line (K.marshal m)),
          decode_line,
          laws.decode-encode (K.marshal m),
          laws.unmarshal-marshal m,
        )
        accepted

  check_meta_sound :
      (key text : Text) (o : Option Meta) (meta : Meta)
      → check_meta K key true text o ≡ checked meta
      → (meta.header_sha256 ≡ record_digest K meta text) × (meta.key_sha256 ≡ K.sha256_text key)
  unfolding check_meta
  check_meta_sound key text none meta h = ground arith
  check_meta_sound key text (some m) meta h = elim (Bool-cases (is_well_formed K m)) [
    | inr bad ↦ ground arith
    | inl good ↦ elim (Bool-cases (m.key_sha256 == K.sha256_text key)) [
      | inr other ↦ ground arith
      | inl named ↦ elim (Bool-cases (m.header_sha256 == record_digest K m text)) [
        | inr other ↦ ground arith
        | inl digest ↦
            let same : checked m ≡ checked meta = rw (good, named, digest) at h in
            let e : m ≡ meta = ground arith in
            subst
              (λ x. (x.header_sha256 ≡ record_digest K x text) × (x.key_sha256 ≡ K.sha256_text key))
              e
              (
                (text_eqb_iff m.header_sha256 (record_digest K m text)).0 digest,
                (text_eqb_iff m.key_sha256 (K.sha256_text key)).0 named,
              )
      ]
    ]
  ]

  decode_line_sound :
      (key : Text) (o : Option (Text × Text)) (meta : Meta)
      → decode_line K key true o ≡ checked meta
      → (line : Text) × (text : Text) × (o ≡ some (line, text))
        × (meta.header_sha256 ≡ record_digest K meta text)
        × (meta.key_sha256 ≡ K.sha256_text key)
  unfolding decode_line
  decode_line_sound key none meta h = ground arith
  decode_line_sound key (some (line, text)) meta h = elim (Option-cases (K.decode64 line)) [
    | inl bad ↦ ground arith
    | inr (encoded, good) ↦
        let c : check_meta K key true text (K.unmarshal encoded) ≡ checked meta =
          rw (decode_line, good) at h in
        let (digest, named) = check_meta_sound key text (K.unmarshal encoded) meta c in
        (line, text, refl, digest, named)
  ]

  -- A record accepted under a key, where one is required: the text behind its metadata is the one
  -- that they were signed with, and they name the key.
  pub decode_integrity_sound :
      (raw key : Text) (meta : Meta)
      → decode_integrity K raw key true true ≡ checked meta
      → (line : Text) × (text : Text) × (raw ≡ integrity_preamble ++ (line ++ (crlf ++ text)))
        × (meta.header_sha256 ≡ record_digest K meta text)
        × (meta.key_sha256 ≡ K.sha256_text key)
  unfolding decode_integrity
  decode_integrity_sound raw key meta h =
      elim (Option-cases (after_prefix integrity_preamble raw)) [
        | inl bare ↦
            let c : corrupt digest_missing ≡ checked meta = rw (decode_integrity, bare) at h in
            ground arith
        | inr (rest, there) ↦
            let c : decode_line K key true (cut_line rest) ≡ checked meta =
              rw (decode_integrity, there) at h in
            let (line, text, cut, digest, named) = decode_line_sound key (cut_line rest) meta c in
            let whole =
              after_prefix_sound integrity_preamble raw rest there
              ∙ ap (λ s. integrity_preamble ++ s) (cut_line_sound rest line text cut) in
            (line, text, whole, digest, named)
      ]
