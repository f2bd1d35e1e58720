-- ===== src/Retrieval/Parsing.antt =====
-- cache.go: what readHeaderProvenance reads from a record that serializeIntegrityHeader wrote.
use mathlib.Core.List.{append_assoc, reverse-append}
use httpcache_kit.Common.{
  ◌==◌, nat_eq, arith, ◌∷◌, false, ℕ, ◌≡◌, refl, sym, ap, ◌∙◌, Bool, true, some, [], ◌++◌, reverse,
  Text, codes, text_key, nat_eq, not, ◌&&◌, contains,
}
use httpcache_kit.Http.Headers.{Headers}
use httpcache_kit.Records.Defs.{
  Meta, Codec, crlf, integrity_preamble, stored_at_preamble, after_prefix, http_record,
  serialize_integrity_header, is_well_formed,
}
use httpcache_kit.Records.Checks.{
  CodecLaws, signed, decode_integrity-serialize, after_prefix-append,
}
use httpcache_kit.Retrieval.Defs.{
  Reader, found, read_stored_at, parse_integrity_preamble, read_integrity_at, read_status,
  read_stored_headers, second_part, part_to_space, is_terminated, parse_record, judge_record,
  read_header,
}

abbrev pub is_line : Text → Bool
is_line t = not (contains 13 t) && not (contains 10 t)

module _ (K : Codec) (R : Reader) where
  abbrev pub status_line : ℕ → Text
  status_line code = codes "HTTP/1.1 " ++ (K.print_number code ++ (codes " " ++ K.status_text code))

  -- What textproto reads of a status and of headers that were printed; textproto's ReadLine ends a
  -- line at CRLF, and base64 writes neither byte.
  pub record ReaderLaws (code : ℕ) (h : Headers) : Type 0 where
    pub line_read :
        (line rest : Text)
        → is_line line ≡ true
        → R.read_line (line ++ (crlf ++ rest)) ≡ some (line, rest)
    pub encoded_line : (t : Text) → is_line (integrity_preamble ++ K.encode64 t) ≡ true
    pub one_line : is_line (status_line code) ≡ true
    pub unspaced : contains 32 (K.print_number code) ≡ false
    pub code_read : R.atoi (K.print_number code) ≡ some code
    pub header_read : R.read_mime_header (K.print_headers h ++ crlf) ≡ some h
    pub front : Text
    pub ended : crlf ++ (K.print_headers h ++ crlf) ≡ front ++ (crlf ++ crlf)

  http_record_lines :
      (code : ℕ) (h : Headers)
      → http_record K code h ≡ status_line code ++ (crlf ++ (K.print_headers h ++ crlf))
  unfolding http_record
  http_record_lines code h =
      let tail = crlf ++ (K.print_headers h ++ crlf) in
      sym (
        append_assoc (codes "HTTP/1.1 ") (K.print_number code ++ (codes " " ++ K.status_text code))
          tail
        ∙ ap (λ t. codes "HTTP/1.1 " ++ t)
            (append_assoc (K.print_number code) (codes " " ++ K.status_text code) tail
              ∙ ap (λ t. K.print_number code ++ t)
                  (append_assoc (codes " ") (K.status_text code) tail)))

  is_terminated-append : (t : Text) → is_terminated K R (t ++ (crlf ++ crlf)) ≡ true
  unfolding is_terminated
  is_terminated-append t =
      rw
        (
          is_terminated,
          reverse-append t (crlf ++ crlf),
          after_prefix-append (reverse (crlf ++ crlf)) (reverse t),
        )
        refl

  part_to_space-append :
      (t rest : Text) → contains 32 t ≡ false → part_to_space (t ++ (32 ∷ rest)) ≡ t
  unfolding part_to_space contains
  part_to_space-append [] rest clean = refl
  part_to_space-append (b ∷ t) rest clean =
      let ih = part_to_space-append t rest (ground arith) in
      let other : (b == 32) ≡ false = ground arith in rw (other, ih) refl

  second_part-status_line :
      (code : ℕ)
      → contains 32 (K.print_number code) ≡ false
      → second_part (status_line code) ≡ some (K.print_number code)
  unfolding second_part codes
  second_part-status_line code clean =
      ap some (part_to_space-append (K.print_number code) (K.status_text code) clean)

  module _ (code : ℕ) (h : Headers) (laws : CodecLaws K) (reads : ReaderLaws code h) where
    http_record_ends :
        (t : Text) → (front : Text) × (t ++ http_record K code h ≡ front ++ (crlf ++ crlf))
    http_record_ends t =
        let line = status_line code in
        (
          t ++ (line ++ reads.front),
          ap (λ u. t ++ u)
                (http_record_lines code h
                  ∙ ap (λ u. line ++ u) reads.ended
                  ∙ sym (append_assoc line reads.front (crlf ++ crlf)))
              ∙ sym (append_assoc t (line ++ reads.front) (crlf ++ crlf)),
        )

    read_status_lem :
        (at : ℕ)
        → read_status K R at (status_line code) (K.print_headers h ++ crlf)
          ≡ some (record { status_code = code; header = h; stored_at = at })
    unfolding read_status
    read_status_lem at =
        rw
          (
            read_status,
            second_part-status_line code reads.unspaced,
            reads.code_read,
            reads.header_read,
          )
          refl

    read_stored_at_lem :
        (t rest : Text)
        → read_stored_at K R (integrity_preamble ++ t) rest
          ≡ some (0, integrity_preamble ++ t, rest)
    unfolding read_stored_at after_prefix stored_at_preamble integrity_preamble codes
    read_stored_at_lem t rest = refl

    read_integrity_at_lem :
        (m : Meta) (at : ℕ)
        → read_integrity_at K R at
            (integrity_preamble ++ K.encode64 (K.marshal m))
            (http_record K code h)
          ≡ some (m.stored_at, status_line code, K.print_headers h ++ crlf)
    unfolding read_integrity_at parse_integrity_preamble
    read_integrity_at_lem m at =
        rw
          (
            read_integrity_at,
            after_prefix-append integrity_preamble (K.encode64 (K.marshal m)),
            parse_integrity_preamble,
            laws.decode-encode (K.marshal m),
            laws.unmarshal-marshal m,
            http_record_lines code h,
            reads.line_read (status_line code) (K.print_headers h ++ crlf) reads.one_line,
          )
          refl

    serialize_integrity_header_lines :
        (meta : Meta)
        → serialize_integrity_header K code h meta
          ≡ (integrity_preamble ++ K.encode64 (K.marshal (signed K code h meta)))
            ++ (crlf ++ http_record K code h)
    unfolding serialize_integrity_header signed
    serialize_integrity_header_lines meta = sym (
        append_assoc integrity_preamble (K.encode64 (K.marshal (signed K code h meta)))
          (crlf ++ http_record K code h))

    read_stored_headers-serialize :
        (meta : Meta)
        → read_stored_headers K R (serialize_integrity_header K code h meta)
          ≡ some (record { status_code = code; header = h; stored_at = meta.stored_at })
    unfolding read_stored_headers signed
    read_stored_headers-serialize meta =
        let m = signed K code h meta in
        let line = K.encode64 (K.marshal m) in
        let rest = http_record K code h in
        rw
          (
            serialize_integrity_header_lines meta,
            read_stored_headers,
            reads.line_read (integrity_preamble ++ line) rest (reads.encoded_line (K.marshal m)),
            read_stored_at_lem line rest,
            read_integrity_at_lem m 0,
            read_status_lem m.stored_at,
          )
          refl

    -- The header that was serialized for a key is read back under it, with its time and metadata.
    pub read_header-serialize :
        (meta : Meta) (key : Text)
        → is_well_formed K (record meta { header_sha256 = K.sha256_text [] }) ≡ true
        → meta.key_sha256 ≡ K.sha256_text key
        → read_header K R true key (some (serialize_integrity_header K code h meta))
          ≡ found (
            record { status_code = code; header = h; stored_at = meta.stored_at },
            some (signed K code h meta),
          )
    unfolding read_header judge_record parse_record
    read_header-serialize meta key good named =
        let raw = serialize_integrity_header K code h meta in
        let line = K.encode64 (K.marshal (signed K code h meta)) in
        let ends = http_record_ends ((integrity_preamble ++ line) ++ crlf) in
        let whole : is_terminated K R raw ≡ true =
          rw
            (serialize_integrity_header_lines meta
              ∙ sym (append_assoc (integrity_preamble ++ line) crlf (http_record K code h))
              ∙ ends.1)
            (is_terminated-append ends.0) in
        rw
          (
            read_header,
            whole,
            decode_integrity-serialize K laws code h meta key true good named,
            judge_record,
            read_stored_headers-serialize meta,
          )
          refl
