-- ===== src/Tests/Codecs.antt =====
-- An encoding of integrity records that keeps the laws of the platform's, and records in it.
use httpcache_kit.Common.{
  ℕ, ◌+◌, ◌-◌, ◌≡◌, refl, true, false, Option, none, some, [], ◌∷◌, ◌++◌, Text, codes, length,
  sum_by, ℤ, pos, negsuc, nat_eq, ◌==◌, arith, contains, if◌then◌else◌, map, text_key,
}
use httpcache_kit.Records.Defs.{
  Meta, Codec, checked, crlf, integrity_preamble, after_prefix, cut_line, http_record,
  record_digest, serialize_integrity_header, is_well_formed, check_meta, decode_line,
  decode_integrity,
}
use httpcache_kit.Records.Checks.{
  CodecLaws, signed, decode_integrity-serialize, decode_integrity_sound,
}

abbrev split : ℕ → Text → Text × Text
split n [] = ([], [])
split n (b ∷ s) =
    let (front, back) = split (n - 1) s in if n == 0 then ([], b ∷ s) else (b ∷ front, back)

split-append : (t rest : Text) → split (length t) (t ++ rest) ≡ (t, rest)
split-append [] [] = refl
split-append [] (b ∷ rest) = refl
split-append (b ∷ t) rest = ground (arith, split-append t rest)

-- A text behind its length.
abbrev with_length : Text → Text → Text
with_length t rest = length t ∷ (t ++ rest)

abbrev print_size : ℤ → Text → Text
print_size (pos n) rest = 0 ∷ n ∷ rest
print_size (negsuc n) rest = 1 ∷ n ∷ rest

abbrev marshal : Meta → Text
marshal m =
    m.stored_at
    ∷ print_size m.size
        (with_length m.body_sha256 (with_length m.header_sha256 (with_length m.key_sha256 [])))

abbrev read_text : Text → Text × Text
read_text [] = ([], [])
read_text (n ∷ s) = split n s

abbrev unmarshal : Text → Option Meta
unmarshal (at ∷ sign ∷ n ∷ s) =
    let (b, s1) = read_text s in
    let (h, s2) = read_text s1 in
    let (k, s3) = read_text s2 in
    some (record {
      stored_at = at;
      size = if sign == 0 then pos n else negsuc n;
      body_sha256 = b;
      header_sha256 = h;
      key_sha256 = k;
    })
unmarshal _ = none

unmarshal-marshal : (m : Meta) → unmarshal (marshal m) ≡ some m
unmarshal-marshal m = sized m.size
  where
    sized : (n : ℤ) → unmarshal (marshal (record m { size = n })) ≡ some (record m { size = n })
    sized (pos n) =
        rw
          (
            split-append m.body_sha256 (with_length m.header_sha256 (with_length m.key_sha256 [])),
            split-append m.header_sha256 (with_length m.key_sha256 []),
            split-append m.key_sha256 [],
          )
          refl
    sized (negsuc n) =
        rw
          (
            split-append m.body_sha256 (with_length m.header_sha256 (with_length m.key_sha256 [])),
            split-append m.header_sha256 (with_length m.key_sha256 []),
            split-append m.key_sha256 [],
          )
          refl

-- Bytes are moved past the carriage return.
abbrev pub encode64 : Text → Text
encode64 t = map (λ b. b + 14) t

abbrev decode64 : Text → Option Text
decode64 t = some (map (λ b. b - 14) t)

decode-encode : (t : Text) → decode64 (encode64 t) ≡ some t
decode-encode [] = refl
decode-encode (b ∷ t) = ground (arith, decode-encode t)

encode_line : (t : Text) → contains 13 (encode64 t) ≡ false
unfolding contains
encode_line [] = refl
encode_line (b ∷ t) = ground (arith, encode_line t)

abbrev pub codec : Codec
codec = record {
  sha256_text = λ t. sum_by (λ b. b) t ∷ [];
  is_digest = λ t. length t == 1;
  marshal = marshal;
  unmarshal = unmarshal;
  encode64 = encode64;
  decode64 = decode64;
  print_headers = λ h. [];
  print_number = λ n. n ∷ [];
  status_text = λ n. [];
  print_time = λ n. n ∷ [];
}

pub codec_laws : CodecLaws codec
codec_laws = record {
  decode-encode = decode-encode;
  encode_line = encode_line;
  unmarshal-marshal = unmarshal-marshal;
  digest = λ t. refl;
}

program : Unit {0}
unfolding codes integrity_preamble after_prefix cut_line http_record record_digest
    serialize_integrity_header is_well_formed check_meta decode_line decode_integrity
program = tt

abbrev sample : Meta
sample = record {
  stored_at = 7;
  size = pos 3;
  body_sha256 = 5 ∷ [];
  header_sha256 = [];
  key_sha256 = codec.sha256_text (1 ∷ 2 ∷ []);
}

decode_integrity-serialize_example :
    decode_integrity codec (serialize_integrity_header codec 200 [] sample) (1 ∷ 2 ∷ []) true true
    ≡ checked (signed codec 200 [] sample)
decode_integrity-serialize_example =
    decode_integrity-serialize codec codec_laws 200 [] sample (1 ∷ 2 ∷ []) true
      (unfold program in refl) refl

decode_integrity_sound_example :
    (line : Text) × (text : Text) × (serialize_integrity_header codec 200 [] sample
      ≡ integrity_preamble ++ (line ++ (crlf ++ text)))
    × ((signed codec 200 [] sample).header_sha256
        ≡ record_digest codec (signed codec 200 [] sample) text)
    × ((signed codec 200 [] sample).key_sha256 ≡ codec.sha256_text (1 ∷ 2 ∷ []))
decode_integrity_sound_example =
    decode_integrity_sound codec (serialize_integrity_header codec 200 [] sample) (1 ∷ 2 ∷ [])
      (signed codec 200 [] sample) decode_integrity-serialize_example
