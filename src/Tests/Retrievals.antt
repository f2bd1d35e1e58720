-- ===== src/Tests/Retrievals.antt =====
-- An entry that was stored, and read back.
use httpcache_kit.Common.{
  String, All, contains, arith, ◌++◌, ℕ, ◌≡◌, refl, true, false, Option, none, some, [], ◌∷◌,
  length, Text, codes, text_key, nat_eq, string_eq,
}
use httpcache_kit.Vfs.{body, header}
use httpcache_kit.Cache.Defs.{Cache, record_hit, record_miss}
use httpcache_kit.Ledger.Defs.{entry_stored_at, touch_entry}
use httpcache_kit.Stale.Defs.{complete}
use httpcache_kit.Policy.Resource.{stored_after, mark_stale}
use httpcache_kit.Records.Defs.{
  integrity_preamble, Meta, checked, cut_line, after_prefix, is_size, is_well_formed, check_meta,
  decode_line, decode_integrity, verify_stored_body,
}
use httpcache_kit.Transactions.Store.{store_context}
use httpcache_kit.Retrieval.Defs.{
  second_part, part_to_space, Reader, Retrieved, found, missing, read_stored_at,
  parse_integrity_preamble, read_integrity_at, read_status, read_stored_headers, is_terminated,
  parse_record, judge_record, read_header, read_body, count_miss, resource_of, retrieve_with,
  retrieve, discard_corrupt, integrity_result, retrieve_recorded,
}
use httpcache_kit.Retrieval.Verified.{retrieve_verified}
use httpcache_kit.Retrieval.Parsing.{is_line, ReaderLaws}
use httpcache_kit.Retrieval.RoundTrip.{IsReturned, retrieve-store_context}
use httpcache_kit.Records.Checks.{CodecLaws, cut_line-append}
use httpcache_kit.Tests.Codecs.{codec, codec_laws, encode64}
use httpcache_kit.Tests.Disks.{Contents, disk_laws}
use httpcache_kit.Tests.Stores.{program, setting, cache, keys, sound}
use httpcache_kit.Tests.Web.{platform}

abbrev number : Option Text → Option ℕ
number (some (n ∷ rest)) = some n
number _ = none

-- Times and status codes are one byte each; the codec prints no headers, and the reader returns those
-- of the setting.
abbrev reader : Reader
unfolding codes
reader = record {
  read_line = cut_line;
  read_mime_header = λ t. some setting.res.header;
  atoi = λ t. number (some t);
  parse_time = λ t. number (some t);
}

abbrev filled : Cache Contents
filled = (store_context sound setting complete 100 false false keys cache).1

reading : Unit {0}
unfolding program cut_line after_prefix is_well_formed check_meta decode_line decode_integrity
    verify_stored_body read_stored_at parse_integrity_preamble read_integrity_at read_status
    second_part part_to_space read_stored_headers is_terminated parse_record judge_record
    read_header read_body count_miss resource_of retrieve_with retrieve entry_stored_at touch_entry
    stored_after mark_stale record_hit record_miss discard_corrupt integrity_result
    retrieve_recorded
reading = tt

abbrev read_back : Retrieved
read_back = record {
  resource = record {
    header = setting.res.header;
    status_code = 200;
    cc = none;
    stale = false;
    stored_at = 100;
    request_time = 0;
    handler_stored_at = 0;
  };
  text = 10 ∷ 20 ∷ 30 ∷ [];
}

hit :
    (retrieve sound platform codec reader setting.hash_key true 200 true "GET:/a" filled).0
    ≡ found read_back
unfolding reading
hit = refl

-- What was not stored is a miss.
unstored :
    (retrieve sound platform codec reader setting.hash_key true 200 true "GET:/a" cache).0 ≡ missing
unfolding reading
unstored = refl

retrieve_verified_example :
    (raw : Text) × (meta : Meta) × (sound.content
        (header (setting.hash_key "GET:/a"))
        filled.backed.fs
      ≡ some raw)
    × (sound.content (body (setting.hash_key "GET:/a")) filled.backed.fs ≡ some read_back.text)
    × (decode_integrity codec raw (codes "GET:/a") true true ≡ checked meta)
    × (is_size codec (length read_back.text) meta.size ≡ true)
    × (codec.sha256_text read_back.text ≡ meta.body_sha256)
retrieve_verified_example =
    retrieve_verified sound platform codec reader setting.hash_key 200 true "GET:/a" filled
      read_back hit

encode64_line : (t : Text) → is_line (encode64 t) ≡ true
unfolding contains
encode64_line [] = refl
encode64_line (b ∷ t) = ground (arith, encode64_line t)

preamble_line : (t : Text) → is_line t ≡ true → is_line (integrity_preamble ++ t) ≡ true
unfolding contains integrity_preamble codes
preamble_line t clean = clean

reader_laws : ReaderLaws codec reader 200 setting.res.header
unfolding codes contains after_prefix
reader_laws = record {
  line_read = λ line rest clean. cut_line-append line rest (ground arith);
  encoded_line = λ t. preamble_line (encode64 t) (encode64_line t);
  one_line = refl;
  unspaced = refl;
  code_read = refl;
  header_read = refl;
  front = [];
  ended = refl;
}

setting_laws :
    CodecLaws setting.codec
    × ReaderLaws setting.codec reader setting.res.status_code setting.res.header
    × (setting.sha256 ≡ true)
unfolding codes
setting_laws = (codec_laws, reader_laws, refl)

stored : (store_context sound setting complete 100 false false keys cache).0 ≡ true
unfolding program
stored = refl

retrieve-store_context_example :
    All
      (λ key.
        (first : String) × (setting.hash_key first ≡ setting.hash_key key)
        × ((r : Retrieved) × ((retrieve sound setting.platform setting.codec reader setting.hash_key
                true 200 true first filled).0
              ≡ found r)
            × IsReturned setting 100 first cache.markers.stale r))
      keys
retrieve-store_context_example =
    retrieve-store_context sound setting reader setting_laws.0 setting_laws.1 setting_laws.2 100
      refl (disk_laws true (λ p. true)) complete false false keys cache 200 true
      (unfold program in refl) stored
