-- ===== src/Retrieval/RoundTrip.antt =====
-- cache.go: what Retrieve returns behind a Store.
use mathlib.Core.Path.{subst}
use httpcache_kit.Common.{
  string_eq, none, not, ltb, lookup, ℕ, ◌≡◌, refl, sym, ap, ◌∙◌, Bool, true, false, some, List, [],
  ◌∷◌, String, Text, codes, text_key, length, ◌==◌, nat_eq, arith, pos, All, map, text_eqb_iff,
  if◌then◌else◌,
}
use httpcache_kit.Stale.Defs.{Marks, Outcome, stale_at}
use httpcache_kit.Policy.Resource.{stored_after, mark_stale}
use httpcache_kit.Cache.Defs.{Cache}
use httpcache_kit.Records.Defs.{
  Meta, is_well_formed, serialize_integrity_header, serialize_cache_header, verify_stored_body,
}
use httpcache_kit.Records.Checks.{CodecLaws, signed}
use httpcache_kit.Transactions.Storage.{Storage, StorageLaws}
use httpcache_kit.Transactions.Defs.{
  Setting, serialized, body_text, body_digest, response_superseded, unique_keys,
}
use httpcache_kit.Transactions.Store.{store_context}
use httpcache_kit.Transactions.Atomicity.{target_at}
use httpcache_kit.Transactions.Contents.{header_text}
use httpcache_kit.Transactions.Commit.{IsFiled}
use httpcache_kit.Transactions.Stored.{store_context-IsFiled}
use httpcache_kit.Transactions.Holdings.{
  IsBody, body_text-IsBody, each_unique, store_context_markers,
}
use httpcache_kit.Retrieval.Defs.{
  Reader, StoredHeader, found, Retrieved, read_body, resource_of, retrieve_with, retrieve,
}
use httpcache_kit.Retrieval.Parsing.{ReaderLaws, read_header-serialize}

-- The metadata that a store writes, but for the digest of the record.
abbrev meta_of : Setting → ℕ → String → Meta
meta_of X now key = record {
  stored_at = now;
  size = pos (length (body_text X));
  body_sha256 = body_digest X;
  header_sha256 = [];
  key_sha256 = X.codec.sha256_text (codes key);
}

abbrev written_header : Setting → ℕ → StoredHeader
written_header X now = record {
  status_code = X.res.status_code;
  header = X.res.header;
  stored_at = now;
}

-- A hit on a stored response: the status, the header and the time of the store, the first bytes of
-- the body, and stale exactly if the key has a marker that the store is not after.
pub record IsReturned (X : Setting) (now : ℕ) (key : String) (marks : Marks) (r : Retrieved)
    : Type 0 where
  pub status : r.resource.status_code ≡ X.res.status_code
  pub fields : r.resource.header ≡ X.res.header
  pub time : r.resource.stored_at ≡ now
  pub judged :
      r.resource.stale ≡ elim (lookup key marks) [ none ↦ false | some at ↦ not (ltb at now) ]
  pub is_body : IsBody X r.text

-- The response of a store, as a cache returns it.
abbrev returned : (S : Storage) → Reader → Setting → ℕ → String → Cache S.vfs.State → Retrieved
returned S R X now key c = record {
  resource = resource_of S X.platform X.codec R X.hash_key key (written_header X now) c;
  text = body_text X;
}

returned-IsReturned :
    (S : Storage) (R : Reader) (X : Setting) (now : ℕ) (key : String) (c : Cache S.vfs.State)
    → (now == 0) ≡ false
    → IsReturned X now key c.markers.stale (returned S R X now key c)
unfolding resource_of stale_at stored_after mark_stale
returned-IsReturned S R X now key c late = record {
  status = ground (arith, late);
  fields = ground (arith, late);
  time = ground (arith, late);
  judged = ground (arith, late);
  is_body = body_text-IsBody X;
}

header_text_lem :
    (X : Setting) (now : ℕ) (key : String)
    → X.sha256 ≡ true
    → header_text X (target_at X now key)
      ≡ serialize_integrity_header X.codec X.res.status_code X.res.header (meta_of X now key)
unfolding serialized serialize_cache_header
header_text_lem X now key on = rw (serialized, serialize_cache_header, on) refl

meta_of-well_formed :
    (X : Setting) (now : ℕ) (key : String)
    → CodecLaws X.codec
    → (now == 0) ≡ false
    → is_well_formed X.codec (record (meta_of X now key) { header_sha256 = X.codec.sha256_text [] })
      ≡ true
unfolding is_well_formed body_digest
meta_of-well_formed X now key laws late =
    let bytes : Text = if X.sha256 then body_text X else [] in
    rw (is_well_formed, late, laws.digest bytes, laws.digest [], laws.digest (codes key))
      (ground arith)

read_body_lem :
    (X : Setting) (R : Reader) (m : Meta)
    → m.size ≡ pos (length (body_text X))
    → m.body_sha256 ≡ X.codec.sha256_text (body_text X)
    → read_body X.codec R (body_text X) (some m) ≡ true
unfolding read_body verify_stored_body
read_body_lem X R m sized digest =
    let own = (text_eqb_iff (X.codec.sha256_text (body_text X)) m.body_sha256).1 (sym digest) in
    rw (read_body, verify_stored_body, sized, own) (ground arith)

module _ (S : Storage) (X : Setting) (R : Reader) (laws : CodecLaws X.codec)
    (reads : ReaderLaws X.codec R X.res.status_code X.res.header) (on : X.sha256 ≡ true) (now : ℕ)
    (late : (now == 0) ≡ false) where
  retrieve-filed :
      (later : ℕ) (counted : Bool) (key : String) (c : Cache S.vfs.State)
      → IsFiled S X c.backed.fs (target_at X now key)
      → (retrieve S X.platform X.codec R X.hash_key true later counted key c).0
        ≡ found (returned S R X now key c)
  unfolding retrieve retrieve_with body_digest signed
  retrieve-filed later counted key c filed =
      let meta = meta_of X now key in
      let m = signed X.codec X.res.status_code X.res.header meta in
      let digest : m.body_sha256 ≡ X.codec.sha256_text (body_text X) = rw (body_digest, on) refl in
      rw
        (
          retrieve,
          filed.0,
          filed.1 ∙ ap some (header_text_lem X now key on),
          read_header-serialize X.codec R X.res.status_code X.res.header laws reads meta (codes key)
              (meta_of-well_formed X now key laws late) refl,
          retrieve_with,
          read_body_lem X R m refl digest,
        )
        refl

  each_retrieved :
      (later : ℕ) (counted : Bool) (keys : List String) (c : Cache S.vfs.State)
      → All (IsFiled S X c.backed.fs) (map (target_at X now) keys)
      → All
          (λ key.
            (r : Retrieved) × ((retrieve S X.platform X.codec R X.hash_key true later counted key
                c).0
              ≡ found r)
            × IsReturned X now key c.markers.stale r)
          keys
  each_retrieved later counted [] c filed = tt
  each_retrieved later counted (key ∷ keys) c filed = (
    (
      returned S R X now key c,
      retrieve-filed later counted key c filed.0,
      returned-IsReturned S R X now key c late,
    ),
    each_retrieved later counted keys c filed.1,
  )

  -- A successful Store is read back: with integrity on, each of its keys, or the first of them that
  -- has the same hash, is a hit with the stored status and header, stored at the time of the store,
  -- with the response's first bytes, as many as its Content-Length says if it says so and there are
  -- as many, and all of them otherwise. The hit is stale exactly if the key had a marker before that
  -- is not before the time of the store. The storage, the codec and the reader keep their laws, the
  -- time is not the zero time, and no marker superseded the store.
  pub retrieve-store_context :
      (L : StorageLaws S) (w : Outcome) (ended stopped : Bool) (keys : List String)
      (c : Cache S.vfs.State) (later : ℕ) (counted : Bool)
      → response_superseded X.platform X.res (unique_keys X.hash_key [] keys) c.markers ≡ false
      → (store_context S X w now ended stopped keys c).0 ≡ true
      → All
          (λ key.
            (first : String) × (X.hash_key first ≡ X.hash_key key)
            × ((r : Retrieved) × ((retrieve S X.platform X.codec R X.hash_key true later counted
                    first
                    (store_context S X w now ended stopped keys c).1).0
                  ≡ found r)
                × IsReturned X now first c.markers.stale r))
          keys
  retrieve-store_context L w ended stopped keys c later counted current stored =
      let after = (store_context S X w now ended stopped keys c).1 in
      let unmarked = store_context_markers S L X w now ended stopped keys c stored in
      let filed = store_context-IsFiled S L X w now ended stopped keys c current stored in
      each_unique X.hash_key _ keys (
        subst
          (λ m.
            All
              (λ key.
                (r : Retrieved) × ((retrieve S X.platform X.codec R X.hash_key true later counted
                    key after).0
                  ≡ found r)
                × IsReturned X now key m.stale r)
              (unique_keys X.hash_key [] keys))
          unmarked (each_retrieved later counted (unique_keys X.hash_key [] keys) after filed))
