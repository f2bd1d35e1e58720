-- ===== src/Transactions/Defs.antt =====
-- cache.go: Store with its staged files, from the check against the markers to the commit or the
-- rollback.
--
-- The key locks, generationMu and publishMu are held where the code holds them, so a transaction is
-- one step for its own keys. Copying a body reads the response: an error of either side ends the
-- write. Staging leases are those of Staging.
use httpcache_kit.Common.{
  ℕ, Bool, true, false, ◌||◌, not, Option, none, some, List, [], ◌∷◌, String, Text, codes, text_key,
  nat_eq, ◌-◌, contains, ◌==◌, pos, negsuc, string_eq, if◌then◌else◌,
}
use httpcache_kit.Vfs.{FilePath}
use httpcache_kit.Http.Headers.{Headers, get}
use httpcache_kit.Http.Platform.{Platform}
use httpcache_kit.Policy.Resource.{Resource, received_after}
use httpcache_kit.Records.Defs.{Codec, serialize_cache_header}
use httpcache_kit.Stale.Defs.{Markers, stale_at}
use httpcache_kit.Cache.Defs.{Limits}

-- stagedEntry: `temporary` is tmpPath != "".
pub record Staged : Type 0 where
  pub temporary : Bool
  pub target : FilePath
  pub text : Text
  pub published : Bool

-- preparedCacheEntry
pub record Prepared : Type 0 where
  pub key : String
  pub hashed_key : ℕ
  pub stored_at : ℕ
  pub body_file : Option Staged
  pub header_file : Option Staged
  pub size : ℕ

-- What the calls of a transaction share: the platform, the hash of keys, the response with its
-- body, and how the context and Seek answer while the key is prepared.
pub record Setting : Type 0 where
  pub platform : Platform
  pub codec : Codec
  pub hash_key : String → ℕ
  pub sha256 : Bool
  pub limits : Limits
  pub res : Resource
  pub text : Text
  pub rewinds : String → Bool
  pub cancelled : String → Bool

-- strconv.ParseInt of Content-Length, if it is not negative.
unfoldable pub expected_body_size : Platform → Headers → Option ℕ
expected_body_size P h = elim (P.atoi (get (codes "Content-Length") h)) [
  | none ↦ none
  | some (pos n) ↦ some n
  | some (negsuc n) ↦ none
]

-- io.LimitReader
unfoldable pub limit_reader : ℕ → Text → Text
limit_reader n [] = []
limit_reader n (b ∷ s) = let rest = limit_reader (n - 1) s in if n == 0 then [] else b ∷ rest

unfoldable pub response_superseded : Platform → Resource → List String → Markers → Bool
response_superseded P res [] m = false
response_superseded P res (key ∷ keys) m =
    (elim (stale_at key m) [ none ↦ false | some at ↦ not (received_after P at res) ])
    || response_superseded P res keys m

-- lockStoreKeys: one key for each hash, in the caller's order.
unfoldable pub unique_keys : (String → ℕ) → List ℕ → List String → List String
unique_keys hash seen [] = []
unique_keys hash seen (key ∷ keys) =
    let known = contains (hash key) seen in
    let rest = unique_keys hash (if known then seen else hash key ∷ seen) keys in
    if known then rest else key ∷ rest

unfoldable pub is_published : Option Staged → Bool
is_published none = false
is_published (some e) = e.published

-- anyPublished of an entry's two files, and of all entries.
unfoldable pub any_published : List Prepared → Bool
any_published [] = false
any_published (p ∷ ps) = is_published p.body_file || is_published p.header_file || any_published ps

unfoldable pub prepared_entries : Setting → ℕ → List String → List Prepared
prepared_entries X now [] = []
prepared_entries X now (key ∷ keys) =
    record {
      key = key;
      hashed_key = X.hash_key key;
      stored_at = now;
      body_file = none;
      header_file = none;
      size = 0;
    }
    ∷ prepared_entries X now keys

-- A key that is stored, its hash, and the time of the store.
pub record Target : Type 0 where
  pub key : String
  pub hashed_key : ℕ
  pub stored_at : ℕ

abbrev pub target_of : Prepared → Target
target_of p = record { key = p.key; hashed_key = p.hashed_key; stored_at = p.stored_at }

unfoldable pub serialized : Setting → Target → ℕ → Text → Text
serialized X p size digest =
    serialize_cache_header X.codec X.sha256 X.res.status_code X.res.header p.stored_at (codes p.key)
      (pos size) digest

-- The body as it is read: no further than a Content-Length says.
unfoldable pub body_text : Setting → Text
body_text X = elim (expected_body_size X.platform X.res.header) [
  | none ↦ X.text
  | some n ↦ limit_reader n X.text
]

-- The digest of what the TeeReader saw, which is nothing if integrity is off.
unfoldable pub body_digest : Setting → Text
body_digest X = X.codec.sha256_text (if X.sha256 then body_text X else [])

unfoldable pub size_fits : Option ℕ → ℕ → Bool
size_fits none n = true
size_fits (some m) n = m == n
