-- ===== src/Transactions/Holdings.antt =====
-- cache.go: what the files of a key hold once StoreContext has succeeded.
use mathlib.Core.List.{append-nil}
use httpcache_kit.Common.{
  ℕ, ◌-◌, ◌≡◌, refl, ap, ◌∙◌, ◌⊎◌, inl, inr, Bool, true, false, Option, none, some, List, [], ◌∷◌,
  ◌++◌, String, Text, codes, length, min, ℤ, pos, negsuc, arith, Bool-cases, All, All-weaken, map,
  contains, nat_eq, ◌==◌, if◌then◌else◌,
}
use httpcache_kit.Vfs.{body, header}
use httpcache_kit.Http.Headers.{get}
use httpcache_kit.Stale.Defs.{Outcome}
use httpcache_kit.Cache.Defs.{Cache}
use httpcache_kit.Records.Defs.{
  serialize_integrity_header, serialize_stored_header, serialize_cache_header,
}
use httpcache_kit.Transactions.Storage.{Storage, StorageLaws}
use httpcache_kit.Transactions.Defs.{
  Setting, serialized, body_text, body_digest, expected_body_size, limit_reader,
  response_superseded, unique_keys, Prepared, prepared_entries,
}
use httpcache_kit.Transactions.Store.{
  store_context, store_entries, publish, prepare_all, begin_all, commit_all, track_all,
}
use httpcache_kit.Transactions.Atomicity.{target_at, release_all_same}
use httpcache_kit.Transactions.Commit.{IsFiled}
use httpcache_kit.Transactions.Stored.{store_context-IsFiled}

-- How many bytes a response has: as many as its Content-Length says, if it says so and there are as
-- many.
abbrev pub body_size : Option ℤ → ℕ → ℕ
body_size none n = n
body_size (some (pos m)) n = min m n
body_size (some (negsuc m)) n = n

-- The first bytes of the response's body.
pub record IsBody (X : Setting) (text : Text) : Type 0 where
  pub rest : Text
  pub whole : text ++ rest ≡ X.text
  pub size :
      length text
      ≡ body_size (X.platform.atoi (get (codes "Content-Length") X.res.header)) (length X.text)

limit_reader_parts :
    (n : ℕ) (t : Text)
    → (rest : Text) × (limit_reader n t ++ rest ≡ t)
      × (length (limit_reader n t) ≡ min n (length t))
unfolding limit_reader
limit_reader_parts n [] = ([], refl, omega arith)
limit_reader_parts n (b ∷ t) = elim (Bool-cases (n == 0)) [
  | inl over ↦ (b ∷ t, rw over refl, rw over (ground arith))
  | inr more ↦
      let (rest, whole, size) = limit_reader_parts (n - 1) t in
      (rest, rw more (ap (λ u. b ∷ u) whole), rw more (ground (arith, size)))
]

-- What is read of a text, by its Content-Length.
abbrev limited : Option ℤ → Text → Text
limited announced t =
    let size : Option ℕ = elim announced [
      | none ↦ none
      | some (pos n) ↦ some n
      | some (negsuc n) ↦ none
    ] in
    elim size [ none ↦ t | some n ↦ limit_reader n t ]

limited_parts :
    (announced : Option ℤ) (t : Text)
    → (rest : Text) × (limited announced t ++ rest ≡ t)
      × (length (limited announced t) ≡ body_size announced (length t))
limited_parts none t = ([], append-nil t, refl)
limited_parts (some (pos n)) t = limit_reader_parts n t
limited_parts (some (negsuc n)) t = ([], append-nil t, refl)

body_text_lem :
    (X : Setting)
    → body_text X ≡ limited (X.platform.atoi (get (codes "Content-Length") X.res.header)) X.text
unfolding body_text expected_body_size
body_text_lem X = refl

pub body_text-IsBody : (X : Setting) → IsBody X (body_text X)
body_text-IsBody X =
    let (rest, whole, size) =
      limited_parts (X.platform.atoi (get (codes "Content-Length") X.res.header)) X.text in
    let same = body_text_lem X in
    record { rest = rest; whole = ap (λ t. t ++ rest) same ∙ whole; size = ap length same ∙ size }

-- The files of a key, after a store at a time: the body, and its header with the metadata of that
-- body, or with the time alone if integrity is off.
pub record IsStored (S : Storage) (X : Setting) (now : ℕ) (s : S.vfs.State) (key : String)
    : Type 0 where
  pub text : Text
  pub is_body : IsBody X text
  pub in_body : S.content (body (X.hash_key key)) s ≡ some text
  pub in_header :
      S.content (header (X.hash_key key)) s
      ≡ some (
          if X.sha256
          then serialize_integrity_header X.codec X.res.status_code X.res.header (record {
            stored_at = now;
            size = pos (length text);
            body_sha256 = X.codec.sha256_text text;
            header_sha256 = [];
            key_sha256 = X.codec.sha256_text (codes key);
          })
          else serialize_stored_header X.codec X.res.status_code X.res.header now)

IsFiled-IsStored :
    (S : Storage) (X : Setting) (now : ℕ) (s : S.vfs.State) (key : String)
    → IsFiled S X s (target_at X now key)
    → IsStored S X now s key
unfolding serialized serialize_cache_header body_digest
IsFiled-IsStored S X now s key filed = record {
  text = body_text X;
  is_body = body_text-IsBody X;
  in_body = filed.0;
  in_header = elim (Bool-cases X.sha256) [
    | inl on ↦ filed.1 ∙ ap some (rw (on, serialized, serialize_cache_header) refl)
    | inr off ↦ filed.1 ∙ ap some (rw (off, serialized, serialize_cache_header) refl)
  ];
}

-- Each key, or one with the same hash before it, is among the unique ones.
unique_keys_cover :
    (hash : String → ℕ) (P : String → Type 0) (seen : List ℕ) (keys : List String)
    → All P (unique_keys hash seen keys)
    → All
        (λ key.
          (contains (hash key) seen ≡ true)
          ⊎ ((first : String) × (hash first ≡ hash key) × P first))
        keys
unfolding unique_keys contains
unique_keys_cover hash P seen [] all = tt
unique_keys_cover hash P seen (key ∷ keys) all = elim (Bool-cases (contains (hash key) seen)) [
  | inl known ↦ (inl known, unique_keys_cover hash P seen keys (rw (known, unique_keys) at all))
  | inr new ↦
      let here = rw (new, unique_keys) at all in
      (
        inr (key, refl, here.0),
        All-weaken _ _ keys
            (λ k there. elim there [
              | inr first ↦ inr first
              | inl known ↦ elim (Bool-cases (hash key == hash k)) [
                | inl same ↦ inr (key, (nat_eq.same_iff (hash key) (hash k)).0 same, here.0)
                | inr other ↦ inl (ground arith)
              ]
            ])
            (unique_keys_cover hash P (hash key ∷ seen) keys here.1),
      )
]

pub each_unique :
    (hash : String → ℕ) (P : String → Type 0) (keys : List String)
    → All P (unique_keys hash [] keys)
    → All (λ key. (first : String) × (hash first ≡ hash key) × P first) keys
unfolding contains
each_unique hash P keys all =
    All-weaken _ _ keys (λ key there. elim there [ inr first ↦ first | inl known ↦ ground arith ])
      (unique_keys_cover hash P [] keys all)

pub each-IsStored :
    (S : Storage) (X : Setting) (now : ℕ) (s : S.vfs.State) (keys : List String)
    → All (IsFiled S X s) (map (target_at X now) keys)
    → All (IsStored S X now s) keys
each-IsStored S X now s [] filed = tt
each-IsStored S X now s (key ∷ keys) filed =
    (IsFiled-IsStored S X now s key filed.0, each-IsStored S X now s keys filed.1)

-- A store that no marker supersedes and that reports success has filed the response under each of
-- its keys, or under the first of them that has the same hash: the body file holds the response's
-- first bytes, as many as its Content-Length says if it says so and there are as many, and all of
-- them otherwise; the header file holds the status and the header with the time of the store and,
-- if integrity is on, with the body's length and digest and the key's digest. The storage keeps its
-- laws.
pub store_context-IsStored :
    (S : Storage)
    → StorageLaws S
    → (X : Setting) (w : Outcome) (now : ℕ) (ended stopped : Bool) (keys : List String)
      (c : Cache S.vfs.State)
    → response_superseded X.platform X.res (unique_keys X.hash_key [] keys) c.markers ≡ false
    → (store_context S X w now ended stopped keys c).0 ≡ true
    → All
        (λ key.
          (first : String) × (X.hash_key first ≡ X.hash_key key)
          × IsStored S X now (store_context S X w now ended stopped keys c).1.backed.fs first)
        keys
store_context-IsStored S L X w now ended stopped keys c current stored =
    each_unique X.hash_key _ keys (
      each-IsStored S X now (store_context S X w now ended stopped keys c).1.backed.fs
        (unique_keys X.hash_key [] keys)
        (store_context-IsFiled S L X w now ended stopped keys c current stored))

store_entries_markers :
    (S : Storage)
    → StorageLaws S
    → (X : Setting) (w : Outcome) (now : ℕ) (stopped : Bool) (ps : List Prepared)
      (c : Cache S.vfs.State)
    → (store_entries S X w now stopped ps c).0 ≡ true
    → (store_entries S X w now stopped ps c).1.markers ≡ c.markers
unfolding store_entries publish
store_entries_markers S L X w now stopped ps c stored =
    let prep = prepare_all S X ps (begin_all S ps c.backed) in
    let moved = commit_all S prep.0.1 prep.1.fs in
    elim (Bool-cases prep.0.0) [
      | inr unprepared ↦
          let absurd : false ≡ true = rw (unprepared, store_entries) at stored in ground arith
      | inl ready ↦ elim (Bool-cases stopped) [
        | inl ended ↦
            let absurd : false ≡ true = rw (ready, ended, store_entries, publish) at stored in
            ground arith
        | inr going ↦ elim (Bool-cases moved.0.0) [
          | inr refused ↦
              let absurd : false ≡ true =
                rw (ready, going, refused, store_entries, publish) at stored in
              ground arith
          | inl committed ↦
              let c2 : Cache S.vfs.State = record c { backed = record prep.1 { fs = moved.1 } } in
              let d : Cache S.vfs.State = record c2 {
                backed = track_all S now moved.0.1 c2.backed;
              } in
              rw (ready, going, committed) (release_all_same S L ps d).1
        ]
      ]
    ]

-- A store that reports success leaves the markers alone.
pub store_context_markers :
    (S : Storage)
    → StorageLaws S
    → (X : Setting) (w : Outcome) (now : ℕ) (ended stopped : Bool) (keys : List String)
      (c : Cache S.vfs.State)
    → (store_context S X w now ended stopped keys c).0 ≡ true
    → (store_context S X w now ended stopped keys c).1.markers ≡ c.markers
unfolding store_context
store_context_markers S L X w now ended stopped keys c stored =
    let unique = unique_keys X.hash_key [] keys in
    elim (Bool-cases ended) [
      | inl over ↦ let absurd : false ≡ true = rw (over, store_context) at stored in ground arith
      | inr going ↦ elim (Bool-cases (length keys == 0)) [
        | inl nothing ↦ rw (going, nothing) refl
        | inr given ↦ elim (Bool-cases (response_superseded X.platform X.res unique c.markers)) [
          | inl superseded ↦ rw (going, given, superseded) refl
          | inr current ↦
              rw (going, given, current)
                (store_entries_markers S L X w now stopped (prepared_entries X now unique) c
                  (rw (going, given, current, store_context) at stored))
        ]
      ]
    ]
