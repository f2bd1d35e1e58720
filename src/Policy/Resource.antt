-- ===== src/Policy/Resource.antt =====
-- resource.go: a stored or received response and what its headers say of its age and expiration.
--
-- Times are nanoseconds since Go's zero time, durations are int64. `now` is what Clock returns.
-- The body is not modelled.
use httpcache_kit.Common.{
  ℕ, ◌^◌, Bool, true, false, ◌&&◌, ◌||◌, not, Option, none, some, List, [], ◌∷◌, delete, nat_eq,
  text_key, Text, codes, is_some, ltb, leb, ◌==◌, ℤ, pos, sub_ℕ, wrap, saturate, quotient, ◌+ℤ◌,
  ◌*ℤ◌, if◌then◌else◌,
}
use httpcache_kit.Http.Headers.{Headers, get, is_empty, names_like, combined_header_values}
use httpcache_kit.Http.Names.{canonical_header_key}
use httpcache_kit.Http.Platform.{Platform}
use httpcache_kit.Directives.Defs.{
  CacheControl, has, values_at, duration, parse_cache_control_headers,
}

-- `cc` is what an earlier call parsed; `stored_at`, `request_time` and `handler_stored_at` are 0
-- where the code has the zero time.
pub record Resource : Type 0 where
  pub header : Headers
  pub status_code : ℕ
  pub cc : Option CacheControl
  pub stale : Bool
  pub stored_at : ℕ
  pub request_time : ℕ
  pub handler_stored_at : ℕ

unfoldable pub cache_control_of : Resource → CacheControl
cache_control_of res = elim res.cc [ some cc ↦ cc | none ↦ parse_cache_control_headers res.header ]

unfoldable pub mark_stale : Resource → Resource
mark_stale res = record res { stale = true }

unfoldable pub mark_fresh : Resource → Resource
mark_fresh res = record res { stale = false }

-- t.Sub(u)
unfoldable pub since : ℕ → ℕ → ℤ
since t u = saturate (sub_ℕ t u)

unfoldable pub must_validate : Bool → Resource → Bool
must_validate shared res =
    let cc = cache_control_of res in
    (has (codes "s-maxage") cc && shared)
    || has (codes "must-revalidate") cc
    || (has (codes "proxy-revalidate") cc && shared)

unfoldable pub has_validators : Resource → Bool
has_validators res =
    not (is_empty (get (codes "Last-Modified") res.header))
    || not (is_empty (get (codes "Etag") res.header))

-- Whether the field is there, and its combined value.
unfoldable pub expires_value : Resource → Option Text
expires_value res = elim (names_like (codes "Expires") res.header) [
  | [] ↦ none
  | _ ∷ _ ↦ some (combined_header_values res.header (codes "Expires"))
]

unfoldable pub has_explicit_expiration : Bool → Resource → Bool
has_explicit_expiration shared res =
    let cc = cache_control_of res in
    has (codes "max-age") cc || (shared && has (codes "s-maxage") cc) || is_some (expires_value res)

-- delete every named field: header.Del brings a name to its canonical spelling.
unfoldable pub delete_fields : List Text → Headers → Headers
delete_fields [] h = h
delete_fields (name ∷ names) h = delete_fields names (delete (canonical_header_key name) h)

unfoldable pub remove_private_headers : Resource → Resource
remove_private_headers res =
    let cc = cache_control_of res in
    record res { header = delete_fields (values_at (codes "private") cc) res.header; cc = some cc }

unfoldable pub is_non_error_status : Resource → Bool
is_non_error_status res = leb 200 res.status_code && ltb res.status_code 400

module _ (P : Platform) where
  unfoldable pub time_header : Text → Headers → Option ℕ
  time_header name h = let value = get name h in if is_empty value then none else P.parse_time value

  unfoldable pub int_header : Text → Headers → Option ℤ
  int_header name h = let value = get name h in if is_empty value then none else P.atoi value

  -- The zero time if the field is missing or does not parse.
  unfoldable pub last_modified : Resource → ℕ
  last_modified res = elim (time_header (codes "Last-Modified") res.header) [
    | none ↦ 0
    | some t ↦ t
  ]

  unfoldable pub date_after : ℕ → Resource → Bool
  date_after d res = elim (time_header (codes "Date") res.header) [
    | none ↦ false
    | some t ↦ ltb d t
  ]

  unfoldable pub received_after : ℕ → Resource → Bool
  received_after d res =
      if res.request_time == 0
      then elim (time_header (codes "Proxy-Date") res.header) [
        | some t ↦ ltb d t
        | none ↦ date_after d res
      ]
      else ltb d res.request_time

  unfoldable pub stored_after : ℕ → Resource → Bool
  stored_after d res = if res.stored_at == 0 then received_after d res else ltb d res.stored_at

  unfoldable pub age_seconds : Resource → ℤ
  age_seconds res = elim (int_header (codes "Age") res.header) [
    | none ↦ pos 0
    | some n ↦ wrap (pos (10 ^ 9) *ℤ n)
  ]

  -- Age; none is its error.
  unfoldable pub age : ℕ → Resource → Option ℤ
  age now res = elim (time_header (codes "Proxy-Date") res.header) [
    | some t ↦ some (wrap (since now t +ℤ age_seconds res))
    | none ↦ elim (time_header (codes "Date") res.header) [
      | some t ↦ some (wrap (since now t +ℤ age_seconds res))
      | none ↦ none
    ]
  ]

  -- The date that Expires counts from.
  unfoldable pub base_date : ℕ → Resource → ℕ
  base_date now res = elim (time_header (codes "Date") res.header) [
    | some t ↦ t
    | none ↦ elim (time_header (codes "Proxy-Date") res.header) [ some t ↦ t | none ↦ now ]
  ]

  unfoldable pub expires_lifetime : ℕ → Resource → ℤ
  expires_lifetime now res = elim (expires_value res) [
    | none ↦ pos 0
    | some value ↦ elim (P.parse_time value) [ none ↦ pos 0 | some t ↦ since t (base_date now res) ]
  ]

  -- MaxAge; none is its error.
  unfoldable pub max_age : ℕ → Bool → Resource → Option ℤ
  max_age now shared res =
      let cc = cache_control_of res in
      if has (codes "s-maxage") cc && shared
      then duration P (codes "s-maxage") cc
      else if has (codes "max-age") cc
      then duration P (codes "max-age") cc
      else some (expires_lifetime now res)

  unfoldable pub heuristic_freshness : ℕ → Bool → Resource → ℤ
  heuristic_freshness now shared res =
      if not (has_explicit_expiration shared res)
        && not (is_empty (get (codes "Last-Modified") res.header))
      then quotient (since now (last_modified res)) 10
      else pos 0
