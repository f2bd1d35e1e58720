-- ===== src/Policy/Storage.antt =====
-- handler.go: whether a request may be answered from the cache, whether a response may be stored
-- and staged, which requests change state, and the age that is stored with a response.
use httpcache_kit.Common.{
  ℕ, ◌^◌, Bool, true, false, ◌&&◌, ◌||◌, not, Option, none, some, List, [], ◌∷◌, text_key, nat_eq,
  codes, ltb, leb, ◌==◌, ℤ, pos, wrap, ltb_ℤ, contains, ◌+ℤ◌, ◌*ℤ◌, if◌then◌else◌,
}
use httpcache_kit.Http.Headers.{Headers, get, is_empty, combined_header_values}
use httpcache_kit.Http.Platform.{Platform}
use httpcache_kit.Directives.Defs.{CacheControl, has, get_value, values_at}
use httpcache_kit.Keys.Defs.{Request, CacheRequest, vary_wildcard}
use httpcache_kit.Policy.Resource.{
  Resource, cache_control_of, has_validators, has_explicit_expiration, max_age, heuristic_freshness,
  time_header, int_header, since,
}

unfoldable pub storeable : ℕ → Bool
storeable status = contains status (200 ∷ 302 ∷ 203 ∷ 300 ∷ 301 ∷ 410 ∷ 404 ∷ [])

unfoldable pub cacheable_by_default : ℕ → Bool
cacheable_by_default status = contains status (200 ∷ 302 ∷ 304 ∷ 203 ∷ 300 ∷ 301 ∷ 410 ∷ 206 ∷ [])

unfoldable pub request_is_cacheable : CacheRequest → Bool
request_is_cacheable r =
    (r.method == codes "GET" || r.method == codes "HEAD")
    && is_empty (get (codes "If-Match") r.header)
    && is_empty (get (codes "If-Unmodified-Since") r.header)
    && is_empty (get (codes "If-Range") r.header)
    && not (
        has (codes "max-age") r.cache_control
        && get_value (codes "max-age") r.cache_control == codes "0")
    && not (has (codes "no-store") r.cache_control || has (codes "no-cache") r.cache_control)

unfoldable pub is_state_changing : CacheRequest → Bool
is_state_changing r = not (
    r.method == codes "GET"
    || r.method == codes "HEAD"
    || r.method == codes "OPTIONS"
    || r.method == codes "TRACE")

unfoldable pub allows_authenticated_storage : Bool → Resource → CacheRequest → CacheControl → Bool
allows_authenticated_storage shared res r cc =
    not shared
    || ((is_empty (get (codes "Authorization") r.header)
          || has (codes "public") cc
          || has (codes "s-maxage") cc)
        && (is_empty (get (codes "Authorization") res.header)
            || has (codes "must-revalidate") cc
            || has (codes "s-maxage") cc))

abbrev pub is_nil {ℓ} : {A : Type ℓ} → List A → Bool
is_nil [] = true
is_nil (x ∷ xs) = false

unfoldable pub allows_response_storage : Bool → Resource → CacheRequest → CacheControl → Bool
allows_response_storage shared res r cc =
    not (has (codes "no-cache") cc || has (codes "no-store") cc)
    && not (vary_wildcard (combined_header_values res.header (codes "Vary")))
    && not (has (codes "private") cc && is_nil (values_at (codes "private") cc) && shared)
    && storeable res.status_code
    && allows_authenticated_storage shared res r cc

unfoldable pub is_cacheable : Platform → ℕ → Bool → Resource → CacheRequest → Bool
is_cacheable P now shared res r =
    let cc = cache_control_of res in
    allows_response_storage shared res r cc
    && (if has_explicit_expiration shared res
        then elim (max_age P now shared res) [
          | none ↦ false
          | some lifetime ↦ ltb_ℤ (pos 0) lifetime || has_validators res
        ]
        else (cacheable_by_default res.status_code || has (codes "public") cc)
          && (has_validators res || ltb_ℤ (pos 0) (heuristic_freshness P now shared res)))

-- Whether the protocol has trailers, and the status a body, to tell a late refusal in.
unfoldable pub can_convey_staging : Request → ℕ → Bool
can_convey_staging req status =
    (ltb 1 req.proto_major || (req.proto_major == 1 && leb 1 req.proto_minor))
    && not (req.method == codes "HEAD")
    && leb 200 status
    && not (status == 204)
    && not (status == 205)
    && not (status == 304)

unfoldable pub can_stage_response : Platform → ℕ → Bool → Bool → Resource → CacheRequest → Bool
can_stage_response P now shared budgeted res r =
    (not budgeted || can_convey_staging r.request res.status_code)
    && is_cacheable P now shared res r

-- correctedAge: the age that accounts for clock skew and travel time; none is its error.
unfoldable pub corrected_age : Platform → ℕ → Headers → ℕ → ℕ → Option ℤ
corrected_age P now h request_time response_time = elim (time_header P (codes "Date") h) [
  | none ↦ none
  | some date ↦ elim (int_header P (codes "Age") h) [
    | none ↦ none
    | some seconds ↦
        let between = since response_time date in
        let apparent = if ltb_ℤ between (pos 0) then pos 0 else between in
        let delay = since response_time request_time in
        let corrected = wrap (wrap (pos (10 ^ 9) *ℤ seconds) +ℤ delay) in
        let larger = if ltb_ℤ corrected apparent then apparent else corrected in
        some (wrap (larger +ℤ since now response_time))
  ]
]
