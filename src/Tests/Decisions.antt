-- ===== src/Tests/Decisions.antt =====
-- The theorems on the handler's decisions, at concrete requests and responses.
use httpcache_kit.Common.{
  ℕ, ℤ, ◌⊎◌, ◌↔◌, ◌-◌, ◌/◌, ◌≡◌, refl, lookup, insert, delete, ◌+◌, ◌*◌, ◌^◌, some, true, false, [],
  ◌∷◌, arith, codes, contains, pos, nat_eq, text_key, wrap, saturate, quotient, ltb_ℤ, ◌-ℤ◌, ◌+ℤ◌,
  ◌*ℤ◌,
}
use httpcache_kit.Http.Headers.{Headers, get, combined_header_values, names_like}
use httpcache_kit.Http.Names.{canonical_header_key, trim_space}
use httpcache_kit.Directives.Defs.{
  parse_cache_control_headers, lookup_key, has, duration, get_value, values_at,
}
use httpcache_kit.Keys.Defs.{vary_wildcard}
use httpcache_kit.Policy.Resource.{
  max_age, age, age_seconds, has_validators, heuristic_freshness, must_validate, cache_control_of,
  time_header, int_header, since, expires_value, expires_lifetime, has_explicit_expiration,
  last_modified,
}
use httpcache_kit.Policy.Storage.{
  is_cacheable, allows_response_storage, allows_authenticated_storage, storeable,
  cacheable_by_default,
}
use httpcache_kit.Policy.Freshness.{
  freshness, needs_validation, limited_lifetime, remaining, misses_min_fresh, within_max_stale,
}
use httpcache_kit.Policy.Shared.{IsShareable, is_cacheable-IsShareable, is_cacheable_useful}
use httpcache_kit.Policy.Lifetime.{freshness-implicit, heuristic_freshness-malformed}
use httpcache_kit.Policy.Reuse.{IsReusable, needs_validation-IsReusable}
use httpcache_kit.Tests.Web.{platform, request, response, origin}

abbrev pub now : ℕ
now = origin + 5 * 10 ^ 9

-- Received at 1 with a lifetime of 9 seconds.
abbrev pub fresh_headers : Headers
unfolding codes
fresh_headers =
    (codes "Cache-Control", codes "max-age=9" ∷ []) ∷ (codes "Proxy-Date", codes "1" ∷ []) ∷ []

abbrev implicit_headers : Headers
unfolding codes
implicit_headers =
    (codes "Last-Modified", codes "bad" ∷ []) ∷ (codes "Proxy-Date", codes "1" ∷ []) ∷ []

program : Unit {0}
unfolding needs_validation freshness limited_lifetime remaining misses_min_fresh within_max_stale
    is_cacheable allows_response_storage allows_authenticated_storage storeable cacheable_by_default
    max_age age age_seconds has_validators heuristic_freshness must_validate cache_control_of
    time_header int_header since expires_value expires_lifetime has_explicit_expiration
    last_modified parse_cache_control_headers lookup_key has duration get_value values_at lookup
    insert delete contains codes get canonical_header_key trim_space combined_header_values
    names_like vary_wildcard wrap saturate quotient ◌-ℤ◌ ◌+ℤ◌ ◌*ℤ◌
program = tt

stored : is_cacheable platform now true (response fresh_headers 0 0) (request []) ≡ true
unfolding program
stored = refl

served : needs_validation platform now true (response fresh_headers 0 0) (request []) ≡ false
unfolding program
served = refl

is_cacheable-IsShareable_example :
    IsShareable
      (response fresh_headers 0 0)
      (request [])
      (cache_control_of (response fresh_headers 0 0))
is_cacheable-IsShareable_example =
    is_cacheable-IsShareable platform now (response fresh_headers 0 0) (request []) stored

is_cacheable_useful_example :
    (has_validators (response fresh_headers 0 0) ≡ true)
    ⊎ ((lifetime : ℤ) × (max_age platform now true (response fresh_headers 0 0) ≡ some lifetime)
        × (ltb_ℤ (pos 0) lifetime ≡ true))
    ⊎ (ltb_ℤ (pos 0) (heuristic_freshness platform now true (response fresh_headers 0 0)) ≡ true)
is_cacheable_useful_example =
    is_cacheable_useful platform now true (response fresh_headers 0 0) (request []) stored

needs_validation-IsReusable_example :
    (needs_validation platform now true (response fresh_headers 0 0) (request []) ≡ false)
    ↔ IsReusable platform now true (response fresh_headers 0 0) (request [])
needs_validation-IsReusable_example =
    needs_validation-IsReusable platform now true (response fresh_headers 0 0) (request [])

freshness-implicit_example :
    freshness platform now true
      (response implicit_headers 0 0)
      (request ((codes "max-age", codes "3" ∷ []) ∷ []))
    ≡ freshness platform now true (response implicit_headers 0 0) (request [])
unfolding program
freshness-implicit_example =
    freshness-implicit platform now true (response implicit_headers 0 0)
      (request ((codes "max-age", codes "3" ∷ []) ∷ [])) (3 * 10 ^ 9) refl refl

heuristic_freshness-malformed_example :
    heuristic_freshness platform now true (response implicit_headers 0 0) ≡ pos ((2 ^ 63 - 1) / 10)
unfolding program
heuristic_freshness-malformed_example =
    heuristic_freshness-malformed platform now true (response implicit_headers 0 0) (omega arith)
      refl refl refl
