-- ===== src/Policy/Lifetime.antt =====
-- resource.go and handler.go: how the lifetimes of a response, a request and a heuristic combine.
use httpcache_kit.Common.{
  Bool-cases, saturate, quotient, ℕ, ◌≤◌, ◌-◌, ◌/◌, inl, inr, ◌^◌, Bool, false, ◌≡◌, refl, none,
  some, codes, [], ℤ, pos, arith, Option-cases, lookup,
}
use httpcache_kit.Http.Headers.{get, is_empty}
use httpcache_kit.Http.Platform.{Platform}
use httpcache_kit.Directives.Defs.{CacheControl, has, duration, lookup_key, fold_match}
use httpcache_kit.Keys.Defs.{CacheRequest}
use httpcache_kit.Policy.Resource.{
  Resource, max_age, has_explicit_expiration, expires_value, expires_lifetime, heuristic_freshness,
  time_header, last_modified, since,
}
use httpcache_kit.Policy.Freshness.{freshness, limited_lifetime}

module _ (P : Platform) where
  max_age-implicit :
      (now : ℕ) (shared : Bool) (res : Resource)
      → has_explicit_expiration shared res ≡ false
      → max_age P now shared res ≡ some (pos 0)
  unfolding max_age has_explicit_expiration expires_lifetime
  max_age-implicit now shared res h = elim (Option-cases (expires_value res)) [
    | inl absent ↦ ground arith
    | inr (v, present) ↦ ground arith
  ]

  limited_lifetime-nil : (lifetime : ℤ) → limited_lifetime P [] lifetime ≡ some lifetime
  unfolding limited_lifetime has lookup_key fold_match lookup codes
  limited_lifetime-nil lifetime = refl

  limited_lifetime-zero :
      (cc : CacheControl) (n : ℕ)
      → duration P (codes "max-age") cc ≡ some (pos n)
      → limited_lifetime P cc (pos 0) ≡ some (pos 0)
  unfolding limited_lifetime
  limited_lifetime-zero cc n h = ground arith

  -- For a response without an explicit expiration, the client's max-age, if it parses, changes
  -- nothing: the freshness is that for a request without directives.
  pub freshness-implicit :
      (now : ℕ) (shared : Bool) (res : Resource) (r : CacheRequest) (n : ℕ)
      → has_explicit_expiration shared res ≡ false
      → duration P (codes "max-age") r.cache_control ≡ some (pos n)
      → freshness P now shared res r ≡ freshness P now shared res (record r { cache_control = [] })
  unfolding freshness
  freshness-implicit now shared res r n implicit parsed =
      rw
        (
          freshness,
          max_age-implicit now shared res implicit,
          limited_lifetime-nil,
          limited_lifetime-zero r.cache_control n parsed,
        )
        refl

  last_modified-malformed :
      (res : Resource)
      → P.parse_time (get (codes "Last-Modified") res.header) ≡ none
      → last_modified P res ≡ 0
  unfolding last_modified time_header
  last_modified-malformed res malformed =
      elim (Bool-cases (is_empty (get (codes "Last-Modified") res.header))) [
        | inl missing ↦ rw (last_modified, time_header, missing) refl
        | inr sent ↦ rw (last_modified, time_header, sent, malformed) refl
      ]

  since_zero : (now : ℕ) → 2 ^ 63 ≤ now → since now 0 ≡ pos (2 ^ 63 - 1)
  unfolding since saturate
  since_zero now late = ground arith

  longest : quotient (pos (2 ^ 63 - 1)) 10 ≡ pos ((2 ^ 63 - 1) / 10)
  unfolding quotient
  longest = refl

  -- A response without an explicit expiration whose Last-Modified does not parse has the longest
  -- heuristic lifetime there is, a tenth of the largest duration (over 29 years), from the 293rd
  -- year of the clock on.
  pub heuristic_freshness-malformed :
      (now : ℕ) (shared : Bool) (res : Resource)
      → 2 ^ 63 ≤ now
      → has_explicit_expiration shared res ≡ false
      → is_empty (get (codes "Last-Modified") res.header) ≡ false
      → P.parse_time (get (codes "Last-Modified") res.header) ≡ none
      → heuristic_freshness P now shared res ≡ pos ((2 ^ 63 - 1) / 10)
  unfolding heuristic_freshness
  heuristic_freshness-malformed now shared res late implicit sent malformed =
      rw
        (
          heuristic_freshness,
          implicit,
          sent,
          last_modified-malformed res malformed,
          since_zero now late,
        )
        longest
