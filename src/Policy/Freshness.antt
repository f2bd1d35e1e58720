-- ===== src/Policy/Freshness.antt =====
-- handler.go: freshness and needsValidation.
use httpcache_kit.Common.{
  ℕ, Bool, true, ◌&&◌, ◌||◌, not, Option, none, some, text_key, codes, ℤ, pos, wrap, ltb_ℤ, ◌-ℤ◌,
  if◌then◌else◌,
}
use httpcache_kit.Http.Platform.{Platform}
use httpcache_kit.Directives.Defs.{CacheControl, has, values_at, duration}
use httpcache_kit.Keys.Defs.{CacheRequest}
use httpcache_kit.Policy.Resource.{Resource, must_validate, max_age, age, heuristic_freshness}
use httpcache_kit.Policy.Storage.{is_nil}

module _ (P : Platform) where
  -- The response's lifetime, or the request's max-age if that is less; none is an error.
  unfoldable pub limited_lifetime : CacheControl → ℤ → Option ℤ
  limited_lifetime cc lifetime =
      if has (codes "max-age") cc
      then elim (duration P (codes "max-age") cc) [
        | none ↦ none
        | some limit ↦ some (if ltb_ℤ limit lifetime then limit else lifetime)
      ]
      else some lifetime

  -- What is left of a lifetime at an age.
  unfoldable pub remaining : ℕ → Bool → Resource → ℤ → ℤ → ℤ
  remaining now shared res lifetime current_age =
      let heuristic = heuristic_freshness P now shared res in
      if res.stale
      then pos 0
      else wrap ((if ltb_ℤ lifetime heuristic then heuristic else lifetime) -ℤ current_age)

  unfoldable pub freshness : ℕ → Bool → Resource → CacheRequest → Option ℤ
  freshness now shared res r = elim (max_age P now shared res) [
    | none ↦ none
    | some lifetime ↦ elim (limited_lifetime r.cache_control lifetime) [
      | none ↦ none
      | some limited ↦ elim (age P now res) [
        | none ↦ none
        | some current_age ↦ some (remaining now shared res limited current_age)
      ]
    ]
  ]

  -- min-fresh asks for more than is left, or does not parse.
  unfoldable pub misses_min_fresh : CacheControl → ℤ → Bool
  misses_min_fresh cc left =
      has (codes "min-fresh") cc
      && elim (duration P (codes "min-fresh") cc) [ none ↦ true | some wanted ↦ ltb_ℤ left wanted ]

  -- max-stale without a value admits any staleness; one that does not parse counts as 0.
  unfoldable pub within_max_stale : CacheControl → ℤ → Bool
  within_max_stale cc left =
      has (codes "max-stale") cc
      && (is_nil (values_at (codes "max-stale") cc)
          || not (
              ltb_ℤ (elim (duration P (codes "max-stale") cc) [ none ↦ pos 0 | some limit ↦ limit ])
                (wrap (pos 0 -ℤ left))))

  unfoldable pub needs_validation : ℕ → Bool → Resource → CacheRequest → Bool
  needs_validation now shared res r = res.stale || elim (freshness now shared res r) [
    | none ↦ true
    | some left ↦
        let is_stale = not (ltb_ℤ (pos 0) left) in
        (is_stale && must_validate shared res)
        || misses_min_fresh r.cache_control left
        || (is_stale && not (within_max_stale r.cache_control left))
  ]
