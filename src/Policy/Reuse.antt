-- ===== src/Policy/Reuse.antt =====
-- handler.go: needsValidation, against the conditions for serving a stored response.
use httpcache_kit.Common.{
  ℕ, Bool, true, false, ◌≡◌, ◌↔◌, ◌⊎◌, inl, inr, Option, none, some, Text, codes, List, [], ◌∷◌, ℤ,
  pos, ◌≤ℤ◌, wrap, ◌-ℤ◌, arith, Bool-cases, Option-cases, ltb_ℤ,
}
use httpcache_kit.Http.Platform.{Platform}
use httpcache_kit.Directives.Defs.{CacheControl, has, values_at, duration}
use httpcache_kit.Keys.Defs.{CacheRequest}
use httpcache_kit.Policy.Resource.{Resource, must_validate}
use httpcache_kit.Policy.Storage.{is_nil}
use httpcache_kit.Policy.Freshness.{freshness, needs_validation, misses_min_fresh, within_max_stale}

-- A duration that parsed and is at most the given one.
abbrev pub IsAtMost : Option ℤ → ℤ → Type 0
IsAtMost none left = ⊥
IsAtMost (some wanted) left = wanted ≤ℤ left

-- A duration, 0 if it did not parse.
abbrev pub parsed_or_zero : Option ℤ → ℤ
parsed_or_zero none = pos 0
parsed_or_zero (some limit) = limit

module _ (P : Platform) where
  -- The client sent no min-fresh, or it parses and is met.
  unfoldable pub MeetsMinFresh : CacheControl → ℤ → Type 0
  MeetsMinFresh cc left =
      (has (codes "min-fresh") cc ≡ false) ⊎ IsAtMost (duration P (codes "min-fresh") cc) left

  -- The client accepts a response whose lifetime is over by the given time: by any time, or by the
  -- one that its max-stale allows.
  unfoldable pub AcceptsStale : CacheControl → ℤ → Type 0
  AcceptsStale cc over =
      (has (codes "max-stale") cc ≡ true)
      × ((values_at (codes "max-stale") cc ≡ [])
          ⊎ (over ≤ℤ parsed_or_zero (duration P (codes "max-stale") cc)))

  pub record IsReusable (now : ℕ) (shared : Bool) (res : Resource) (r : CacheRequest) : Type 0 where
    pub valid : res.stale ≡ false
    pub left : ℤ
    pub left_is : freshness P now shared res r ≡ some left
    pub min_fresh : MeetsMinFresh r.cache_control left
    pub fresh_or_allowed :
        (ltb_ℤ (pos 0) left ≡ true)
        ⊎ ((must_validate shared res ≡ false) × AcceptsStale r.cache_control (wrap (pos 0 -ℤ left)))

  IsAtMost-iff :
      (o : Option ℤ) (left : ℤ)
      → (elim o as (λ _. Bool) [ none ↦ true | some wanted ↦ ltb_ℤ left wanted ] ≡ false)
        ↔ IsAtMost o left
  IsAtMost-iff none left = ground arith
  IsAtMost-iff (some wanted) left = ground arith

  min_fresh_iff :
      (cc : CacheControl) (left : ℤ) → (misses_min_fresh P cc left ≡ false) ↔ MeetsMinFresh cc left
  unfolding misses_min_fresh MeetsMinFresh
  min_fresh_iff cc left = ground (arith, IsAtMost-iff (duration P (codes "min-fresh") cc) left)

  limit_iff :
      (o : Option ℤ) (over : ℤ)
      → (ltb_ℤ (elim o as (λ _. ℤ) [ none ↦ pos 0 | some limit ↦ limit ]) over ≡ false)
        ↔ (over ≤ℤ parsed_or_zero o)
  limit_iff none over = ground arith
  limit_iff (some limit) over = ground arith

  is_nil_iff : (values : List Text) → (is_nil values ≡ true) ↔ (values ≡ [])
  is_nil_iff [] = ground arith
  is_nil_iff (x ∷ xs) = ground arith

  max_stale_iff :
      (cc : CacheControl) (left : ℤ)
      → (within_max_stale P cc left ≡ true) ↔ AcceptsStale cc (wrap (pos 0 -ℤ left))
  unfolding within_max_stale AcceptsStale
  max_stale_iff cc left = ground (
    arith,
    limit_iff (duration P (codes "max-stale") cc) (wrap (pos 0 -ℤ left)),
    is_nil_iff (values_at (codes "max-stale") cc),
  )

  IsReusable-of :
      (now : ℕ) (shared : Bool) (res : Resource) (r : CacheRequest)
      → needs_validation P now shared res r ≡ false
      → IsReusable now shared res r
  unfolding needs_validation
  IsReusable-of now shared res r h = elim (Option-cases (freshness P now shared res r)) [
    | inl bad ↦ ground arith
    | inr (left, known) ↦
        let a = min_fresh_iff r.cache_control left in
        let b = max_stale_iff r.cache_control left in
        record {
          valid = ground arith;
          left = left;
          left_is = known;
          min_fresh = a.0 (ground arith);
          fresh_or_allowed = elim (Bool-cases (ltb_ℤ (pos 0) left)) [
            | inl fresh ↦ inl fresh
            | inr over ↦ inr (ground arith, b.0 (ground arith))
          ];
        }
  ]

  needs_validation_of :
      (now : ℕ) (shared : Bool) (res : Resource) (r : CacheRequest)
      → IsReusable now shared res r
      → needs_validation P now shared res r ≡ false
  unfolding needs_validation
  needs_validation_of now shared res r h =
      let p = h.valid in
      let q = h.left_is in
      let c = (min_fresh_iff r.cache_control h.left).1 h.min_fresh in
      elim h.fresh_or_allowed [
        | inl fresh ↦ ground arith
        | inr (free, accepted) ↦
            let d = (max_stale_iff r.cache_control h.left).1 accepted in ground arith
      ]

  -- A stored response is served without asking the origin exactly if it is not marked stale, its
  -- freshness can be computed and meets the client's min-fresh, and it is either still fresh, or the
  -- client's max-stale covers the time since and no directive of the response demands validation.
  pub needs_validation-IsReusable :
      (now : ℕ) (shared : Bool) (res : Resource) (r : CacheRequest)
      → (needs_validation P now shared res r ≡ false) ↔ IsReusable now shared res r
  needs_validation-IsReusable now shared res r =
      (IsReusable-of now shared res r, needs_validation_of now shared res r)
