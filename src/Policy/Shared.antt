-- ===== src/Policy/Shared.antt =====
-- handler.go: isCacheable, against what a stored response has to be.
use httpcache_kit.Common.{
  ℕ, Bool, true, false, ◌≡◌, ◌⊎◌, inl, inr, some, codes, ℤ, pos, arith, Bool-cases, Option-cases,
  ltb_ℤ,
}
use httpcache_kit.Http.Headers.{get, is_empty, combined_header_values}
use httpcache_kit.Http.Platform.{Platform}
use httpcache_kit.Directives.Defs.{CacheControl, has, values_at}
use httpcache_kit.Keys.Defs.{CacheRequest, vary_wildcard}
use httpcache_kit.Policy.Resource.{
  Resource, cache_control_of, has_validators, has_explicit_expiration, max_age, heuristic_freshness,
}
use httpcache_kit.Policy.Storage.{
  is_cacheable, allows_response_storage, allows_authenticated_storage, storeable, is_nil,
}

-- What RFC 9111 asks of a response that a shared cache stores for other users.
pub record IsShareable (res : Resource) (r : CacheRequest) (cc : CacheControl) : Type 0 where
  pub storable : has (codes "no-store") cc ≡ false
  pub reusable : has (codes "no-cache") cc ≡ false
  pub selectable : vary_wildcard (combined_header_values res.header (codes "Vary")) ≡ false
  pub not_private :
      (has (codes "private") cc ≡ false) ⊎ (is_nil (values_at (codes "private") cc) ≡ false)
  pub authorized :
      (is_empty (get (codes "Authorization") r.header) ≡ true)
      ⊎ (has (codes "public") cc ≡ true)
      ⊎ (has (codes "s-maxage") cc ≡ true)
  pub status : storeable res.status_code ≡ true

allows_response_storage-IsShareable :
    (res : Resource) (r : CacheRequest) (cc : CacheControl)
    → allows_response_storage true res r cc ≡ true
    → IsShareable res r cc
unfolding allows_response_storage allows_authenticated_storage
allows_response_storage-IsShareable res r directives h = record {
  storable = ground arith;
  reusable = ground arith;
  selectable = ground arith;
  not_private = ground arith;
  authorized = ground arith;
  status = ground arith;
}

module _ (P : Platform) where
  -- A shared cache stores a response only if it has neither no-store nor no-cache nor an unqualified
  -- private, its Vary is not a wildcard, its status may be stored, and the request either carried no
  -- Authorization or the response is public or has an s-maxage.
  pub is_cacheable-IsShareable :
      (now : ℕ) (res : Resource) (r : CacheRequest)
      → is_cacheable P now true res r ≡ true
      → IsShareable res r (cache_control_of res)
  unfolding is_cacheable
  is_cacheable-IsShareable now res r h =
      allows_response_storage-IsShareable res r (cache_control_of res) (ground arith)

  -- A response is stored only if it will be of use: it has a validator, a lifetime above 0, or a
  -- heuristic lifetime above 0.
  pub is_cacheable_useful :
      (now : ℕ) (shared : Bool) (res : Resource) (r : CacheRequest)
      → is_cacheable P now shared res r ≡ true
      → (has_validators res ≡ true)
        ⊎ ((lifetime : ℤ) × (max_age P now shared res ≡ some lifetime)
            × (ltb_ℤ (pos 0) lifetime ≡ true))
        ⊎ (ltb_ℤ (pos 0) (heuristic_freshness P now shared res) ≡ true)
  unfolding is_cacheable
  is_cacheable_useful now shared res r h = elim (Bool-cases (has_validators res)) [
    | inl validated ↦ inl validated
    | inr bare ↦ elim (Bool-cases (has_explicit_expiration shared res)) [
      | inr implicit ↦ inr (inr (ground arith))
      | inl explicit ↦ elim (Option-cases (max_age P now shared res)) [
        | inl bad ↦ ground arith
        | inr (lifetime, known) ↦ inr (inl (lifetime, known, ground arith))
      ]
    ]
  ]
