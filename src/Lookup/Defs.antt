-- ===== src/Lookup/Defs.antt =====
-- handler.go: lookupUsing, lookupBaseUsing, lookupVaryResource, markInvalidatedResource, staleAt and
-- resourceFreshAfter; handler_publication.go: generationRetriever.
--
-- The cache that the handler was given is an interface. What others do to it, and to the handler's
-- evidence, while a retrieval runs is part of the state that the retrieval returns.
use httpcache_kit.Common.{
  ℕ, Bool, false, ◌&&◌, Option, none, some, [], lookup, ltb, ◌==◌, text_key, nat_eq, Text, codes,
  if◌then◌else◌,
}
use httpcache_kit.Http.Headers.{is_empty, combined_header_values}
use httpcache_kit.Http.Platform.{Platform}
use httpcache_kit.Keys.Defs.{Key, CacheRequest, key_string, for_method, vary, vary_wildcard}
use httpcache_kit.Policy.Resource.{Resource, has_explicit_expiration, mark_stale, stored_after}
use httpcache_kit.Policy.Storage.{request_is_cacheable}
use httpcache_kit.Publication.Defs.{Evidence, local_publication_snapshot, stamp}

-- A resource, ErrNotFoundInCache, or another error.
pub data Retrieved : Type 0 where
  found : Resource → Retrieved
  missing failed : Retrieved

-- A Cache with the handler's evidence beside it. `checker` is its StaleAt, if it has that method.
pub record Backing : Type 1 where
  pub World : Type 0
  pub evidence : World → Evidence
  pub retrieve : Text → World → Retrieved × World
  pub checker : Option (Text → World → Option ℕ)

module _ (P : Platform) (B : Backing) where
  unfoldable pub stale_time : Text → B.World → Option ℕ
  stale_time key w = elim B.checker [
    | some stale_at ↦ stale_at key w
    | none ↦ lookup key (B.evidence w).local_stale
  ]

  unfoldable pub resource_fresh_after : Resource → ℕ → Bool
  resource_fresh_after res at = elim B.checker [
    | some _ ↦ stored_after P at res
    | none ↦ ltb at res.handler_stored_at
  ]

  unfoldable pub stamped : ℕ → Retrieved → Retrieved
  stamped at (found res) = found (record res { handler_stored_at = at })
  stamped at missing = missing
  stamped at failed = failed

  -- generationRetriever around the cache's Retrieve.
  unfoldable pub generation_retrieve : Text → B.World → Retrieved × B.World
  generation_retrieve key w =
      let (r, later) = B.retrieve key w in
      let before = local_publication_snapshot key (B.evidence w) in
      let after = local_publication_snapshot key (B.evidence later) in
      elim B.checker [ some _ ↦ (r, later) | none ↦ (stamped (stamp before after) r, later) ]

  unfoldable pub judged : Option ℕ → Bool → Resource → Resource
  judged none base_stale res = if base_stale then mark_stale res else res
  judged (some at) base_stale res = if resource_fresh_after res at then res else mark_stale res

  -- The resource against the marker of its own key, then against the base key's.
  unfoldable pub mark_invalidated_resource : B.World → Text → Text → Bool → Resource → Resource
  mark_invalidated_resource w resource_key base_key base_stale res =
      judged (stale_time base_key w) base_stale
        (if resource_key == base_key then res else judged (stale_time resource_key w) false res)

  -- What a lookup returns, with the request's keys as it leaves them.
  pub record Lookup : Type 0 where
    pub result : Retrieved
    pub lookup_key : Key
    pub request : CacheRequest
    pub world : B.World

  -- A HEAD request may be answered from a GET response with an explicit expiration.
  unfoldable pub head_fallback : Bool → CacheRequest → B.World → Lookup
  head_fallback shared req w =
      let get_key = for_method (codes "GET") req.key in
      let base_key = key_string P get_key in
      let (r, later) = generation_retrieve base_key w in
      let usable =
        λ (res : Resource). has_explicit_expiration shared res && request_is_cacheable req in
      elim r [
        | missing ↦ record { result = missing; lookup_key = get_key; request = req; world = later }
        | failed ↦ record { result = failed; lookup_key = get_key; request = req; world = later }
        | found res ↦ record {
          result = if usable res then found res else missing;
          lookup_key = get_key;
          request =
              if usable res
              then record req { discovery_key = base_key; served_key = base_key }
              else req;
          world = later;
        }
      ]

  unfoldable pub lookup_base : Bool → CacheRequest → B.World → Lookup
  lookup_base shared request w =
      let req = record request { discovery_key = []; served_key = [] } in
      let base_key = key_string P req.key in
      let (r, later) = generation_retrieve base_key w in
      let plain : Lookup = record {
        result = r;
        lookup_key = req.key;
        request = req;
        world = later;
      } in
      let fallback = head_fallback shared req later in
      elim r [
        | missing ↦ if req.method == codes "HEAD" then fallback else plain
        | failed ↦ plain
        | found res ↦ record plain { request = record req { discovery_key = base_key } }
      ]

  unfoldable pub lookup_vary_resource : Resource → Text → Text → Lookup → Lookup
  lookup_vary_resource base base_key vary_header l =
      let variant_key = key_string P (vary P vary_header l.request.header l.lookup_key) in
      let (r, later) = generation_retrieve variant_key l.world in
      if vary_wildcard vary_header then record l { result = missing } else elim r [
        | missing ↦ record l { result = missing; world = later }
        | failed ↦ record l { result = failed; world = later }
        | found res ↦ record l {
          result = found (mark_invalidated_resource later variant_key base_key base.stale res);
          request = record l.request { served_key = variant_key };
          world = later;
        }
      ]

  unfoldable pub finish_lookup : Resource → Lookup → Lookup
  finish_lookup res l =
      let base_key = key_string P l.lookup_key in
      let base = mark_invalidated_resource l.world base_key base_key false res in
      let vary_header = combined_header_values base.header (codes "Vary") in
      let request = record l.request { discovery_key = base_key } in
      if is_empty vary_header
      then record l { result = found base; request = request }
      else lookup_vary_resource base base_key vary_header (record l { request = request })

  unfoldable pub lookup_using : Bool → CacheRequest → B.World → Lookup
  lookup_using shared req w =
      let l = lookup_base shared req w in
      elim l.result [ missing ↦ l | failed ↦ l | found res ↦ finish_lookup res l ]
