-- ===== src/Lookup/Outcome.antt =====
-- handler.go: what lookupUsing returns, against the markers of the keys that govern it.
use mathlib.Core.Path.{subst}
use httpcache_kit.Common.{
  ℕ, some, Bool, true, false, ◌≡◌, ◌⊎◌, refl, ap, ◌∙◌, sym, ◌&&◌, List, [], ◌∷◌, ◌==◌, text_key,
  contains, nat_eq, Text, codes, arith, Bool-cases, inl, inr, text_eqb_iff, if◌then◌else◌,
}
use httpcache_kit.Http.Headers.{is_empty, combined_header_values}
use httpcache_kit.Http.Platform.{Platform}
use httpcache_kit.Keys.Defs.{CacheRequest, key_string, vary, vary_wildcard, for_method}
use httpcache_kit.Policy.Resource.{Resource, has_explicit_expiration}
use httpcache_kit.Policy.Storage.{request_is_cacheable}
use httpcache_kit.Lookup.Defs.{
  Retrieved, found, missing, failed, Backing, Lookup, mark_invalidated_resource, finish_lookup,
  lookup_vary_resource, lookup_base, stale_time, resource_fresh_after, lookup_using, head_fallback,
  generation_retrieve,
}
use httpcache_kit.Lookup.Validity.{IsAfter, mark_invalidated_unmarked}

-- The keys whose invalidation governs the response: the base under which it was discovered, and
-- the variant that was selected.
unfoldable pub governing : CacheRequest → List Text
governing r =
    if is_empty r.served_key then r.discovery_key ∷ [] else r.discovery_key ∷ r.served_key ∷ []

governing_cases :
    (key : Text) (r : CacheRequest)
    → contains key (governing r) ≡ true
    → (key ≡ r.discovery_key) ⊎ ((is_empty r.served_key ≡ false) × (key ≡ r.served_key))
unfolding governing contains
governing_cases key r h =
    ground (arith, text_eqb_iff r.discovery_key key, text_eqb_iff r.served_key key)

Retrieved-cases :
    (r : Retrieved) → ((res : Resource) × (r ≡ found res)) ⊎ (r ≡ missing) ⊎ (r ≡ failed)
Retrieved-cases (found res) = inl (res, refl)
Retrieved-cases missing = inr (inl refl)
Retrieved-cases failed = inr (inr refl)

module _ (P : Platform) (B : Backing) where
  -- What the base lookup leaves in served_key: nothing, or the key it found the response under.
  HasServed : Lookup P B → Type 0
  HasServed l =
      (is_empty l.request.served_key ≡ true) ⊎ (l.request.served_key ≡ key_string P l.lookup_key)

  head_fallback-HasServed :
      (shared : Bool) (req : CacheRequest) (w : B.World)
      → is_empty req.served_key ≡ true
      → HasServed (head_fallback P B shared req w)
  unfolding HasServed head_fallback
  head_fallback-HasServed shared req w h =
      let get_key = for_method (codes "GET") req.key in
      let base_key = key_string P get_key in
      elim (Retrieved-cases (generation_retrieve P B base_key w).0) [
        | inl (res, p) ↦
            elim (Bool-cases (has_explicit_expiration shared res && request_is_cacheable req)) [
              | inl usable ↦ rw (p, head_fallback, usable) (inr refl)
              | inr unusable ↦ rw (p, head_fallback, unusable) (inl h)
            ]
        | inr (inl p) ↦ rw (p, head_fallback) (inl h)
        | inr (inr p) ↦ rw (p, head_fallback) (inl h)
      ]

  lookup_base-HasServed :
      (shared : Bool) (req : CacheRequest) (w : B.World) → HasServed (lookup_base P B shared req w)
  unfolding HasServed lookup_base
  lookup_base-HasServed shared req w =
      let base_key = key_string P req.key in
      elim (Retrieved-cases (generation_retrieve P B base_key w).0) [
        | inl (res, p) ↦ rw (p, lookup_base) (inl refl)
        | inr (inl p) ↦ elim (Bool-cases (req.method == codes "HEAD")) [
          | inl head ↦ rw (p, lookup_base, head) (head_fallback-HasServed shared _ _ refl)
          | inr other ↦ rw (p, lookup_base, other) (inl refl)
        ]
        | inr (inr p) ↦ rw (p, lookup_base) (inl refl)
      ]

  -- The response of an outcome is newer than what invalidated a key that governs it.
  unfoldable pub IsCurrent : Lookup P B → Type 0
  IsCurrent l =
      (res : Resource) (key : Text)
      → l.result ≡ found res
      → res.stale ≡ false
      → contains key (governing l.request) ≡ true
      → IsAfter P B l.world res key

  found_inj : (r s : Resource) → found r ≡ found s → r ≡ s
  found_inj r s p = ground arith

  -- A response that was judged by its own key and the base key, and those two govern.
  marked-IsCurrent :
      (l : Lookup P B) (own base : Text) (base_stale : Bool) (res : Resource)
      → l.result ≡ found (mark_invalidated_resource P B l.world own base base_stale res)
      → ((key : Text) → contains key (governing l.request) ≡ true → (key ≡ base) ⊎ (key ≡ own))
      → IsCurrent l
  unfolding IsCurrent
  marked-IsCurrent l own base base_stale res p governs served key q fresh g =
      let same = found_inj served _ (sym q ∙ p) in
      let (kept, after_base, after_own) =
        mark_invalidated_unmarked P B l.world own base base_stale res
          (ap (λ r. r.stale) (sym same) ∙ fresh) in
      let is_res = same ∙ kept in
      subst (λ r. IsAfter P B l.world r key) (sym is_res)
        (elim (governs key g) [
          | inl e ↦ subst (IsAfter P B l.world res) (sym e) after_base
          | inr e ↦ subst (IsAfter P B l.world res) (sym e) after_own
        ])

  unfound-IsCurrent : (l : Lookup P B) → ((l.result ≡ missing) ⊎ (l.result ≡ failed)) → IsCurrent l
  unfolding IsCurrent
  unfound-IsCurrent l h res key p = ground arith

  lookup_vary_resource-IsCurrent :
      (base : Resource) (vary_header : Text) (l : Lookup P B)
      → IsCurrent (lookup_vary_resource P B base l.request.discovery_key vary_header l)
  unfolding lookup_vary_resource
  lookup_vary_resource-IsCurrent base vary_header l =
      let variant_key = key_string P (vary P vary_header l.request.header l.lookup_key) in
      elim (Bool-cases (vary_wildcard vary_header)) [
        | inl wild ↦ unfound-IsCurrent _ (rw (lookup_vary_resource, wild) (inl refl))
        | inr plain ↦ elim (Retrieved-cases (generation_retrieve P B variant_key l.world).0) [
          | inr (inl p) ↦ unfound-IsCurrent _ (rw (lookup_vary_resource, plain, p) (inl refl))
          | inr (inr p) ↦ unfound-IsCurrent _ (rw (lookup_vary_resource, plain, p) (inr refl))
          | inl (res, p) ↦
              let l' : Lookup P B = record {
                result = found (
                    mark_invalidated_resource P B (generation_retrieve P B variant_key l.world).1
                      variant_key l.request.discovery_key base.stale res);
                lookup_key = l.lookup_key;
                request = record l.request { served_key = variant_key };
                world = (generation_retrieve P B variant_key l.world).1;
              } in
              rw (lookup_vary_resource, plain, p)
                (marked-IsCurrent l' variant_key l.request.discovery_key base.stale res refl
                  (λ key g. ground (arith, governing_cases key l'.request g)))
        ]
      ]

  finish_lookup-IsCurrent :
      (res : Resource) (l : Lookup P B) → HasServed l → IsCurrent (finish_lookup P B res l)
  unfolding finish_lookup HasServed
  finish_lookup-IsCurrent res l h =
      let base_key = key_string P l.lookup_key in
      let base = mark_invalidated_resource P B l.world base_key base_key false res in
      let vary_header = combined_header_values base.header (codes "Vary") in
      let request' = record l.request { discovery_key = base_key } in
      elim (Bool-cases (is_empty vary_header)) [
        | inr varied ↦
            rw (finish_lookup, varied)
              (lookup_vary_resource-IsCurrent base vary_header (record l { request = request' }))
        | inl plain ↦
            let l' : Lookup P B = record l { result = found base; request = request' } in
            rw (finish_lookup, plain)
              (marked-IsCurrent l' base_key base_key false res refl
                (λ key g. ground (arith, governing_cases key request' g, h)))
      ]

  lookup_using-IsCurrent :
      (shared : Bool) (req : CacheRequest) (w : B.World) → IsCurrent (lookup_using P B shared req w)
  unfolding lookup_using
  lookup_using-IsCurrent shared req w =
      let l = lookup_base P B shared req w in
      elim (Retrieved-cases l.result) [
        | inl (res, p) ↦
            rw (lookup_using, p)
              (finish_lookup-IsCurrent res l (lookup_base-HasServed shared req w))
        | inr (inl p) ↦ rw (lookup_using, p) (unfound-IsCurrent l (inl p))
        | inr (inr p) ↦ rw (lookup_using, p) (unfound-IsCurrent l (inr p))
      ]

  -- If a lookup returns a response that is not marked stale, then no key that governs it, the base
  -- key it was discovered under or the key of its variant, was invalidated at or after the time
  -- from which the response is known to date.
  pub lookup_using_current :
      (shared : Bool) (req : CacheRequest) (w : B.World) (res : Resource) (key : Text) (at : ℕ)
      → (lookup_using P B shared req w).result ≡ found res
      → res.stale ≡ false
      → contains key (governing (lookup_using P B shared req w).request) ≡ true
      → stale_time P B key (lookup_using P B shared req w).world ≡ some at
      → resource_fresh_after P B res at ≡ true
  unfolding IsCurrent IsAfter
  lookup_using_current shared req w res key at p fresh g marked =
      lookup_using-IsCurrent shared req w res key p fresh g at marked
