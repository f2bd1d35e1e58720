-- ===== src/Lookup/Validity.antt =====
-- handler.go: markInvalidatedResource and the markers that it reads.
use mathlib.Core.Path.{subst}
use httpcache_kit.Common.{
  ℕ, Bool, true, false, ◌≡◌, refl, ap, ◌∙◌, sym, Option, none, some, ◌==◌, text_key, nat_eq, Text,
  arith, Bool-cases, inl, inr, text_eqb_iff,
}
use httpcache_kit.Http.Platform.{Platform}
use httpcache_kit.Policy.Resource.{Resource, mark_stale, stored_after, received_after, date_after}
use httpcache_kit.Lookup.Defs.{
  Backing, stale_time, resource_fresh_after, judged, mark_invalidated_resource,
}

module _ (P : Platform) (B : Backing) where
  -- The response is newer than the key's invalidation, if the key was invalidated.
  unfoldable pub IsAfter : B.World → Resource → Text → Type 0
  IsAfter w res key =
      (at : ℕ) → stale_time P B key w ≡ some at → resource_fresh_after P B res at ≡ true

  fresh_after-mark_stale :
      (res : Resource) (at : ℕ)
      → resource_fresh_after P B (mark_stale res) at ≡ resource_fresh_after P B res at
  unfolding resource_fresh_after stored_after received_after date_after mark_stale
  fresh_after-mark_stale res at = refl

  judged_unmarked :
      (o : Option ℕ) (base_stale : Bool) (res : Resource)
      → (judged P B o base_stale res).stale ≡ false
      → (judged P B o base_stale res ≡ res)
        × ((at : ℕ) → o ≡ some at → resource_fresh_after P B res at ≡ true)
  unfolding judged mark_stale
  judged_unmarked none true res h = ground arith
  judged_unmarked none false res h = (refl, λ at p. ground arith)
  judged_unmarked (some at) base_stale res h = elim (Bool-cases (resource_fresh_after P B res at)) [
    | inl newer ↦ (rw newer refl, λ t p. cc)
    | inr older ↦ ground arith
  ]

  pub mark_invalidated_unmarked :
      (w : B.World) (resource_key base_key : Text) (base_stale : Bool) (res : Resource)
      → (mark_invalidated_resource P B w resource_key base_key base_stale res).stale ≡ false
      → (mark_invalidated_resource P B w resource_key base_key base_stale res ≡ res)
        × IsAfter w res base_key
        × IsAfter w res resource_key
  unfolding mark_invalidated_resource IsAfter
  mark_invalidated_unmarked w resource_key base_key base_stale res h =
      elim (Bool-cases (resource_key == base_key)) [
        | inl same ↦
            let (kept, after) =
              judged_unmarked (stale_time P B base_key w) base_stale res (rw same at h) in
            (
              rw same kept,
              after,
              λ at p. after at (
                  subst (λ k. stale_time P B k w ≡ some at)
                    ((text_eqb_iff resource_key base_key).0 same) p),
            )
        | inr other ↦
            let inner = judged P B (stale_time P B resource_key w) false res in
            let (outer_kept, after_base) =
              judged_unmarked (stale_time P B base_key w) base_stale inner (rw other at h) in
            let unmarked : inner.stale ≡ false =
              sym (ap (λ r. r.stale) outer_kept) ∙ (rw other at h) in
            let (inner_kept, after_own) =
              judged_unmarked (stale_time P B resource_key w) false res unmarked in
            (
              rw other (outer_kept ∙ inner_kept),
              λ at p. sym (ap (λ r. resource_fresh_after P B r at) inner_kept) ∙ after_base at p,
              after_own,
            )
      ]
