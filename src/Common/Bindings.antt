-- ===== src/Common/Bindings.antt =====
-- Properties of all bindings of a map.
use mathlib.Core.Path.{◌≡◌, sym, subst}
use mathlib.Core.Logic.{inl, inr}
use mathlib.Core.Option.{some}
use mathlib.Core.List.{[], ◌∷◌}
use native.Mathlib.Omega.{arith}
use httpcache_kit.Common.Tests.{GoKey, ◌==◌, Bool-cases}
use httpcache_kit.Common.Lists.{All}
use httpcache_kit.Common.Maps.{Map, lookup, insert, delete}

module _ {ℓ κ π} {K : Type ℓ} {V : Type κ} ⦃e : GoKey K⦄ (Q : K × V → Type π) where
  pub All-lookup : (key : K) (v : V) (m : Map K V) → All Q m → lookup key m ≡ some v → Q (key, v)
  unfolding lookup
  All-lookup key v [] _ h = ground arith
  All-lookup key v ((bound, w) ∷ m) (here, rest) h = elim (Bool-cases (bound == key)) [
    | inl same ↦
        let p : bound ≡ key = (e.same_iff bound key).0 same in
        let q : w ≡ v = ground arith in subst (λ k. Q (k, v)) p (subst (λ x. Q (bound, x)) q here)
    | inr other ↦ All-lookup key v m rest (ground arith)
  ]

  pub All-delete : (key : K) (m : Map K V) → All Q m → All Q (delete key m)
  unfolding delete
  All-delete key [] _ = tt
  All-delete key ((bound, w) ∷ m) (here, rest) = elim (Bool-cases (bound == key)) [
    | inl same ↦ rw same (All-delete key m rest)
    | inr other ↦ rw other (here, All-delete key m rest)
  ]

  pub All-insert : (key : K) (v : V) (m : Map K V) → Q (key, v) → All Q m → All Q (insert key v m)
  unfolding insert
  All-insert key v [] new _ = (new, tt)
  All-insert key v ((bound, w) ∷ m) new (here, rest) = elim (Bool-cases (bound == key)) [
    | inl same ↦
        let p : key ≡ bound = sym ((e.same_iff bound key).0 same) in
        rw same (subst (λ k. Q (k, v)) p new, rest)
    | inr other ↦ rw other (here, All-insert key v m new rest)
  ]
