-- ===== src/Common/Totals.antt =====
-- Maps whose values are sizes: what `insert` and `delete` do to their sum.
use Prim.Native.Nat.{ℕ, ◌+◌}
use mathlib.Core.Path.{◌≡◌, refl}
use mathlib.Core.Option.{Option, none, some}
use mathlib.Core.List.{[], ◌∷◌}
use native.Mathlib.Omega.{arith}
use httpcache_kit.Common.Tests.{GoKey}
use httpcache_kit.Common.Lists.{sum_by}
use httpcache_kit.Common.Maps.{Map, lookup, insert, delete, lookup-insert, lookup-delete}

abbrev pub or_zero : Option ℕ → ℕ
or_zero none = 0
or_zero (some n) = n

-- m[k] of a Go map, where a missing key reads as zero
abbrev pub value_at {ℓ} : {K : Type ℓ} ⦃e : GoKey K⦄ → K → Map K ℕ → ℕ
value_at k m = or_zero (lookup k m)

abbrev pub total {ℓ} : {K : Type ℓ} → Map K ℕ → ℕ
total m = sum_by (λ b. b.1) m

-- No key is bound twice.
abbrev pub IsMap {ℓ κ} : {K : Type ℓ} {V : Type κ} ⦃e : GoKey K⦄ → Map K V → Type κ
IsMap [] = Unit
IsMap ((k, v) ∷ m) = (lookup k m ≡ none) × IsMap m

module _ {ℓ κ} {K : Type ℓ} {V : Type κ} ⦃e : GoKey K⦄ where
  pub insert-IsMap : (k : K) (v : V) (m : Map K V) → IsMap m → IsMap (insert k v m)
  unfolding insert lookup
  insert-IsMap k v [] h = (refl, tt)
  insert-IsMap k v ((j, w) ∷ m) h =
      ground (arith, e.same_iff j k, insert-IsMap k v m, lookup-insert k j v m, e.same_iff k j)

  pub delete-IsMap : (k : K) (m : Map K V) → IsMap m → IsMap (delete k m)
  unfolding delete
  delete-IsMap k [] h = tt
  delete-IsMap k ((j, w) ∷ m) h =
      ground (arith, e.same_iff j k, delete-IsMap k m, lookup-delete k j m, e.same_iff k j)

  pub delete_absent : (k : K) (m : Map K V) → lookup k m ≡ none → delete k m ≡ m
  unfolding delete lookup
  delete_absent k [] h = refl
  delete_absent k ((j, w) ∷ m) h = ground (arith, delete_absent k m)

module _ {ℓ} {K : Type ℓ} ⦃e : GoKey K⦄ where
  pub total-insert :
      (k : K) (n : ℕ) (m : Map K ℕ) → total (insert k n m) + value_at k m ≡ total m + n
  unfolding insert lookup
  total-insert k n [] = omega arith
  total-insert k n ((j, w) ∷ m) = ground (arith, total-insert k n m)

  pub total-delete : (k : K) (m : Map K ℕ) → IsMap m → total (delete k m) + value_at k m ≡ total m
  unfolding delete lookup
  total-delete k [] h = omega arith
  total-delete k ((j, w) ∷ m) h =
      ground (arith, total-delete k m, delete_absent k m, e.same_iff j k)
