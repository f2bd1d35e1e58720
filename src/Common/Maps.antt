-- ===== src/Common/Maps.antt =====
-- Go maps as association lists: a key is bound once, and a lookup reads its binding.
use mathlib.Core.Path.{◌≡◌, refl}
use mathlib.Core.Bool.{Bool, true, false}
use mathlib.Core.Option.{Option, none, some}
use mathlib.Core.List.{List, [], ◌∷◌}
use native.Mathlib.Omega.{arith}
use httpcache_kit.Common.Tests.{GoKey, ◌==◌, if◌then◌else◌}

abbrev pub Map {ℓ κ} : Type ℓ → Type κ → Type (ℓ ⊔ κ)
Map K V = List (K × V)

module _ {ℓ} {K : Type ℓ} ⦃e : GoKey K⦄ where
  unfoldable pub contains : K → List K → Bool
  contains k [] = false
  contains k (j ∷ js) = if j == k then true else contains k js

module _ {ℓ κ} {K : Type ℓ} {V : Type κ} ⦃e : GoKey K⦄ where
  -- m[key], and whether it is there
  unfoldable pub lookup : K → Map K V → Option V
  lookup key [] = none
  lookup key ((bound, value) ∷ rest) = if bound == key then some value else lookup key rest

  -- m[key] = value
  unfoldable pub insert : K → V → Map K V → Map K V
  insert key value [] = (key, value) ∷ []
  insert key value ((bound, old) ∷ rest) =
      if bound == key then (bound, value) ∷ rest else (bound, old) ∷ insert key value rest

  -- delete(m, key)
  unfoldable pub delete : K → Map K V → Map K V
  delete key [] = []
  delete key ((bound, value) ∷ rest) =
      let others = delete key rest in if bound == key then others else (bound, value) ∷ others

  -- for _, key := range keys { m[key] = value }
  unfoldable pub insert_all : List K → V → Map K V → Map K V
  insert_all [] value m = m
  insert_all (key ∷ keys) value m = insert_all keys value (insert key value m)

  pub lookup-insert :
      (key j : K) (value : V) (m : Map K V)
      → lookup j (insert key value m) ≡ (if key == j then some value else lookup j m)
  unfolding lookup insert
  lookup-insert key j value [] = refl
  lookup-insert key j value ((bound, old) ∷ rest) =
      let ih = lookup-insert key j value rest in
      ground (arith, ih, e.same_iff bound key, e.same_iff bound j, e.same_iff key j)

  pub lookup-delete :
      (key j : K) (m : Map K V) → lookup j (delete key m) ≡ (if key == j then none else lookup j m)
  unfolding lookup delete
  lookup-delete key j [] = ground arith
  lookup-delete key j ((bound, old) ∷ rest) =
      let ih = lookup-delete key j rest in
      ground (arith, ih, e.same_iff bound key, e.same_iff bound j, e.same_iff key j)

  pub lookup-insert_all :
      (keys : List K) (j : K) (value : V) (m : Map K V)
      → lookup j (insert_all keys value m) ≡ (if contains j keys then some value else lookup j m)
  unfolding insert_all contains
  lookup-insert_all [] j value m = refl
  lookup-insert_all (key ∷ keys) j value m =
      let step = lookup-insert key j value m in
      ground (arith, step, lookup-insert_all keys j value (insert key value m))

pub ruleset map_laws = (lookup-insert, lookup-delete, lookup-insert_all)
