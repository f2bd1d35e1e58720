-- ===== src/Common/Lists.antt =====
-- Lists measured by native numbers, sums, and predicates by recursion.
use Prim.Native.Nat.{ℕ, suc, ◌+◌}
use mathlib.Core.Path.{◌≡◌}
use mathlib.Core.List.{List, [], ◌∷◌, ◌++◌, map}
use native.Mathlib.Omega.{arith}

module _ {ℓ} {A : Type ℓ} where
  abbrev pub length : List A → ℕ
  length [] = 0
  length (x ∷ xs) = suc (length xs)

  -- The sum of a measure over a list.
  abbrev pub sum_by : (A → ℕ) → List A → ℕ
  sum_by f [] = 0
  sum_by f (x ∷ xs) = f x + sum_by f xs

  pub sum_by-append : (f : A → ℕ) (xs ys : List A) → sum_by f (xs ++ ys) ≡ sum_by f xs + sum_by f ys
  sum_by-append f [] ys = omega arith
  sum_by-append f (x ∷ xs) ys = omega (arith, sum_by-append f xs ys)

  -- Every item has the property.
  abbrev pub All {κ} : (A → Type κ) → List A → Type κ
  All Q [] = Unit
  All Q (item ∷ rest) = Q item × All Q rest

  pub All-append {κ} :
      (Q : A → Type κ) (front back : List A) → All Q front → All Q back → All Q (front ++ back)
  All-append Q [] back _ all = all
  All-append Q (item ∷ front) back (this, others) all = (this, All-append Q front back others all)

  pub All-weaken {κ μ} :
      (P : A → Type κ) (Q : A → Type μ) (xs : List A) → ((x : A) → P x → Q x) → All P xs → All Q xs
  All-weaken P Q [] step _ = tt
  All-weaken P Q (x ∷ xs) step (this, others) = (step x this, All-weaken P Q xs step others)

module _ {ℓ μ} {A : Type ℓ} {B : Type μ} where
  pub All-map {κ} :
      (f : A → B) (P : B → Type κ) (xs : List A) → All (λ x. P (f x)) xs → All P (map f xs)
  All-map f P [] _ = tt
  All-map f P (x ∷ xs) (this, others) = (this, All-map f P xs others)

  pub All-unmap {κ} :
      (f : A → B) (P : B → Type κ) (xs : List A) → All P (map f xs) → All (λ x. P (f x)) xs
  All-unmap f P [] _ = tt
  All-unmap f P (x ∷ xs) (this, others) = (this, All-unmap f P xs others)
