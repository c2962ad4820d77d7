-- ===== src/Prelude/Sorting.antt =====
-- `sort.Slice` and `slices.SortFunc`, as a stable insertion sort by a strict order. Go's sort is
-- not stable; where two elements tie, its order is one of those that the theorems leave open.
use Prim.Native.Nat.{◌+◌}
use mathlib.Core.Path.{◌≡◌, refl}
use mathlib.Core.Bool.{Bool, true, false}
use mathlib.Core.List.{List, [], ◌∷◌}
use native.Mathlib.Omega.{arith}
use beacle.Prelude.Tests.{if◌then◌else◌}
use beacle.Prelude.Lists.{length, All}
use mathlib.Core.Logic.{◌↔◌}
use mathlib.Core.List.{Memᴰ}

module _ {ℓ} {A : Type ℓ} (less : A → A → Bool) where
  unfoldable pub sort_insert : A → List A → List A
  sort_insert x [] = x ∷ []
  sort_insert x (y ∷ ys) = if less y x then y ∷ sort_insert x ys else x ∷ y ∷ ys

  unfoldable pub sort : List A → List A
  sort [] = []
  sort (x ∷ xs) = sort_insert x (sort xs)

  pub length-sort_insert : (x : A) (xs : List A) → length (sort_insert x xs) ≡ length xs + 1
  unfolding sort_insert
  length-sort_insert x [] = omega arith
  length-sort_insert x (y ∷ ys) = ground (arith, length-sort_insert x ys)

  pub length-sort : (xs : List A) → length (sort xs) ≡ length xs
  unfolding sort
  length-sort [] = refl
  length-sort (x ∷ xs) = omega (arith, length-sort xs, length-sort_insert x (sort xs))

module _ {ℓ κ} {A : Type ℓ} (less : A → A → Bool) (P : A → Type κ) where
  pub All-sort_insert : (x : A) (xs : List A) → P x → All P xs → All P (sort_insert less x xs)
  unfolding sort_insert
  All-sort_insert x [] p h = (p, h)
  All-sort_insert x (y ∷ ys) p h =
      elim (less y x) as (λ b. All P (if b then y ∷ sort_insert less x ys else x ∷ y ∷ ys)) [
        | true ↦ (h.0, All-sort_insert x ys p h.1)
        | false ↦ (p, h)
      ]

  pub All-sort : (xs : List A) → All P xs → All P (sort less xs)
  unfolding sort
  All-sort [] h = h
  All-sort (x ∷ xs) h = All-sort_insert x (sort less xs) h.0 (All-sort xs h.1)

-- Sorting neither drops nor adds an element.
module _ {ℓ} {A : Type ℓ} where
  swap : {a x y : A} {xs : List A} → Memᴰ a (y ∷ x ∷ xs) → Memᴰ a (x ∷ y ∷ xs)
  swap (Memᴰ.head e) = Memᴰ.tail (Memᴰ.head e)
  swap (Memᴰ.tail (Memᴰ.head e)) = Memᴰ.head e
  swap (Memᴰ.tail (Memᴰ.tail m)) = Memᴰ.tail (Memᴰ.tail m)

  under : {a y : A} {xs ys : List A} → (Memᴰ a xs → Memᴰ a ys) → Memᴰ a (y ∷ xs) → Memᴰ a (y ∷ ys)
  under f (Memᴰ.head e) = Memᴰ.head e
  under f (Memᴰ.tail m) = Memᴰ.tail (f m)

module _ {ℓ} {A : Type ℓ} (less : A → A → Bool) where
  Mem-sort_insert : (a x : A) (xs : List A) → Memᴰ a (x ∷ xs) ↔ Memᴰ a (sort_insert less x xs)
  unfolding sort_insert
  Mem-sort_insert a x [] = (λ m. m, λ m. m)
  Mem-sort_insert a x (y ∷ ys) =
      elim (less y x)
        as (λ b.
          Memᴰ a (x ∷ y ∷ ys) ↔ Memᴰ a (if b then y ∷ sort_insert less x ys else x ∷ y ∷ ys)) [
            | true ↦ (
              λ m. under (Mem-sort_insert a x ys).0 (swap m),
              λ m. swap (under (Mem-sort_insert a x ys).1 m),
            )
            | false ↦ (λ m. m, λ m. m)
          ]

  pub Mem-sort : (a : A) (xs : List A) → Memᴰ a xs ↔ Memᴰ a (sort less xs)
  unfolding sort
  Mem-sort a [] = (λ m. m, λ m. m)
  Mem-sort a (x ∷ xs) = (
    λ m. (Mem-sort_insert a x (sort less xs)).0 (under (Mem-sort a xs).0 m),
    λ m. under (Mem-sort a xs).1 ((Mem-sort_insert a x (sort less xs)).1 m),
  )
