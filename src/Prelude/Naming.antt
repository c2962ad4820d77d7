-- ===== src/Prelude/Naming.antt =====
-- Lists in which no two elements have the same name.
use mathlib.Core.Path.{◌≡◌, refl}
use mathlib.Core.Bool.{Bool, false}
use mathlib.Core.List.{List, [], ◌∷◌, map}
use native.Mathlib.Omega.{arith}
use beacle.Prelude.Lists.{any, filter}
use beacle.Prelude.Texts.{Text, text_eq, text_eq_iff}
use beacle.Prelude.Sorting.{sort, sort_insert}

module _ {A : Type 0} (name : A → Text) where
  abbrev pub is_named : Text → List A → Bool
  is_named id xs = any (λ x. text_eq (name x) id) xs

  abbrev pub Unique : List A → Type 0
  Unique [] = Unit
  Unique (x ∷ xs) = (is_named (name x) xs ≡ false) × Unique xs

  is_named-filter :
      (p : A → Bool) (id : Text) (xs : List A)
      → is_named id xs ≡ false
      → is_named id (filter p xs) ≡ false
  is_named-filter p id [] h = refl
  is_named-filter p id (x ∷ xs) h = ground (arith, is_named-filter p id xs)

  pub filter-Unique : (p : A → Bool) (xs : List A) → Unique xs → Unique (filter p xs)
  filter-Unique p [] u = u
  filter-Unique p (x ∷ xs) u =
      ground (arith, filter-Unique p xs u.1, is_named-filter p (name x) xs u.0)

  is_named-sort_insert :
      (less : A → A → Bool) (id : Text) (x : A) (xs : List A)
      → is_named id (sort_insert less x xs) ≡ is_named id (x ∷ xs)
  unfolding sort_insert
  is_named-sort_insert less id x [] = refl
  is_named-sort_insert less id x (y ∷ ys) = ground (arith, is_named-sort_insert less id x ys)

  pub is_named-sort :
      (less : A → A → Bool) (id : Text) (xs : List A) → is_named id (sort less xs) ≡ is_named id xs
  unfolding sort
  is_named-sort less id [] = refl
  is_named-sort less id (x ∷ xs) =
      ground (arith, is_named-sort_insert less id x (sort less xs), is_named-sort less id xs)

  sort_insert-Unique :
      (less : A → A → Bool) (x : A) (xs : List A)
      → is_named (name x) xs ≡ false
      → Unique xs
      → Unique (sort_insert less x xs)
  unfolding sort_insert
  sort_insert-Unique less x [] h u = (refl, tt)
  sort_insert-Unique less x (y ∷ ys) h u = ground (
    arith,
    text_eq_iff (name y) (name x),
    text_eq_iff (name x) (name y),
    is_named-sort_insert less (name y) x ys,
    sort_insert-Unique less x ys,
  )

  pub sort-Unique : (less : A → A → Bool) (xs : List A) → Unique xs → Unique (sort less xs)
  unfolding sort
  sort-Unique less [] u = tt
  sort-Unique less (x ∷ xs) u =
      sort_insert-Unique less x (sort less xs) (ground (arith, is_named-sort less (name x) xs, u.0))
        (sort-Unique less xs u.1)

module _ {A B : Type 0} (name : A → Text) (label : B → Text) (f : A → B)
    (same : (x : A) → label (f x) ≡ name x) where
  is_named-map : (id : Text) (xs : List A) → is_named label id (map f xs) ≡ is_named name id xs
  is_named-map id [] = refl
  is_named-map id (x ∷ xs) = rw (same x, is_named-map id xs) refl

  pub map-Unique : (xs : List A) → Unique name xs → Unique label (map f xs)
  map-Unique [] u = tt
  map-Unique (x ∷ xs) u = (rw (same x, is_named-map (name x) xs) u.0, map-Unique xs u.1)
