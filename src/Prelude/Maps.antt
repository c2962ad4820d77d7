-- ===== src/Prelude/Maps.antt =====
-- A Go map from texts, as an association list. Iteration runs in the list's order: Go leaves the
-- order open, and a theorem about every list is one about every order.
use Prim.Native.Nat.{◌+◌, ◌≤◌}
use mathlib.Core.Path.{◌≡◌, refl}
use mathlib.Core.Bool.{Bool, true, false}
use mathlib.Core.Option.{Option, none, some}
use mathlib.Core.List.{List, [], ◌∷◌}
use native.Mathlib.Omega.{arith}
use beacle.Prelude.Tests.{if◌then◌else◌}
use beacle.Prelude.Lists.{length}
use beacle.Prelude.Texts.{Text, text_eq, text_eq_iff}

abbrev pub Map {ℓ} : Type ℓ → Type ℓ
Map V = List (Text × V)

module _ {ℓ} {V : Type ℓ} where
  unfoldable pub lookup : Text → Map V → Option V
  lookup k [] = none
  lookup k ((j, v) ∷ m) = if text_eq j k then some v else lookup k m

  unfoldable pub insert : Text → V → Map V → Map V
  insert k v [] = (k, v) ∷ []
  insert k v ((j, w) ∷ m) = if text_eq j k then (k, v) ∷ m else (j, w) ∷ insert k v m

  unfoldable pub erase : Text → Map V → Map V
  erase k [] = []
  erase k ((j, w) ∷ m) = if text_eq j k then erase k m else (j, w) ∷ erase k m

  -- The entries that a loop over the map with `delete` leaves.
  unfoldable pub keep : (V → Bool) → Map V → Map V
  keep p [] = []
  keep p ((j, w) ∷ m) = if p w then (j, w) ∷ keep p m else keep p m

  abbrev pub values : Map V → List V
  values [] = []
  values ((j, w) ∷ m) = w ∷ values m

  unfoldable pub has : Text → Map V → Bool
  has k m = elim (lookup k m) [ some v ↦ true | none ↦ false ]

module _ {ℓ} {V : Type ℓ} where
  pub lookup-insert :
      (k j : Text) (v : V) (m : Map V)
      → lookup j (insert k v m) ≡ (if text_eq k j then some v else lookup j m)
  unfolding lookup insert
  lookup-insert k j v [] = refl
  lookup-insert k j v ((i, w) ∷ m) =
      ground (arith, text_eq_iff k j, text_eq_iff i k, text_eq_iff i j, lookup-insert k j v m)

  pub lookup-erase :
      (k j : Text) (m : Map V) → lookup j (erase k m) ≡ (if text_eq k j then none else lookup j m)
  unfolding lookup erase
  lookup-erase k j [] = ground arith
  lookup-erase k j ((i, w) ∷ m) =
      ground (arith, text_eq_iff k j, text_eq_iff i k, text_eq_iff i j, lookup-erase k j m)

  pub length-insert :
      (k : Text) (v : V) (m : Map V)
      → length (insert k v m) ≡ (if has k m then length m else length m + 1)
  unfolding insert has lookup
  length-insert k v [] = omega arith
  length-insert k v ((i, w) ∷ m) = ground (arith, length-insert k v m)

  pub length-erase-le : (k : Text) (m : Map V) → length (erase k m) ≤ length m
  unfolding erase
  length-erase-le k [] = omega arith
  length-erase-le k ((i, w) ∷ m) = ground (arith, length-erase-le k m)

  pub has-insert :
      (k j : Text) (v : V) (m : Map V)
      → has j (insert k v m) ≡ (if text_eq k j then true else has j m)
  unfolding has
  has-insert k j v m = ground (arith, lookup-insert k j v m)

  pub has-erase :
      (k j : Text) (m : Map V) → has j (erase k m) ≡ (if text_eq k j then false else has j m)
  unfolding has
  has-erase k j m = ground (arith, lookup-erase k j m)

  -- No key stands twice: what every Go map is.
  abbrev pub Distinct : Map V → Type 0
  Distinct [] = Unit
  Distinct ((j, w) ∷ m) = (has j m ≡ false) × Distinct m

  pub insert-Distinct : (k : Text) (v : V) (m : Map V) → Distinct m → Distinct (insert k v m)
  unfolding insert has lookup
  insert-Distinct k v [] d = (refl, tt)
  insert-Distinct k v ((j, w) ∷ m) d =
      ground
        (arith, text_eq_iff j k, text_eq_iff k j, insert-Distinct k v m d.1, has-insert k j v m)

  pub erase-Distinct : (k : Text) (m : Map V) → Distinct m → Distinct (erase k m)
  unfolding erase
  erase-Distinct k [] d = d
  erase-Distinct k ((j, w) ∷ m) d = ground (arith, erase-Distinct k m d.1, has-erase k j m)

  pub has-keep : (p : V → Bool) (j : Text) (m : Map V) → has j m ≡ false → has j (keep p m) ≡ false
  unfolding keep has lookup
  has-keep p j [] h = refl
  has-keep p j ((i, w) ∷ m) h = ground (arith, has-keep p j m)

  pub keep-Distinct : (p : V → Bool) (m : Map V) → Distinct m → Distinct (keep p m)
  unfolding keep
  keep-Distinct p [] d = d
  keep-Distinct p ((j, w) ∷ m) d = ground (arith, keep-Distinct p m d.1, has-keep p j m d.0)

  pub lookup-keep :
      (p : V → Bool) (j : Text) (v : V) (m : Map V)
      → lookup j m ≡ some v
      → p v ≡ true
      → lookup j (keep p m) ≡ some v
  unfolding keep lookup
  lookup-keep p j v [] h k = h
  lookup-keep p j v ((i, w) ∷ m) h k = ground (arith, lookup-keep p j v m)

  pub length-keep-le : (p : V → Bool) (m : Map V) → length (keep p m) ≤ length m
  unfolding keep
  length-keep-le p [] = omega arith
  length-keep-le p ((j, w) ∷ m) = ground (arith, length-keep-le p m)
