-- ===== src/Spool/Dropping.antt =====
-- What a buffer holds after its first records were dropped (agent/offline_buffer.go, `DropUpTo`).
use beacle.Prelude.{
  ℕ, ◌<◌, Time, ltb, lt→ltb, Bool, true, false, List, [], ◌∷◌, ◌++◌, map, filter, sort, sort_insert,
  is_nil, All, All-map, Option, none, some, if◌then◌else◌, arith, ◌≡◌, refl, ap, inl, inr,
  Bool-cases, Option-cases,
}
use beacle.Spool.{Buffer, decoded, load, rewrite, remove, drop_up_to, last_at}

pub decoded-map : {A : Type 0} (xs : List A) → decoded (map some xs) ≡ xs
unfolding decoded
decoded-map [] = refl
decoded-map (x ∷ xs) = ap (◌∷◌ x) (decoded-map xs)

module _ {A : Type 0} (at : A → Time) (usable : A → Bool) where
  abbrev sooner : A → A → Bool
  sooner x y = ltb (at x) (at y)

  -- Each record is later than the one before.
  abbrev pub Rising : List A → Type 0
  Rising [] = Unit
  Rising (x ∷ xs) = All (λ y. at x < at y) xs × Rising xs

  sort_insert-first :
      (x : A) (xs : List A) → All (λ y. at x < at y) xs → sort_insert sooner x xs ≡ x ∷ xs
  unfolding sort_insert
  sort_insert-first x [] h = refl
  sort_insert-first x (y ∷ ys) h = ground (arith, h.0)

  sort-of_Rising : (xs : List A) → Rising xs → sort sooner xs ≡ xs
  unfolding sort
  sort-of_Rising [] h = refl
  sort-of_Rising (x ∷ xs) h = rw (sort-of_Rising xs h.1) (sort_insert-first x xs h.0)

  pub Rising-after : (c r : List A) → Rising (c ++ r) → Rising r
  Rising-after [] r h = h
  Rising-after (x ∷ c) r h = Rising-after c r h.1

  pub All-after : (P : A → Type 0) (c r : List A) → All P (c ++ r) → All P r
  All-after P [] r h = h
  All-after P (x ∷ c) r h = All-after P c r h.1

  filter-All : (p : A → Bool) (xs : List A) → All (λ x. p x ≡ true) xs → filter p xs ≡ xs
  filter-All p [] h = refl
  filter-All p (x ∷ xs) h = rw (h.0, filter-All p xs h.1) refl

  last_at-above :
      (n : ℕ) (x : A) (c r : List A) → All (λ y. n < at y) (x ∷ (c ++ r)) → n < last_at at (x ∷ c)
  unfolding last_at
  last_at-above n x [] r h = h.0
  last_at-above n x (y ∷ c) r h = last_at-above n y c r h.1

  not_later : (x : A) → ltb (at x) (at x) ≡ false
  not_later x = ground arith

  not_before : (n m : ℕ) → n < m → ltb m n ≡ false
  not_before n m h = ground arith

  -- What is later than the last record of a chunk is what follows the chunk.
  filter-after :
      (x : A) (c r : List A)
      → Rising (x ∷ (c ++ r))
      → filter (λ y. ltb (last_at at (x ∷ c)) (at y)) (x ∷ (c ++ r)) ≡ r
  unfolding last_at
  filter-after x [] r h =
      rw (not_later x)
        (filter-All (λ y. ltb (at x) (at y)) r (All-map (λ y k. lt→ltb (at x) (at y) k) r h.0))
  filter-after x (y ∷ c) r h =
      rw (not_before (at x) (last_at at (y ∷ c)) (last_at-above (at x) y c r h.0))
        (filter-after y c r h.1)

  -- A record stays in the file as it is written and loaded again.
  load-rewritten :
      (r : List A) (b : Buffer A)
      → b.reads ≡ true
      → Rising r
      → All (λ x. usable x ≡ true) r
      → load at usable (record b { lines = some (map some r) }) ≡ some r
  unfolding load
  load-rewritten r b k h u = rw (k, decoded-map r, filter-All usable r u, sort-of_Rising r h) refl

  reads-of :
      (x : A) (xs : List A) (b : Buffer A) → load at usable b ≡ some (x ∷ xs) → b.reads ≡ true
  unfolding load
  reads-of x xs b e = elim (Option-cases b.lines) [
    | inl n ↦ ground (arith, n, e)
    | inr (ls, n) ↦ ground (arith, n, e)
  ]

  dropped :
      (t : Time) (b : Buffer A) (all r : List A)
      → load at usable b ≡ some all
      → filter (λ x. ltb t (at x)) all ≡ r
      → drop_up_to at usable t b ≡ (if is_nil r then remove b else rewrite r b)
  unfolding drop_up_to
  dropped t b all r e f = rw (e, drop_up_to, f) refl

  remove-shut :
      (b : Buffer A) (ls : List (Option A))
      → b.lines ≡ some ls
      → b.removes ≡ false
      → remove b ≡ (false, b)
  unfolding remove
  remove-shut b ls n k = ground (arith, n, k)

  remove-gone :
      (b : Buffer A) (ls : List (Option A))
      → b.lines ≡ some ls
      → b.removes ≡ true
      → remove b ≡ (true, record b { lines = none })
  unfolding remove
  remove-gone b ls n k = ground (arith, n, k)

  load-none : (b : Buffer A) → b.lines ≡ none → load at usable b ≡ some []
  unfolding load
  load-none b n = rw (n, load) refl

  load-remove :
      (x : A) (c : List A) (b : Buffer A)
      → load at usable b ≡ some (x ∷ c)
      → load at usable (remove b).1 ≡ some (if (remove b).0 then [] else x ∷ c)
  unfolding load
  load-remove x c b e = elim (Option-cases b.lines) [
    | inl n ↦ ground (arith, load-none b n, e)
    | inr (ls, n) ↦ elim (Bool-cases b.removes) [
      | inl k ↦ rw (remove-gone b ls n k) refl
      | inr k ↦ rw (remove-shut b ls n k) e
    ]
  ]

  load-rewrite :
      (all r : List A) (b : Buffer A)
      → load at usable b ≡ some all
      → b.reads ≡ true
      → Rising r
      → All (λ x. usable x ≡ true) r
      → load at usable (rewrite r b).1 ≡ some (if (rewrite r b).0 then r else all)
  unfolding rewrite load
  load-rewrite all r b e k h u = elim (Bool-cases b.rewrites) [
    | inl w ↦ rw (w, rewrite) (load-rewritten r b k h u)
    | inr w ↦ rw (w, rewrite) e
  ]

  -- What is in the file after its first chunk was dropped, or could not be.
  pub load-dropped :
      (x : A) (c r : List A) (b : Buffer A)
      → load at usable b ≡ some (x ∷ (c ++ r))
      → Rising (x ∷ (c ++ r))
      → All (λ y. usable y ≡ true) (x ∷ (c ++ r))
      → load at usable (drop_up_to at usable (last_at at (x ∷ c)) b).1
        ≡ some (if (drop_up_to at usable (last_at at (x ∷ c)) b).0 then r else x ∷ (c ++ r))
  load-dropped x c [] b e h u =
      rw (dropped (last_at at (x ∷ c)) b (x ∷ (c ++ [])) [] e (filter-after x c [] h))
        (load-remove x (c ++ []) b e)
  load-dropped x c (y ∷ r) b e h u =
      rw
        (dropped (last_at at (x ∷ c)) b (x ∷ (c ++ (y ∷ r))) (y ∷ r) e (filter-after x c (y ∷ r) h))
        (load-rewrite (x ∷ (c ++ (y ∷ r))) (y ∷ r) b e (reads-of x (c ++ (y ∷ r)) b e)
          (Rising-after (x ∷ c) (y ∷ r) h) (All-after (λ y. usable y ≡ true) (x ∷ c) (y ∷ r) u))
