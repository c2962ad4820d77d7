-- ===== src/Spool/Bounds.antt =====
-- A buffer stays within its limit (agent/offline_buffer.go and agent/spike_buffer.go, `Append`).
use beacle.Prelude.{
  ℕ, ◌≤◌, ◌-◌, leb, leb→le, Time, ltb, Bool, true, false, List, [], ◌∷◌, ◌++◌, map, filter, sort,
  drop, length, length-sort, length-filter-le, length-drop, Option, none, some, arith, ◌≡◌, ◌∙◌,
  refl, sym, ap, subst, inl, inr, Bool-cases, Option-cases,
}
use mathlib.Core.Bool.{true≢false}
use beacle.Spool.Dropping.{decoded-map}
use beacle.Spool.{Buffer, load, rewrite, trim, append}

module _ {A : Type 0} (at : A → Time) (usable : A → Bool) (most : ℕ) where
  some_inj : {xs ys : List A} → some xs ≡ some ys → xs ≡ ys
  some_inj {xs} e = ap (λ o. elim o [ some x ↦ x | none ↦ xs ]) e

  load-readable :
      (xs : List A) (b : Buffer A)
      → b.reads ≡ true
      → load at usable (record b { lines = some (map some xs) })
        ≡ some (sort (λ x y. ltb (at x) (at y)) (filter usable xs))
  unfolding load
  load-readable xs b k = rw (k, decoded-map xs) refl

  length-load_rewritten :
      (xs ys : List A) (b : Buffer A)
      → load at usable (record b { lines = some (map some xs) }) ≡ some ys
      → length ys ≤ length xs
  unfolding load
  length-load_rewritten xs ys b e = elim (Bool-cases b.reads) [
    | inl k ↦
        let loaded : some (sort (λ x y. ltb (at x) (at y)) (filter usable xs)) ≡ some ys =
          sym (load-readable xs b k) ∙ e in
        subst (λ zs. length zs ≤ length xs) (some_inj loaded)
          (omega (
            arith,
            length-sort (λ x y. ltb (at x) (at y)) (filter usable xs),
            length-filter-le usable xs,
          ))
    | inr k ↦ ground (arith, k, e)
  ]

  trim-small :
      (b : Buffer A) (all : List A)
      → load at usable b ≡ some all
      → leb (length all) most ≡ true
      → trim at usable most b ≡ (true, b)
  unfolding trim
  trim-small b all e k = rw (e, k, trim) refl

  trim-large :
      (b : Buffer A) (all : List A)
      → load at usable b ≡ some all
      → leb (length all) most ≡ false
      → trim at usable most b ≡ rewrite (drop (length all - most) all) b
  unfolding trim
  trim-large b all e k = rw (e, k, trim) refl

  trim-unread : (b : Buffer A) → load at usable b ≡ none → (trim at usable most b).0 ≡ false
  unfolding trim
  trim-unread b e = rw (e, trim) refl

  length-rewrite :
      (all ys : List A) (b : Buffer A)
      → (rewrite (drop (length all - most) all) b).0 ≡ true
      → load at usable (rewrite (drop (length all - most) all) b).1 ≡ some ys
      → length ys ≤ most
  unfolding rewrite
  length-rewrite all ys b ok e = elim (Bool-cases b.rewrites) [
    | inl w ↦
        let written : rewrite (drop (length all - most) all) b
            ≡ (true, record b { lines = some (map some (drop (length all - most) all)) }) =
          ground (arith, w) in
        omega (
          arith,
          length-load_rewritten (drop (length all - most) all) ys b
              (sym (ap (λ r. load at usable r.1) written) ∙ e),
          length-drop (length all - most) all,
        )
    | inr w ↦ ground (arith, w, ok)
  ]

  length-trim :
      (b : Buffer A) (ys : List A)
      → (trim at usable most b).0 ≡ true
      → load at usable (trim at usable most b).1 ≡ some ys
      → length ys ≤ most
  length-trim b ys ok e = elim (Option-cases (load at usable b)) [
    | inl n ↦ absurd (true≢false (sym ok ∙ trim-unread b n))
    | inr (all, h) ↦ elim (Bool-cases (leb (length all) most)) [
      | inl k ↦
          let same = sym h ∙ (sym (ap (λ r. load at usable r.1) (trim-small b all h k)) ∙ e) in
          subst (λ zs. length zs ≤ most) (some_inj same) (leb→le (length all) most k)
      | inr k ↦
          let big = trim-large b all h k in
          length-rewrite all ys b (sym (ap (λ r. r.0) big) ∙ ok)
            (sym (ap (λ r. load at usable r.1) big) ∙ e)
    ]
  ]

  append-open :
      (x : A) (b : Buffer A)
      → b.appends ≡ true
      → (ls : List (Option A)) × (append at usable most x b
          ≡ trim at usable most (record b { lines = some ls }))
  unfolding append
  append-open x b k = (
    elim b.lines as (λ o. List (Option A)) [ some ls ↦ ls | none ↦ [] ] ++ (some x ∷ []),
    ground (arith, k),
  )

  append-shut : (x : A) (b : Buffer A) → b.appends ≡ false → (append at usable most x b).0 ≡ false
  unfolding append
  append-shut x b k = ground (arith, k)

  -- An append that reports no error leaves a file from which at most the limit is loaded.
  pub append-bounded :
      (x : A) (b : Buffer A) (ys : List A)
      → (append at usable most x b).0 ≡ true
      → load at usable (append at usable most x b).1 ≡ some ys
      → length ys ≤ most
  append-bounded x b ys ok e = elim (Bool-cases b.appends) [
    | inl k ↦
        let same = append-open x b k in
        length-trim (record b { lines = some same.0 }) ys (sym (ap (λ r. r.0) same.1) ∙ ok)
          (sym (ap (λ r. load at usable r.1) same.1) ∙ e)
    | inr k ↦ absurd (true≢false (sym ok ∙ append-shut x b k))
  ]
