-- ===== src/Webhooks/Seats.antt =====
-- Who is elected (backend/webhooks.go, `electWatchers`).
use beacle.Prelude.{
  ℕ, Text, true, false, not, ◌&&◌, List, [], ◌∷◌, sort, Mem-sort, Option, none, some, text_eq,
  text_eq_iff, is_empty, arith, ◌≡◌, ◌≢◌, ◌⊎◌, ◌∙◌, sym, subst, inl, inr, Bool-cases,
}
use beacle.Models.{Vps}
use beacle.Webhooks.Election.{
  Addresses, steadier, by_id, best, unless_same, or_best, fill, elect_watchers,
}
use beacle.Webhooks.Beside.{some_inj, best_beside_sound}
use mathlib.Core.List.{Memᴰ}
use mathlib.Core.List.Memᴰ

pub text_ne_sym : (a b : Text) → text_eq a b ≡ false → text_eq b a ≡ false
text_ne_sym a b h = ground (arith, text_eq_iff a b, text_eq_iff b a)

by_id-hit :
    (id : Text) (c : Vps) (cs : List Vps)
    → (not (is_empty id) && text_eq c.id id) ≡ true
    → by_id id (c ∷ cs) ≡ some c
unfolding by_id
by_id-hit id c cs h = ground (arith, h)

by_id-miss :
    (id : Text) (c : Vps) (cs : List Vps)
    → (not (is_empty id) && text_eq c.id id) ≡ false
    → by_id id (c ∷ cs) ≡ by_id id cs
unfolding by_id
by_id-miss id c cs h = ground (arith, h)

pub by_id_sound :
    (id : Text) (cs : List Vps) (v : Vps)
    → by_id id cs ≡ some v
    → Memᴰ v cs × (text_eq v.id id ≡ true)
unfolding by_id
by_id_sound id [] v e = ground arith
by_id_sound id (c ∷ cs) v e = elim (Bool-cases (not (is_empty id) && text_eq c.id id)) [
  | inl h ↦
      let same = some_inj (sym (by_id-hit id c cs h) ∙ e) in
      (Memᴰ.head (sym same), subst (λ x. text_eq x.id id ≡ true) same (ground (arith, h)))
  | inr h ↦
      let rest = by_id_sound id cs v (sym (by_id-miss id c cs h) ∙ e) in (Memᴰ.tail rest.0, rest.1)
]

pub by_id-found :
    (id : Text) (cs : List Vps) (v : Vps)
    → Memᴰ v cs
    → text_eq v.id id ≡ true
    → is_empty id ≡ false
    → by_id id cs ≢ none
unfolding by_id
by_id-found id [] v m e h = absurd (Memᴰ.not-nil m)
by_id-found id (c ∷ cs) v (Memᴰ.head same) e h =
    let hit = subst (λ x. text_eq x.id id ≡ true) same e in λ n. ground (arith, hit, h, n)
by_id-found id (c ∷ cs) v (Memᴰ.tail m) e h = ground (arith, by_id-found id cs v m e h)

pub unless_same_sound :
    (p s : Option Vps) (a b : Vps)
    → p ≡ some a
    → unless_same p s ≡ some b
    → text_eq b.id a.id ≡ false
unfolding unless_same
unless_same_sound none s a b e f = ground arith
unless_same_sound (some p) none a b e f = ground arith
unless_same_sound (some p) (some s) a b e f = elim (Bool-cases (text_eq s.id p.id)) [
  | inl same ↦ ground (arith, same, f)
  | inr other ↦
      let kept : some s ≡ some b = ground (arith, other, f) in
      subst (λ x. text_eq b.id x.id ≡ false) (some_inj e)
        (subst (λ x. text_eq x.id p.id ≡ false) (some_inj kept) other)
]

module _ (net : Addresses) where
  best-sound :
      (taken : Option Vps) (cs : List Vps) (v : Vps) → best net taken cs ≡ some v → Memᴰ v cs
  unfolding best
  best-sound none [] v e = ground arith
  best-sound none (c ∷ cs) v e = Memᴰ.head (sym (some_inj e))
  best-sound (some t) cs v e = elim (best_beside_sound net t v cs none e) [
    | inl n ↦ ground (arith, n)
    | inr (m, ne) ↦ m
  ]

  best-differs :
      (taken : Option Vps) (t : Vps) (cs : List Vps) (v : Vps)
      → taken ≡ some t
      → best net taken cs ≡ some v
      → text_eq v.id t.id ≡ false
  unfolding best
  best-differs none t cs v e f = ground arith
  best-differs (some u) t cs v e f = elim (best_beside_sound net u v cs none f) [
    | inl n ↦ ground (arith, n)
    | inr (m, ne) ↦ subst (λ x. text_eq v.id x.id ≡ false) (some_inj e) ne
  ]

  differ :
      (p s : Option Vps) (cs : List Vps) (a b : Vps)
      → ((a b : Vps) → p ≡ some a → s ≡ some b → text_eq b.id a.id ≡ false)
      → or_best net p s cs ≡ some a
      → or_best net s (or_best net p s cs) cs ≡ some b
      → text_eq b.id a.id ≡ false
  unfolding or_best
  differ (some p) (some s) cs a b h e f = h a b e f
  differ (some p) none cs a b h e f = best-differs (some p) a cs b e f
  differ none (some s) cs a b h e f = text_ne_sym a.id b.id (best-differs (some s) b cs a f e)
  differ none none cs a b h e f = best-differs (best net none cs) a cs b e f

  member :
      (p s : Option Vps) (cs : List Vps) (v : Vps)
      → ((v : Vps) → p ≡ some v → Memᴰ v cs)
      → or_best net p s cs ≡ some v
      → Memᴰ v cs
  unfolding or_best
  member (some p) s cs v h e = h v e
  member none s cs v h e = best-sound s cs v e

  pub unless_same-of : (p s : Option Vps) (v : Vps) → unless_same p s ≡ some v → s ≡ some v
  unfolding unless_same
  unless_same-of none s v e = e
  unless_same-of (some p) none v e = e
  unless_same-of (some p) (some s) v e = ground (arith, e)

  -- The two elected servers are different ones.
  pub seats_differ :
      (cs : List Vps) (coverage : Text → ℕ) (pin_p pin_s : Text) (a b : Vps)
      → (elect_watchers net cs coverage pin_p pin_s).primary ≡ some a
      → (elect_watchers net cs coverage pin_p pin_s).secondary ≡ some b
      → text_eq b.id a.id ≡ false
  unfolding elect_watchers fill
  seats_differ [] coverage pin_p pin_s a b e f = ground arith
  seats_differ (c ∷ cs) coverage pin_p pin_s a b e f =
      let ordered = sort (steadier coverage) (c ∷ cs) in
      differ (by_id pin_p ordered) (unless_same (by_id pin_p ordered) (by_id pin_s ordered)) ordered
        a b (λ a b. unless_same_sound (by_id pin_p ordered) (by_id pin_s ordered) a b) e f

  -- Both elected servers are candidates.
  pub seats_members :
      (cs : List Vps) (coverage : Text → ℕ) (pin_p pin_s : Text) (v : Vps)
      → ((elect_watchers net cs coverage pin_p pin_s).primary ≡ some v)
        ⊎ ((elect_watchers net cs coverage pin_p pin_s).secondary ≡ some v)
      → Memᴰ v cs
  unfolding elect_watchers fill
  seats_members [] coverage pin_p pin_s v e = ground arith
  seats_members (c ∷ cs) coverage pin_p pin_s v e =
      let ordered = sort (steadier coverage) (c ∷ cs) in
      let p = by_id pin_p ordered in
      let s = unless_same p (by_id pin_s ordered) in
      let back = (Mem-sort (steadier coverage) v (c ∷ cs)).1 in
      elim e [
        | inl e ↦ back (member p s ordered v (λ v h. (by_id_sound pin_p ordered v h).0) e)
        | inr e ↦ back (
            member s (or_best net p s ordered) ordered v
              (λ v h. (by_id_sound pin_s ordered v (unless_same-of p (by_id pin_s ordered) v h)).0)
              e)
      ]
