-- ===== src/Webhooks/Choice.antt =====
-- That someone is elected, and whom the election prefers (backend/webhooks.go, `electWatchers`).
use beacle.Prelude.{
  ℕ, Text, true, false, List, [], ◌∷◌, sort, All, Mem-sort, Option, none, some, text_eq,
  text_eq_iff, is_empty, arith, ◌≡◌, ◌≢◌, ◌⊎◌, ◌∙◌, refl, sym, subst, inl, inr, Bool-cases,
}
use beacle.Models.{Vps}
use beacle.Webhooks.Election.{
  Addresses, steadier, by_id, same_network, best, unless_same, or_best, fill, elect_watchers,
}
use beacle.Webhooks.Beside.{some_inj, best_beside-none, best_beside-same}
use beacle.Webhooks.Seats.{seats_differ, seats_members, by_id_sound, by_id-found}
use mathlib.Core.Bool.{true≢false}
use mathlib.Core.List.{Memᴰ}
use mathlib.Core.List.Memᴰ

All-Mem : {A : Type 0} (P : A → Type 0) (x : A) (xs : List A) → All P xs → Memᴰ x xs → P x
All-Mem P x [] h m = absurd (Memᴰ.not-nil m)
All-Mem P x (y ∷ ys) h (Memᴰ.head e) = subst P (sym e) h.0
All-Mem P x (y ∷ ys) h (Memᴰ.tail m) = All-Mem P x ys h.1 m

module _ (net : Addresses) where
  best-some :
      (taken : Option Vps) (cs : List Vps) (v : Vps)
      → Memᴰ v cs
      → ((t : Vps) → taken ≡ some t → text_eq v.id t.id ≡ false)
      → best net taken cs ≢ none
  unfolding best
  best-some none [] v m h = absurd (Memᴰ.not-nil m)
  best-some none (c ∷ cs) v m h = λ e. ground arith
  best-some (some t) cs v m h = λ e. true≢false (
      sym (All-Mem (λ c. text_eq c.id t.id ≡ true) v cs (best_beside-none net t cs none e).1 m)
      ∙ h t refl)

  -- One of two different candidates can sit beside any server.
  best-of_two :
      (taken : Option Vps) (cs : List Vps) (v w : Vps)
      → Memᴰ v cs
      → Memᴰ w cs
      → text_eq v.id w.id ≡ false
      → best net taken cs ≢ none
  best-of_two none cs v w m k ne = best-some none cs v m (λ t e. ground (arith, e))
  best-of_two (some t) cs v w m k ne = elim (Bool-cases (text_eq v.id t.id)) [
    | inl e ↦ best-some (some t) cs w k (λ u f.
        subst (λ x. text_eq w.id x.id ≡ false) (some_inj f)
          (ground (arith, e, text_eq_iff v.id t.id, text_eq_iff w.id t.id, text_eq_iff v.id w.id)))
    | inr e ↦
        best-some (some t) cs v m (λ u f. subst (λ x. text_eq v.id x.id ≡ false) (some_inj f) e)
  ]

  filled : (p s : Option Vps) (cs : List Vps) → best net s cs ≢ none → or_best net p s cs ≢ none
  unfolding or_best
  filled none s cs h = h
  filled (some p) s cs h = λ e. ground arith

  -- If there are two candidates, both seats are filled.
  pub seats_filled :
      (cs : List Vps) (coverage : Text → ℕ) (pin_p pin_s : Text) (v w : Vps)
      → Memᴰ v cs
      → Memᴰ w cs
      → text_eq v.id w.id ≡ false
      → ((elect_watchers net cs coverage pin_p pin_s).primary ≢ none)
        × ((elect_watchers net cs coverage pin_p pin_s).secondary ≢ none)
  unfolding elect_watchers fill
  seats_filled [] coverage pin_p pin_s v w m k ne = absurd (Memᴰ.not-nil m)
  seats_filled (c ∷ cs) coverage pin_p pin_s v w m k ne =
      let ordered = sort (steadier coverage) (c ∷ cs) in
      let p = by_id pin_p ordered in
      let s = unless_same p (by_id pin_s ordered) in
      let vm = (Mem-sort (steadier coverage) v (c ∷ cs)).0 m in
      let wm = (Mem-sort (steadier coverage) w (c ∷ cs)).0 k in
      (
        filled p s ordered (best-of_two s ordered v w vm wm ne),
        filled s (or_best net p s ordered) ordered
            (best-of_two (or_best net p s ordered) ordered v w vm wm ne),
      )

  no_pin : (cs : List Vps) (p : Option Vps) → unless_same p (by_id [] cs) ≡ none
  unfolding unless_same by_id
  no_pin [] none = refl
  no_pin [] (some p) = refl
  no_pin (c ∷ cs) p = no_pin cs p

  away :
      (a : Option Vps) (cs : List Vps) (p s : Vps)
      → a ≡ some p
      → or_best net none a cs ≡ some s
      → same_network net s p ≡ true
      → All (λ c. (text_eq c.id p.id ≡ true) ⊎ (same_network net c p ≡ true)) cs
  unfolding or_best best
  away none cs p s e f h = ground (arith, e)
  away (some a) cs p s e f h =
      subst (λ x. All (λ c. (text_eq c.id x.id ≡ true) ⊎ (same_network net c x ≡ true)) cs)
        (some_inj e)
        (best_beside-same net a s cs none f
          (subst (λ x. same_network net s x ≡ true) (sym (some_inj e)) h))

  -- With no pin for the second seat, the two elected servers share a network only if every
  -- candidate is the first one or shares its network.
  pub networks_differ :
      (cs : List Vps) (coverage : Text → ℕ) (pin_p : Text) (p s c : Vps)
      → (elect_watchers net cs coverage pin_p []).primary ≡ some p
      → (elect_watchers net cs coverage pin_p []).secondary ≡ some s
      → same_network net s p ≡ true
      → Memᴰ c cs
      → (text_eq c.id p.id ≡ true) ⊎ (same_network net c p ≡ true)
  unfolding elect_watchers fill
  networks_differ [] coverage pin_p p s c e f h m = absurd (Memᴰ.not-nil m)
  networks_differ (d ∷ cs) coverage pin_p p s c e f h m =
      let ordered = sort (steadier coverage) (d ∷ cs) in
      let pinned = by_id pin_p ordered in
      let unpinned = no_pin ordered pinned in
      All-Mem (λ c. (text_eq c.id p.id ≡ true) ⊎ (same_network net c p ≡ true)) c ordered
        (away (or_best net pinned none ordered) ordered p s
          (subst (λ x. or_best net pinned x ordered ≡ some p) unpinned e)
          (subst (λ x. or_best net x (or_best net pinned x ordered) ordered ≡ some s) unpinned f) h)
        ((Mem-sort (steadier coverage) c (d ∷ cs)).0 m)

  kept :
      (p : Option Vps) (s : Option Vps) (cs : List Vps) (a : Vps)
      → p ≢ none
      → or_best net p s cs ≡ some a
      → p ≡ some a
  unfolding or_best
  kept none s cs a h e = absurd (h refl)
  kept (some p) s cs a h e = e

  -- A server that is pinned to the first seat and is a candidate has that seat.
  pub pin_held :
      (cs : List Vps) (coverage : Text → ℕ) (pin_p pin_s : Text) (v a : Vps)
      → Memᴰ v cs
      → text_eq v.id pin_p ≡ true
      → is_empty pin_p ≡ false
      → (elect_watchers net cs coverage pin_p pin_s).primary ≡ some a
      → text_eq a.id pin_p ≡ true
  unfolding elect_watchers fill
  pin_held [] coverage pin_p pin_s v a m e h f = absurd (Memᴰ.not-nil m)
  pin_held (c ∷ cs) coverage pin_p pin_s v a m e h f =
      let ordered = sort (steadier coverage) (c ∷ cs) in
      let p = by_id pin_p ordered in
      let found = by_id-found pin_p ordered v ((Mem-sort (steadier coverage) v (c ∷ cs)).0 m) e h in
      (by_id_sound pin_p ordered a
        (kept p (unless_same p (by_id pin_s ordered)) ordered a found f)).1

  is_some-cases : (o : Option Vps) → o ≢ none → (a : Vps) × (o ≡ some a)
  is_some-cases none h = absurd (h refl)
  is_some-cases (some a) h = (a, refl)

  -- If there are two candidates with different identifiers, two candidates with different
  -- identifiers are elected, whatever is pinned.
  pub elects_two :
      (cs : List Vps) (coverage : Text → ℕ) (pin_p pin_s : Text) (v w : Vps)
      → Memᴰ v cs
      → Memᴰ w cs
      → text_eq v.id w.id ≡ false
      → (a : Vps) × (b : Vps) × (elect_watchers net cs coverage pin_p pin_s
          ≡ record { primary = some a; secondary = some b })
        × Memᴰ a cs
        × Memᴰ b cs
        × (text_eq b.id a.id ≡ false)
  elects_two cs coverage pin_p pin_s v w m k ne =
      let pair = elect_watchers net cs coverage pin_p pin_s in
      let both = seats_filled cs coverage pin_p pin_s v w m k ne in
      let first = is_some-cases pair.primary both.0 in
      let second = is_some-cases pair.secondary both.1 in
      (
        first.0,
        second.0,
        rw (← first.1, ← second.1) refl,
        seats_members net cs coverage pin_p pin_s first.0 (inl first.1),
        seats_members net cs coverage pin_p pin_s second.0 (inr second.1),
        seats_differ net cs coverage pin_p pin_s first.0 second.0 first.1 second.1,
      )
