-- ===== src/Webhooks/Beside.antt =====
-- The choice for one seat beside a server that has the other (backend/webhooks.go, `electWatchers`).
use beacle.Prelude.{
  true, false, List, [], ◌∷◌, All, Option, none, some, text_eq, arith, ◌≡◌, ◌⊎◌, ◌∙◌, sym, ap,
  subst, inl, inr, Bool-cases,
}
use beacle.Models.{Vps}
use beacle.Webhooks.Election.{Addresses, same_network, best_beside, keep_first}
use mathlib.Core.Bool.{true≢false}
use mathlib.Core.List.{Memᴰ}

pub some_inj : {a b : Vps} → some a ≡ some b → a ≡ b
some_inj {a} e = ap (λ o. elim o [ some x ↦ x | none ↦ a ]) e

never_none : (fb : Option Vps) (c : Vps) → keep_first fb c ≡ none → ⊥
unfolding keep_first
never_none none c e = ground arith
never_none (some f) c e = ground arith

module _ (net : Addresses) (t : Vps) where
  step_same :
      (c : Vps) (cs : List Vps) (fb : Option Vps)
      → text_eq c.id t.id ≡ true
      → best_beside net t (c ∷ cs) fb ≡ best_beside net t cs fb
  unfolding best_beside
  step_same c cs fb e = ground (arith, e)

  step_far :
      (c : Vps) (cs : List Vps) (fb : Option Vps)
      → text_eq c.id t.id ≡ false
      → same_network net c t ≡ false
      → best_beside net t (c ∷ cs) fb ≡ some c
  unfolding best_beside
  step_far c cs fb e f = ground (arith, e, f)

  step_near :
      (c : Vps) (cs : List Vps) (fb : Option Vps)
      → text_eq c.id t.id ≡ false
      → same_network net c t ≡ true
      → best_beside net t (c ∷ cs) fb ≡ best_beside net t cs (keep_first fb c)
  unfolding best_beside
  step_near c cs fb e f = ground (arith, e, f)

  kept_first : (fb : Option Vps) (c v : Vps) → keep_first fb c ≡ some v → (fb ≡ some v) ⊎ (c ≡ v)
  unfolding keep_first
  kept_first none c v e = inr (some_inj e)
  kept_first (some f) c v e = inl e

  -- What one candidate more says about a choice.
  grow :
      {P : Type 0} (v c : Vps) (cs : List Vps)
      → P ⊎ (Memᴰ v cs × (text_eq v.id t.id ≡ false))
      → P ⊎ (Memᴰ v (c ∷ cs) × (text_eq v.id t.id ≡ false))
  grow v c cs (inl p) = inl p
  grow v c cs (inr (m, ne)) = inr (Memᴰ.tail m, ne)

  -- The choice beside a server that has a seat is the fallback or a candidate, and not that server.
  pub best_beside_sound :
      (v : Vps) (cs : List Vps) (fb : Option Vps)
      → best_beside net t cs fb ≡ some v
      → (fb ≡ some v) ⊎ (Memᴰ v cs × (text_eq v.id t.id ≡ false))
  unfolding best_beside
  best_beside_sound v [] fb e = inl e
  best_beside_sound v (c ∷ cs) fb e = elim (Bool-cases (text_eq c.id t.id)) [
    | inl s ↦ grow v c cs (best_beside_sound v cs fb (sym (step_same c cs fb s) ∙ e))
    | inr s ↦ elim (Bool-cases (same_network net c t)) [
      | inl n ↦ elim (best_beside_sound v cs (keep_first fb c) (sym (step_near c cs fb s n) ∙ e)) [
        | inl k ↦ elim (kept_first fb c v k) [
          | inl f ↦ inl f
          | inr same ↦ inr (Memᴰ.head (sym same), subst (λ x. text_eq x.id t.id ≡ false) same s)
        ]
        | inr (m, ne) ↦ inr (Memᴰ.tail m, ne)
      ]
      | inr n ↦
          let same = some_inj (sym (step_far c cs fb s n) ∙ e) in
          inr (Memᴰ.head (sym same), subst (λ x. text_eq x.id t.id ≡ false) same s)
    ]
  ]

  pub best_beside-none :
      (cs : List Vps) (fb : Option Vps)
      → best_beside net t cs fb ≡ none
      → (fb ≡ none) × All (λ c. text_eq c.id t.id ≡ true) cs
  unfolding best_beside
  best_beside-none [] fb e = (e, tt)
  best_beside-none (c ∷ cs) fb e = elim (Bool-cases (text_eq c.id t.id)) [
    | inl s ↦
        let rest = best_beside-none cs fb (sym (step_same c cs fb s) ∙ e) in (rest.0, (s, rest.1))
    | inr s ↦ elim (Bool-cases (same_network net c t)) [
      | inl n ↦
          let rest = best_beside-none cs (keep_first fb c) (sym (step_near c cs fb s n) ∙ e) in
          absurd (never_none fb c rest.0)
      | inr n ↦ ground (arith, step_far c cs fb s n, e)
    ]
  ]

  -- A choice in that server's network means that all candidates are in it.
  pub best_beside-same :
      (v : Vps) (cs : List Vps) (fb : Option Vps)
      → best_beside net t cs fb ≡ some v
      → same_network net v t ≡ true
      → All (λ c. (text_eq c.id t.id ≡ true) ⊎ (same_network net c t ≡ true)) cs
  unfolding best_beside
  best_beside-same v [] fb e h = tt
  best_beside-same v (c ∷ cs) fb e h = elim (Bool-cases (text_eq c.id t.id)) [
    | inl s ↦ (inl s, best_beside-same v cs fb (sym (step_same c cs fb s) ∙ e) h)
    | inr s ↦ elim (Bool-cases (same_network net c t)) [
      | inl n ↦ (inr n, best_beside-same v cs (keep_first fb c) (sym (step_near c cs fb s n) ∙ e) h)
      | inr n ↦
          let same = some_inj (sym (step_far c cs fb s n) ∙ e) in
          absurd (true≢false (sym h ∙ (sym (ap (λ x. same_network net x t) same) ∙ n)))
    ]
  ]
