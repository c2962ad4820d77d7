-- ===== src/Watchdog/Sending.antt =====
-- When `sendAll` succeeds (agent/watchdog.go, lines 96-118).
use beacle.Prelude.{
  ℕ, suc, Text, Bool, true, false, List, [], ◌∷◌, any, Option, none, some, arith, ◌≡◌, ◌∙◌, ◌↔◌,
  ◌≤◌, ◌+◌, refl, Option-cases, inl, inr, if◌then◌else◌,
}
use beacle.Alerts.{Message}
use beacle.Watchdog.{Target, Network, send_all, send_round}

-- A target takes the message.
abbrev pub takes : Network → Message → Target → Bool
takes net m t = elim (net.post t m) [ none ↦ true | some e ↦ false ]

module _ (net : Network) (m : Message) where
  -- The number of targets that take the message.
  takers : List Target → ℕ
  takers [] = 0
  takers (t ∷ ts) = if takes net m t then suc (takers ts) else takers ts

  sent-eq :
      (ts : List Target) (first : Option Text) (sent : ℕ)
      → (send_round net m ts first sent).1 ≡ sent + takers ts
  unfolding send_round takers
  sent-eq [] first sent = omega arith
  sent-eq (t ∷ ts) first sent = elim (Option-cases (net.post t m)) [
    | inl e ↦ rw (e, send_round) (sent-eq ts first (suc sent) ∙ ground arith)
    | inr (f, e) ↦ rw (e, send_round) (sent-eq ts _ sent ∙ ground arith)
  ]

  first-kept :
      (ts : List Target) (e : Text) (sent : ℕ) → (send_round net m ts (some e) sent).0 ≡ some e
  unfolding send_round
  first-kept [] e sent = refl
  first-kept (t ∷ ts) e sent = elim (Option-cases (net.post t m)) [
    | inl n ↦ rw (n, send_round) (first-kept ts e (suc sent))
    | inr (f, n) ↦ rw (n, send_round) (first-kept ts e sent)
  ]

  takers_iff : (ts : List Target) → (1 ≤ takers ts) ↔ (any (takes net m) ts ≡ true)
  unfolding takers
  takers_iff [] = ground arith
  takers_iff (t ∷ ts) = ground (arith, takers_iff ts)

  -- If the first target does not take the message, its error is the one that counts.
  first_error :
      (t : Target) (ts : List Target) (f : Text)
      → net.post t m ≡ some f
      → (send_round net m (t ∷ ts) none 0).0 ≡ some f
  unfolding send_round
  first_error t ts f e = rw (e, send_round) (first-kept ts f 0)

  -- Sending to all targets returns no error exactly if one of them took the message.
  pub send_all_iff : (ts : List Target) → (send_all net ts m ≡ none) ↔ (any (takes net m) ts ≡ true)
  unfolding send_all
  send_all_iff [] = ground arith
  send_all_iff (t ∷ ts) = elim (Option-cases (net.post t m)) [
    | inl e ↦ ground (arith, sent-eq (t ∷ ts) none 0, takers_iff (t ∷ ts), e)
    | inr (f, e) ↦
        ground (arith, sent-eq (t ∷ ts) none 0, takers_iff (t ∷ ts), first_error t ts f e, e)
  ]
