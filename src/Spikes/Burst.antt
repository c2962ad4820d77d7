-- ===== src/Spikes/Burst.antt =====
-- A burst is reported once and does not become normal (agent/spike_detect.go, `observe`).
use beacle.Prelude.{ℕ, Bool, true, false, not, List, [], ◌∷◌, map, All, arith, ◌≡◌, ◌∙◌, refl, ap}
use beacle.Spikes.{Tracker, baseline, is_spike, observe}

-- What a tracker reports of a run of readings, the oldest first, and the tracker after it.
unfoldable pub reports : Tracker → List ℕ → List Bool
reports t [] = []
reports t (v ∷ vs) = (observe t v).0 ∷ reports (observe t v).1 vs

unfoldable pub after : Tracker → List ℕ → Tracker
after t [] = t
after t (v ∷ vs) = after (observe t v).1 vs

spike_step :
    (t : Tracker) (v : ℕ)
    → is_spike t v ≡ true
    → observe t v ≡ (not t.firing, record t { firing = true })
unfolding observe
spike_step t v h = ground (arith, h)

-- Whether it fires or not makes no difference to what counts as a spike.
is_spike-firing :
    (t : Tracker) (b : Bool) (v : ℕ) → is_spike (record t { firing = b }) v ≡ is_spike t v
unfolding is_spike baseline
is_spike-firing t b v = refl

sustained :
    (t : Tracker) (vs : List ℕ)
    → All (λ v. is_spike t v ≡ true) vs
    → (reports (record t { firing = true }) vs ≡ map (λ v. false) vs)
      × ((after (record t { firing = true }) vs).recent ≡ t.recent)
unfolding reports after
sustained t [] h = (refl, refl)
sustained t (v ∷ vs) h =
    let step = spike_step (record t { firing = true }) v (is_spike-firing t true v ∙ h.0) in
    let rest = sustained t vs h.1 in
    (
      ap (λ r. r.0 ∷ reports r.1 vs) step ∙ ap (◌∷◌ false) rest.0,
      ap (λ r. (after r.1 vs).recent) step ∙ rest.1,
    )

-- However long the readings stay above twice the baseline and 15 points over it, the first of them
-- is reported and no other is, and the window from which the baseline is taken stays as it was.
pub burst_once :
    (t : Tracker) (v : ℕ) (vs : List ℕ)
    → t.firing ≡ false
    → All (λ v. is_spike t v ≡ true) (v ∷ vs)
    → (reports t (v ∷ vs) ≡ true ∷ map (λ v. false) vs) × ((after t (v ∷ vs)).recent ≡ t.recent)
unfolding reports after
burst_once t v vs f h =
    let step = spike_step t v h.0 in
    let rest = sustained t vs h.1 in
    (
      ap (λ r. r.0 ∷ reports r.1 vs) step
          ∙ (ap (λ b. not b ∷ reports (record t { firing = true }) vs) f ∙ ap (◌∷◌ true) rest.0),
      ap (λ r. (after r.1 vs).recent) step ∙ rest.1,
    )
