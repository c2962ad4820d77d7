-- ===== src/Gate/Tests.antt =====
-- Two callers of a cold gate: one collects, the other waits for it.
use beacle.Prelude.{ℕ, false, [], ◌∷◌, ◌≡◌, ◌≤◌, refl, arith, minute}
use beacle.Gate.{outside, collecting, waiting, arrive, is_warm}
use beacle.Gate.Steps.{Onward, World, moved, arrives, Reach, here, next}
use beacle.Gate.Exclusion.{collectors, one_collector}
use beacle.Gate.Release.{Serves, waits, holds, collects}
use beacle.Gate.Drain.{ahead, everyone_returns}

abbrev cold : World ℕ
cold = record {
  gate = record { running = false; current = 0; closed = []; value = 0; at = 0; fresh = minute };
  callers = outside ∷ outside ∷ [];
}

abbrev one_in : World ℕ
one_in = moved [] (outside ∷ []) (arrive 5 cold.gate)

abbrev both_in : World ℕ
both_in = moved (collecting 1 ∷ []) [] (arrive 6 one_in.gate)

both_came : Reach cold both_in
unfolding moved arrive is_warm
both_came =
    next (next here (arrives 5 [] (outside ∷ []) refl)) (arrives 6 (collecting 1 ∷ []) [] refl)

-- The second waits for the first.
second_waits : both_in.callers ≡ collecting 1 ∷ waiting 1 ∷ []
unfolding moved arrive is_warm
second_waits = refl

one_collector_example : collectors both_in.callers ≤ 1
unfolding collectors
one_collector_example = one_collector both_came refl refl

cold-Serves : Serves cold.gate cold.callers
unfolding waits holds collects
cold-Serves = record { serving = λ r. ground (arith, r); owed = λ k w. ground (arith, w) }

everyone_returns_example : (y : World ℕ) × Onward both_in y × (ahead y.callers ≡ 0)
everyone_returns_example = everyone_returns cold-Serves both_came
