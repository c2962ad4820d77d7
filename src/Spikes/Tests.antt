-- ===== src/Spikes/Tests.antt =====
-- A machine that idles at 5 percent, and a burst.
use beacle.Prelude.{true, false, [], ◌∷◌, ◌≡◌, refl, sort, sort_insert}
use beacle.Spikes.{Tracker, baseline, is_spike, above_baseline, observe}
use beacle.Spikes.Burst.{reports, after, burst_once}

-- Ten readings of 5 percent.
abbrev idle : Tracker
idle = record {
  recent = 500 ∷ 500 ∷ 500 ∷ 500 ∷ 500 ∷ 500 ∷ 500 ∷ 500 ∷ 500 ∷ 500 ∷ [];
  firing = false;
}

-- 19 percent is less than 15 points over it.
close_call : (observe idle 1900).0 ≡ false
unfolding observe is_spike baseline above_baseline sort sort_insert
close_call = refl

burst_once_example :
    (reports idle (2000 ∷ 9000 ∷ 3000 ∷ []) ≡ true ∷ false ∷ false ∷ [])
    × ((after idle (2000 ∷ 9000 ∷ 3000 ∷ [])).recent ≡ idle.recent)
unfolding is_spike baseline above_baseline sort sort_insert
burst_once_example = burst_once idle 2000 (9000 ∷ 3000 ∷ []) refl (refl, (refl, (refl, tt)))
