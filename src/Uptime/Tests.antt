-- ===== src/Uptime/Tests.antt =====
-- A panel that ran from minute 10 to 20, from 21 to 30, and from 60 on.
use beacle.Prelude.{◌*◌, minute, [], ◌∷◌, All, ◌≡◌, refl, sort, sort_insert}
use beacle.Uptime.{Log, begins_before, merge_onto, merge_runs, tail_gap, later, gap_loop, down_from}
use beacle.Uptime.Loop.{Apart}
use beacle.Uptime.Gaps.{down_from-Apart}
use mathlib.Core.List.{Memᴰ}

abbrev log : Log
log = record {
  current = record { from = 60 * minute; to = 70 * minute };
  runs =
      record { from = 10 * minute; to = 20 * minute }
      ∷ record { from = 21 * minute; to = 30 * minute }
      ∷ [];
  file = [];
}

-- The minute between two runs is no gap, and the last minutes of the window are one.
two_gaps :
    down_from (15 * minute) (80 * minute) log
    ≡ record { from = 30 * minute; to = 60 * minute }
      ∷ record { from = 70 * minute; to = 80 * minute }
      ∷ []
unfolding down_from merge_runs merge_onto gap_loop later tail_gap begins_before sort sort_insert
two_gaps = refl

down_from-Apart_example :
    All
      (λ g. Apart (record { from = 10 * minute; to = 20 * minute }) g)
      (down_from (15 * minute) (80 * minute) log)
down_from-Apart_example =
    down_from-Apart (15 * minute) (80 * minute) log
      (record { from = 10 * minute; to = 20 * minute }) (Memᴰ.head refl)
