-- ===== src/Gate/Steps.antt =====
-- The callers of a gate, and their steps in any order (agent/collect_gate.go).
use beacle.Prelude.{ℕ, Time, Bool, true, false, List, ◌∷◌, ◌++◌, ◌≡◌}
use beacle.Gate.{
  Gate, Phase, outside, collecting, storing, waiting, returned, arrive, store, release, wake,
  is_closed,
}

pub record World (T : Type 0) : Type 0 where
  pub gate : Gate T
  pub callers : List (Phase T)

-- The world after the caller between `pre` and `post` took a stretch.
unfoldable pub moved : {T : Type 0} → List (Phase T) → List (Phase T) → Phase T × Gate T → World T
moved pre post r = record { gate = r.1; callers = pre ++ (r.0 ∷ post) }

-- One step of one caller. A caller that is back can call again.
pub data Step {T : Type 0} (w : World T) : World T → Type 0 where
  arrives :
      (now : Time) (pre post : List (Phase T))
      → w.callers ≡ pre ++ (outside ∷ post)
      → Step w (moved pre post (arrive now w.gate))
  stores :
      (now : Time) (k : ℕ) (v : T) (pre post : List (Phase T))
      → w.callers ≡ pre ++ (collecting k ∷ post)
      → Step w (moved pre post (store now k v w.gate))
  releases :
      (k : ℕ) (v : T) (pre post : List (Phase T))
      → w.callers ≡ pre ++ (storing k v ∷ post)
      → Step w (moved pre post (release k v w.gate))
  wakes :
      (k : ℕ) (pre post : List (Phase T))
      → w.callers ≡ pre ++ (waiting k ∷ post)
      → is_closed k w.gate.closed ≡ true
      → Step w (moved pre post (wake w.gate))
  leaves :
      (v : T) (pre post : List (Phase T))
      → w.callers ≡ pre ++ (returned v ∷ post)
      → Step w (moved pre post (outside, w.gate))

-- A call that comes in, or a caller that is back and goes.
unfoldable pub is_traffic : {T : Type 0} {w x : World T} → Step w x → Bool
is_traffic (arrives now pre post e) = true
is_traffic (stores now k v pre post e) = false
is_traffic (releases k v pre post e) = false
is_traffic (wakes k pre post e c) = false
is_traffic (leaves v pre post e) = true

-- A run in which nobody comes and nobody goes.
pub data Onward {T : Type 0} : World T → World T → Type 0 where
  done : {w : World T} → Onward w w
  on : {w x y : World T} → (s : Step w x) → is_traffic s ≡ false → Onward x y → Onward w y

pub data Reach {T : Type 0} (w : World T) : World T → Type 0 where
  here : Reach w w
  next : {x y : World T} → Reach w x → Step x y → Reach w y
