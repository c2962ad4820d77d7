-- ===== src/Gate/Exclusion.antt =====
-- One collection runs at a time (agent/collect_gate.go, `do`).
use beacle.Prelude.{
  ℕ, suc, ◌+◌, ◌≤◌, Time, false, List, [], ◌∷◌, ◌++◌, ◌≡◌, ◌∙◌, refl, sym, ap, arith, if◌then◌else◌,
}
use beacle.Gate.{
  Gate, Phase, outside, collecting, storing, waiting, returned, arrive, store, release, wake,
}
use beacle.Gate.Steps.{
  World, moved, Step, arrives, stores, releases, wakes, leaves, Reach, here, next,
}

module _ {T : Type 0} where
  -- The number of callers that collect.
  unfoldable pub collectors : List (Phase T) → ℕ
  collectors [] = 0
  collectors (collecting k ∷ ps) = suc (collectors ps)
  collectors (outside ∷ ps) = collectors ps
  collectors (storing k v ∷ ps) = collectors ps
  collectors (waiting k ∷ ps) = collectors ps
  collectors (returned v ∷ ps) = collectors ps

  weight : Phase T → ℕ
  weight (collecting k) = 1
  weight outside = 0
  weight (storing k v) = 0
  weight (waiting k) = 0
  weight (returned v) = 0

  collectors-cons :
      (p : Phase T) (ps : List (Phase T)) → collectors (p ∷ ps) ≡ weight p + collectors ps
  unfolding collectors weight
  collectors-cons (collecting k) ps = omega arith
  collectors-cons outside ps = omega arith
  collectors-cons (storing k v) ps = omega arith
  collectors-cons (waiting k) ps = omega arith
  collectors-cons (returned v) ps = omega arith

  collectors-append :
      (pre ps : List (Phase T)) → collectors (pre ++ ps) ≡ collectors pre + collectors ps
  unfolding collectors
  collectors-append [] ps = omega arith
  collectors-append (p ∷ pre) ps =
      omega (arith, collectors-cons p (pre ++ ps), collectors-cons p pre, collectors-append pre ps)

  collectors-split :
      (pre post : List (Phase T)) (p : Phase T)
      → collectors (pre ++ (p ∷ post)) ≡ collectors pre + collectors post + weight p
  collectors-split pre post p =
      omega (arith, collectors-append pre (p ∷ post), collectors-cons p post)

  arrived :
      (now : Time) (g : Gate T)
      → weight (arrive now g).0 + (if g.running then 1 else 0)
        ≡ (if (arrive now g).1.running then 1 else 0) + weight outside
  unfolding arrive weight
  arrived now g = ground arith

  -- The gate says whether a caller collects.
  abbrev pub Excludes : World T → Type 0
  Excludes w = collectors w.callers ≡ (if w.gate.running then 1 else 0)

  Step-Excludes : {w x : World T} → Step w x → Excludes w → Excludes x
  unfolding moved store release wake weight
  Step-Excludes {w} (arrives now pre post e) h =
      let before = sym (collectors-split pre post outside) ∙ (ap collectors (sym e) ∙ h) in
      omega (arith, before, arrived now w.gate, collectors-split pre post (arrive now w.gate).0)
  Step-Excludes {w} (stores now k v pre post e) h =
      let before = sym (collectors-split pre post (collecting k)) ∙ (ap collectors (sym e) ∙ h) in
      ground (arith, before, collectors-split pre post (storing k v))
  Step-Excludes {w} (releases k v pre post e) h =
      let before = sym (collectors-split pre post (storing k v)) ∙ (ap collectors (sym e) ∙ h) in
      ground (arith, before, collectors-split pre post (returned v))
  Step-Excludes {w} (wakes k pre post e c) h =
      let before = sym (collectors-split pre post (waiting k)) ∙ (ap collectors (sym e) ∙ h) in
      ground (arith, before, collectors-split pre post (returned w.gate.value))
  Step-Excludes {w} (leaves v pre post e) h =
      let before = sym (collectors-split pre post (returned v)) ∙ (ap collectors (sym e) ∙ h) in
      ground (arith, before, collectors-split pre post outside)

  Reach-Excludes : {w x : World T} → Reach w x → Excludes w → Excludes x
  Reach-Excludes here h = h
  Reach-Excludes (next r s) h = Step-Excludes s (Reach-Excludes r h)

  -- From a world in which nobody collects and the gate knows it, whatever the callers do and in
  -- whatever order, at most one of them collects.
  pub one_collector :
      {w x : World T}
      → Reach w x
      → collectors w.callers ≡ 0
      → w.gate.running ≡ false
      → collectors x.callers ≤ 1
  one_collector {w} {x} r z k =
      let start : ◌≡◌ {A = ℕ} (if w.gate.running then 1 else 0) 0 = rw k refl in
      ground (arith, Reach-Excludes r (z ∙ sym start))
