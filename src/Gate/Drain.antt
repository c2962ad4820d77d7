-- ===== src/Gate/Drain.antt =====
-- Nobody waits for ever (agent/collect_gate.go, `do`).
use beacle.Prelude.{
  ℕ, zero, suc, ◌+◌, ◌≤◌, ltb, Time, Bool, true, false, List, [], ◌∷◌, ◌++◌, any, ◌≡◌, ◌∙◌, refl,
  ap, subst, arith, Bool-cases, inl, inr,
}
use beacle.Gate.{
  Gate, Phase, outside, collecting, storing, waiting, returned, arrive, store, release, wake,
  is_closed, is_warm,
}
use beacle.Gate.Steps.{
  World, moved, Step, arrives, stores, releases, wakes, leaves, is_traffic, Onward, done, on, Reach,
  here, next,
}
use beacle.Gate.Release.{
  any-split, holds, waits, Serves, stored, released, woken, left, reused, queued, started,
}

module _ {T : Type 0} where
  -- The stretches that a caller still has before it.
  unfoldable pub stretches : Phase T → ℕ
  stretches (collecting k) = 2
  stretches (storing k v) = 1
  stretches (waiting k) = 1
  stretches outside = 0
  stretches (returned v) = 0

  unfoldable pub ahead : List (Phase T) → ℕ
  ahead [] = 0
  ahead (p ∷ ps) = stretches p + ahead ps

  ahead-split :
      (pre post : List (Phase T)) (p : Phase T)
      → ahead (pre ++ (p ∷ post)) ≡ ahead pre + stretches p + ahead post
  unfolding ahead
  ahead-split [] post p = omega arith
  ahead-split (q ∷ pre) post p = omega (arith, ahead-split pre post p)

  -- A place where a test holds.
  record Found (f : Phase T → Bool) (ps : List (Phase T)) : Type 0 where
    before : List (Phase T)
    it : Phase T
    behind : List (Phase T)
    split : ps ≡ before ++ (it ∷ behind)
    hit : f it ≡ true

  found : (f : Phase T → Bool) (ps : List (Phase T)) → any f ps ≡ true → Found f ps
  found f [] h = ground arith
  found f (p ∷ ps) h = elim (Bool-cases (f p)) [
    | inl e ↦ record { before = []; it = p; behind = ps; split = refl; hit = e }
    | inr e ↦
        let rest = found f ps (ground (arith, e, h)) in
        record {
          before = p ∷ rest.before;
          it = rest.it;
          behind = rest.behind;
          split = ap (◌∷◌ p) rest.split;
          hit = rest.hit;
        }
  ]

  -- A step that is not a new call, and that leaves less to do.
  record Advance (w : World T) : Type 0 where
    to : World T
    step : Step w to
    own : is_traffic step ≡ false
    serves : Serves to.gate to.callers
    less : suc (ahead to.callers) ≤ ahead w.callers

  module _ (w : World T) (h : Serves w.gate w.callers) where
    at_split : (ps : List (Phase T)) → w.callers ≡ ps → Serves w.gate ps
    at_split ps e = subst (Serves w.gate) e h

    finish :
        (k : ℕ) (pre post : List (Phase T)) → w.callers ≡ pre ++ (collecting k ∷ post) → Advance w
    unfolding moved store stretches is_traffic
    finish k pre post e = record {
      to = moved pre post (store 0 k w.gate.value w.gate);
      step = stores 0 k w.gate.value pre post e;
      own = refl;
      serves = stored pre post w.gate 0 k w.gate.value (at_split _ e);
      less = omega (
        arith,
        ap ahead e,
        ahead-split pre post (collecting k),
        ahead-split pre post (storing k w.gate.value),
      );
    }

    close_up :
        (k : ℕ) (v : T) (pre post : List (Phase T))
        → w.callers ≡ pre ++ (storing k v ∷ post)
        → Advance w
    unfolding moved release stretches is_traffic
    close_up k v pre post e = record {
      to = moved pre post (release k v w.gate);
      step = releases k v pre post e;
      own = refl;
      serves = released pre post w.gate k v (at_split _ e);
      less = omega (
        arith,
        ap ahead e,
        ahead-split pre post (storing k v),
        ahead-split pre post (returned v),
      );
    }

    get_up :
        (k : ℕ) (pre post : List (Phase T))
        → w.callers ≡ pre ++ (waiting k ∷ post)
        → is_closed k w.gate.closed ≡ true
        → Advance w
    unfolding moved wake stretches is_traffic
    get_up k pre post e c = record {
      to = moved pre post (wake w.gate);
      step = wakes k pre post e c;
      own = refl;
      serves = woken pre post w.gate k w.gate.value (at_split _ e);
      less = omega (
        arith,
        ap ahead e,
        ahead-split pre post (waiting k),
        ahead-split pre post (returned w.gate.value),
      );
    }

    -- The one that holds a collection can go on.
    holder :
        (k : ℕ) (p : Phase T) (pre post : List (Phase T))
        → holds k p ≡ true
        → w.callers ≡ pre ++ (p ∷ post)
        → Advance w
    unfolding holds
    holder k (collecting j) pre post t e = finish j pre post e
    holder k (storing j v) pre post t e = close_up j v pre post e
    holder k outside pre post t e = ground (arith, t)
    holder k (waiting j) pre post t e = ground (arith, t)
    holder k (returned v) pre post t e = ground (arith, t)

    waiter :
        (k : ℕ) (pre post : List (Phase T))
        → w.callers ≡ pre ++ (waiting k ∷ post)
        → any (waits k) w.callers ≡ true
        → Advance w
    waiter k pre post e t = elim (Bool-cases (is_closed k w.gate.closed)) [
      | inl c ↦ get_up k pre post e c
      | inr c ↦
          let there = found (holds k) w.callers (ground (arith, c, h.owed k t)) in
          holder k there.it there.before there.behind there.hit there.split
    ]

    waits_there :
        (k : ℕ) (pre post : List (Phase T))
        → w.callers ≡ pre ++ (waiting k ∷ post)
        → any (waits k) w.callers ≡ true
    unfolding waits
    waits_there k pre post e =
        ap (any (waits k)) e ∙ (any-split (waits k) pre post (waiting k) ∙ ground arith)

    go_on :
        (p : Phase T) (pre post : List (Phase T))
        → ltb 0 (stretches p) ≡ true
        → w.callers ≡ pre ++ (p ∷ post)
        → Advance w
    unfolding stretches
    go_on (collecting k) pre post t e = finish k pre post e
    go_on (storing k v) pre post t e = close_up k v pre post e
    go_on (waiting k) pre post t e = waiter k pre post e (waits_there k pre post e)
    go_on outside pre post t e = ground (arith, t)
    go_on (returned v) pre post t e = ground (arith, t)

  busy_somewhere : (ps : List (Phase T)) → 1 ≤ ahead ps → any (λ p. ltb 0 (stretches p)) ps ≡ true
  unfolding ahead
  busy_somewhere [] h = ground (arith, h)
  busy_somewhere (p ∷ ps) h = ground (arith, h, busy_somewhere ps)

  advance : (w : World T) → Serves w.gate w.callers → 1 ≤ ahead w.callers → Advance w
  advance w h b =
      let there = found (λ p. ltb 0 (stretches p)) w.callers (busy_somewhere w.callers b) in
      go_on w h there.it there.before there.behind there.hit there.split

  drained :
      (n : ℕ) (w : World T)
      → Serves w.gate w.callers
      → ahead w.callers ≤ n
      → (x : World T) × Onward w x × (ahead x.callers ≡ 0)
  drained zero w h b = (w, done, omega (arith, b))
  drained (suc n) w h b = elim (Bool-cases (ltb 0 (ahead w.callers))) [
    | inr e ↦ (w, done, ground (arith, e))
    | inl e ↦
        let a = advance w h (ground (arith, e)) in
        let rest = drained n a.to a.serves (omega (arith, a.less, b)) in
        (rest.0, on a.step a.own rest.1, rest.2)
  ]

  arrive-warm :
      (now : Time) (g : Gate T) → is_warm now g ≡ true → arrive now g ≡ (returned g.value, g)
  unfolding arrive
  arrive-warm now g e = ground (arith, e)

  arrive-busy :
      (now : Time) (g : Gate T)
      → is_warm now g ≡ false
      → g.running ≡ true
      → arrive now g ≡ (waiting g.current, g)
  unfolding arrive
  arrive-busy now g e f = ground (arith, e, f)

  arrive-free :
      (now : Time) (g : Gate T)
      → is_warm now g ≡ false
      → g.running ≡ false
      → arrive now g
        ≡ (collecting (suc g.current), record g { running = true; current = suc g.current })
  unfolding arrive
  arrive-free now g e f = ground (arith, e, f)

  called :
      (now : Time) (pre post : List (Phase T)) (g : Gate T)
      → Serves g (pre ++ (outside ∷ post))
      → Serves (arrive now g).1 (pre ++ ((arrive now g).0 ∷ post))
  called now pre post g h = elim (Bool-cases (is_warm now g)) [
    | inl e ↦ rw (arrive-warm now g e) (reused pre post g g.value h)
    | inr e ↦ elim (Bool-cases g.running) [
      | inl f ↦ rw (arrive-busy now g e f) (queued pre post g f h)
      | inr f ↦ rw (arrive-free now g e f) (started pre post g h)
    ]
  ]

  Step-Serves : {w x : World T} → Step w x → Serves w.gate w.callers → Serves x.gate x.callers
  unfolding moved wake store release
  Step-Serves {w} (stores now k v pre post e) h =
      stored pre post w.gate now k v (subst (Serves w.gate) e h)
  Step-Serves {w} (releases k v pre post e) h =
      released pre post w.gate k v (subst (Serves w.gate) e h)
  Step-Serves {w} (wakes k pre post e c) h =
      woken pre post w.gate k w.gate.value (subst (Serves w.gate) e h)
  Step-Serves {w} (leaves v pre post e) h = left pre post w.gate v (subst (Serves w.gate) e h)
  Step-Serves {w} (arrives now pre post e) h =
      called now pre post w.gate (subst (Serves w.gate) e h)

  Reach-Serves : {w x : World T} → Reach w x → Serves w.gate w.callers → Serves x.gate x.callers
  Reach-Serves here h = h
  Reach-Serves (next r s) h = Step-Serves s (Reach-Serves r h)

  -- Nobody waits for ever: wherever the callers got to, from a gate whose waiters are served, they
  -- can go on, with no call coming in and no caller leaving, until each of them is outside or back
  -- with a result.
  pub everyone_returns :
      {w x : World T}
      → Serves w.gate w.callers
      → Reach w x
      → (y : World T) × Onward x y × (ahead y.callers ≡ 0)
  everyone_returns {w} {x} h r = drained (ahead x.callers) x (Reach-Serves r h) (omega arith)
