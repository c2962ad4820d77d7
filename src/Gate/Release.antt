-- ===== src/Gate/Release.antt =====
-- A running collection has its caller, and a waiter is owed the end of a collection: each stretch of
-- `do` keeps this (agent/collect_gate.go).
use beacle.Prelude.{
  ℕ, suc, ◌==◌, Time, Bool, true, false, ◌||◌, List, [], ◌∷◌, ◌++◌, any, ◌≡◌, subst, arith,
  Bool-cases, inl, inr,
}
use beacle.Gate.{
  Gate, Phase, outside, collecting, storing, waiting, returned, store, release, is_closed,
}

module _ {T : Type 0} where
  unfoldable pub collects : ℕ → Phase T → Bool
  collects k (collecting j) = j == k
  collects k _ = false

  -- Who will close the channel of a collection.
  unfoldable pub holds : ℕ → Phase T → Bool
  holds k (collecting j) = j == k
  holds k (storing j v) = j == k
  holds k _ = false

  unfoldable pub waits : ℕ → Phase T → Bool
  waits k (waiting j) = j == k
  waits k _ = false

  pub any-split :
      (f : Phase T → Bool) (pre post : List (Phase T)) (p : Phase T)
      → any f (pre ++ (p ∷ post)) ≡ (any f pre || (f p || any f post))
  any-split f [] post p = ground arith
  any-split f (q ∷ pre) post p = ground (arith, any-split f pre post p)

  -- A running collection has its caller, and each waiter's channel is closed or will be.
  pub record Serves (g : Gate T) (callers : List (Phase T)) : Type 0 where
    pub serving : g.running ≡ true → any (collects g.current) callers ≡ true
    pub owed :
        (k : ℕ)
        → any (waits k) callers ≡ true
        → (is_closed k g.closed || any (holds k) callers) ≡ true

  holds_of_collects :
      (k : ℕ) (ps : List (Phase T)) → any (collects k) ps ≡ true → any (holds k) ps ≡ true
  unfolding collects holds
  holds_of_collects k [] h = h
  holds_of_collects k (collecting j ∷ ps) h = ground (arith, holds_of_collects k ps)
  holds_of_collects k (storing j v ∷ ps) h = ground (arith, holds_of_collects k ps)
  holds_of_collects k (outside ∷ ps) h = ground (arith, holds_of_collects k ps)
  holds_of_collects k (waiting j ∷ ps) h = ground (arith, holds_of_collects k ps)
  holds_of_collects k (returned v ∷ ps) h = ground (arith, holds_of_collects k ps)

  module _ (pre post : List (Phase T)) (g : Gate T) where
    pub stored :
        (now : Time) (k : ℕ) (v : T)
        → Serves g (pre ++ (collecting k ∷ post))
        → Serves (store now k v g).1 (pre ++ (storing k v ∷ post))
    unfolding store collects holds waits
    stored now k v h = record {
      serving = λ r. ground (arith, r);
      owed = λ j w. ground (
        arith,
        w,
        h.owed j,
        any-split (waits j) pre post (collecting k),
        any-split (waits j) pre post (storing k v),
        any-split (holds j) pre post (collecting k),
        any-split (holds j) pre post (storing k v),
      );
    }

    pub released :
        (k : ℕ) (v : T)
        → Serves g (pre ++ (storing k v ∷ post))
        → Serves (release k v g).1 (pre ++ (returned v ∷ post))
    unfolding release collects holds waits is_closed
    released k v h = record {
      serving = λ r. ground (
        arith,
        h.serving r,
        any-split (collects g.current) pre post (storing k v),
        any-split (collects g.current) pre post (returned v),
      );
      owed = λ j w. ground (
        arith,
        w,
        h.owed j,
        any-split (waits j) pre post (storing k v),
        any-split (waits j) pre post (returned v),
        any-split (holds j) pre post (storing k v),
        any-split (holds j) pre post (returned v),
      );
    }

    pub woken :
        (k : ℕ) (v : T)
        → Serves g (pre ++ (waiting k ∷ post))
        → Serves g (pre ++ (returned v ∷ post))
    unfolding collects holds waits
    woken k v h = record {
      serving = λ r. ground (
        arith,
        h.serving r,
        any-split (collects g.current) pre post (waiting k),
        any-split (collects g.current) pre post (returned v),
      );
      owed = λ j w. ground (
        arith,
        w,
        h.owed j,
        any-split (waits j) pre post (waiting k),
        any-split (waits j) pre post (returned v),
        any-split (holds j) pre post (waiting k),
        any-split (holds j) pre post (returned v),
      );
    }

    pub left : (v : T) → Serves g (pre ++ (returned v ∷ post)) → Serves g (pre ++ (outside ∷ post))
    unfolding collects holds waits
    left v h = record {
      serving = λ r. ground (
        arith,
        h.serving r,
        any-split (collects g.current) pre post outside,
        any-split (collects g.current) pre post (returned v),
      );
      owed = λ j w. ground (
        arith,
        w,
        h.owed j,
        any-split (waits j) pre post outside,
        any-split (waits j) pre post (returned v),
        any-split (holds j) pre post outside,
        any-split (holds j) pre post (returned v),
      );
    }

    pub reused :
        (v : T) → Serves g (pre ++ (outside ∷ post)) → Serves g (pre ++ (returned v ∷ post))
    unfolding collects holds waits
    reused v h = record {
      serving = λ r. ground (
        arith,
        h.serving r,
        any-split (collects g.current) pre post outside,
        any-split (collects g.current) pre post (returned v),
      );
      owed = λ j w. ground (
        arith,
        w,
        h.owed j,
        any-split (waits j) pre post outside,
        any-split (waits j) pre post (returned v),
        any-split (holds j) pre post outside,
        any-split (holds j) pre post (returned v),
      );
    }

    pub queued :
        g.running ≡ true
        → Serves g (pre ++ (outside ∷ post))
        → Serves g (pre ++ (waiting g.current ∷ post))
    unfolding collects holds waits
    queued k h =
        let held = holds_of_collects g.current (pre ++ (outside ∷ post)) (h.serving k) in
        record {
          serving = λ r. ground (
            arith,
            h.serving r,
            any-split (collects g.current) pre post outside,
            any-split (collects g.current) pre post (waiting g.current),
          );
          owed = λ j w. elim (Bool-cases (g.current == j)) [
            | inl e ↦
                let same : g.current ≡ j = ground (arith, e) in
                subst
                  (λ n.
                    (is_closed n g.closed || any (holds n) (pre ++ (waiting g.current ∷ post)))
                    ≡ true)
                  same
                  (ground (
                    arith,
                    held,
                    any-split (holds g.current) pre post outside,
                    any-split (holds g.current) pre post (waiting g.current),
                  ))
            | inr e ↦ ground (
              arith,
              w,
              e,
              h.owed j,
              any-split (waits j) pre post outside,
              any-split (waits j) pre post (waiting g.current),
              any-split (holds j) pre post outside,
              any-split (holds j) pre post (waiting g.current),
            )
          ];
        }

    pub started :
        Serves g (pre ++ (outside ∷ post))
        → Serves
            (record g { running = true; current = suc g.current })
            (pre ++ (collecting (suc g.current) ∷ post))
    unfolding collects holds waits
    started h = record {
      serving = λ r.
          ground
            (arith, any-split (collects (suc g.current)) pre post (collecting (suc g.current)));
      owed = λ j w. ground (
        arith,
        w,
        h.owed j,
        any-split (waits j) pre post outside,
        any-split (waits j) pre post (collecting (suc g.current)),
        any-split (holds j) pre post outside,
        any-split (holds j) pre post (collecting (suc g.current)),
      );
    }
