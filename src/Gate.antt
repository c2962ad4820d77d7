-- ===== src/Gate.antt =====
-- The gate that lets one collection run at a time (agent/collect_gate.go, `do`). Each stretch of
-- `do` under the lock is one step of one caller; what is between two of them is a phase.
pub mod Steps
pub mod Exclusion
pub mod Release
pub mod Drain
mod Tests
use beacle.Prelude.{
  ℕ, suc, ◌==◌, Time, Duration, since, ltb, Bool, true, false, not, ◌&&◌, ◌||◌, List, [], ◌∷◌, ◌++◌,
  any, if◌then◌else◌,
}

-- `collectGate`. The channel `done` of each collection is the number of the collection, and
-- `closed` has those that are closed.
pub record Gate (T : Type 0) : Type 0 where
  pub running : Bool
  pub current : ℕ
  pub closed : List ℕ
  pub value : T
  pub at : Time
  pub fresh : Duration

-- Where a caller of `do` is: not in it; on its own collection; with the result stored and its
-- channel not yet closed; waiting for the channel of a collection; or back with a result.
pub data Phase (T : Type 0) : Type 0 where
  outside : Phase T
  collecting : ℕ → Phase T
  storing : ℕ → T → Phase T
  waiting : ℕ → Phase T
  returned : T → Phase T

module _ {T : Type 0} where
  -- A value that is warm enough.
  unfoldable pub is_warm : Time → Gate T → Bool
  is_warm now g = not (g.at == 0) && ltb (since now g.at) g.fresh

  -- The first stretch: reuse, wait, or start a collection.
  unfoldable pub arrive : Time → Gate T → Phase T × Gate T
  arrive now g =
      if is_warm now g
      then (returned g.value, g)
      else if g.running
      then (waiting g.current, g)
      else (collecting (suc g.current), record g { running = true; current = suc g.current })

  -- The second: the collection gave `v`.
  unfoldable pub store : Time → ℕ → T → Gate T → Phase T × Gate T
  store now k v g = (storing k v, record g { value = v; at = now; running = false })

  -- `close(done)`
  unfoldable pub release : ℕ → T → Gate T → Phase T × Gate T
  release k v g = (returned v, record g { closed = k ∷ g.closed })

  -- What a waiter does once its channel is closed.
  unfoldable pub wake : Gate T → Phase T × Gate T
  wake g = (returned g.value, g)

unfoldable pub is_closed : ℕ → List ℕ → Bool
is_closed k ks = any (λ j. j == k) ks
