-- ===== src/SpikeRecords/Nearest.antt =====
-- A click on the chart finds the closest record (`Nearest`, backend/spikes.go, lines 173-198).
use beacle.Prelude.{
  ◌+◌, ◌-◌, ◌≤◌, ◌<◌, Text, Time, Duration, ltb, List, [], ◌∷◌, Option, none, some, ◌≡◌, ◌⊎◌, inl,
  inr, refl, ap, Bool, true, false, ◌∙◌, sym, subst, arith, All, Bool-cases, if◌then◌else◌,
}
use beacle.Prelude.Ints.{pos}
use mathlib.Core.List.{Memᴰ}
use beacle.Spool.{SpikeRecord}
use beacle.SpikeRecords.{
  Archive, records_of, min_duration, offset, absolute, gap, closer, closest, nearest,
}

-- How far a record is from a moment, on either side.
abbrev pub distance : Time → SpikeRecord → Duration
distance at r = (r.at - at) + (at - r.at)

-- The distance is one that a `Duration` holds, on either side: less than 292 years.
abbrev pub Near : Time → SpikeRecord → Type 0
Near at r = distance at r < min_duration

gap-Near : (at : Time) (r : SpikeRecord) → Near at r → gap at r ≡ pos (distance at r)
unfolding gap offset absolute
gap-Near at r n = ground arith

-- The loop of `Nearest` on distances that have no bound.
near_step : Time → Duration → Option SpikeRecord → SpikeRecord → Option SpikeRecord
near_step at tolerance none r = if ltb tolerance (distance at r) then none else some r
near_step at tolerance (some best) r =
    if ltb tolerance (distance at r)
    then some best
    else if ltb (distance at r) (distance at best)
    then some r
    else some best

near_to : Time → Duration → Option SpikeRecord → List SpikeRecord → Option SpikeRecord
unfolding near_step
near_to at tolerance best [] = best
near_to at tolerance best (r ∷ rs) = near_to at tolerance (near_step at tolerance best r) rs

-- Among `rs`, the answer for a moment and a tolerance.
abbrev pub IsNearest : Time → Duration → List SpikeRecord → Option SpikeRecord → Type 0
IsNearest at tolerance rs none = All (λ q. tolerance < distance at q) rs
IsNearest at tolerance rs (some r) =
    Memᴰ r rs × (distance at r ≤ tolerance) × All (λ q. distance at r ≤ distance at q) rs

-- A further record that is out of tolerance.
far :
    (at : Time) (tolerance : Duration) (q : SpikeRecord) (rs : List SpikeRecord)
    (o : Option SpikeRecord)
    → tolerance < distance at q
    → IsNearest at tolerance rs o
    → IsNearest at tolerance (q ∷ rs) o
far at tolerance q rs none h n = (h, n)
far at tolerance q rs (some r) h n = (Memᴰ.tail n.0, n.1, (omega (arith, h, n.1), n.2))

taken : {r q : SpikeRecord} {rs : List SpikeRecord} → (r ≡ q) ⊎ Memᴰ r rs → Memᴰ r (q ∷ rs)
taken (inl e) = Memᴰ.head e
taken (inr m) = Memᴰ.tail m

-- Where the record that is found comes from.
onward :
    {r best q : SpikeRecord} {rs : List SpikeRecord}
    → (r ≡ best) ⊎ Memᴰ r rs
    → (r ≡ best) ⊎ Memᴰ r (q ∷ rs)
onward (inl e) = inl e
onward (inr m) = inr (Memᴰ.tail m)

near_to-some :
    (at : Time) (tolerance : Duration) (best : SpikeRecord) (rs : List SpikeRecord)
    → distance at best ≤ tolerance
    → (r : SpikeRecord) × (near_to at tolerance (some best) rs ≡ some r)
      × (distance at r ≤ distance at best)
      × All (λ q. distance at r ≤ distance at q) rs
      × ((r ≡ best) ⊎ Memᴰ r rs)
unfolding near_to near_step
near_to-some at tolerance best [] h = (best, refl, omega arith, tt, inl refl)
near_to-some at tolerance best (q ∷ rs) h = elim (Bool-cases (ltb tolerance (distance at q))) [
  | inl out ↦
      let (r, e, near, all, from) = near_to-some at tolerance best rs h in
      (r, rw out e, near, (ground (arith, near, h, out), all), onward from)
  | inr within ↦ elim (Bool-cases (ltb (distance at q) (distance at best))) [
    | inl nearer ↦
        let (r, e, near, all, from) = near_to-some at tolerance q rs (ground (arith, within)) in
        (r, rw (within, nearer) e, ground (arith, near, nearer), (near, all), inr (taken from))
    | inr further ↦
        let (r, e, near, all, from) = near_to-some at tolerance best rs h in
        (r, rw (within, further) e, near, (ground (arith, near, further), all), onward from)
  ]
]

near_to-none :
    (at : Time) (tolerance : Duration) (rs : List SpikeRecord)
    → IsNearest at tolerance rs (near_to at tolerance none rs)
unfolding near_to near_step
near_to-none at tolerance [] = tt
near_to-none at tolerance (q ∷ rs) = elim (Bool-cases (ltb tolerance (distance at q))) [
  | inl out ↦ rw out (far at tolerance q rs _ (ground (arith, out)) (near_to-none at tolerance rs))
  | inr within ↦
      let near_q : distance at q ≤ tolerance = ground (arith, within) in
      let (r, e, near, all, from) = near_to-some at tolerance q rs near_q in
      rw (within, e) (taken from, omega (arith, near, near_q), (near, all))
]

abbrev NearBest : Time → Option SpikeRecord → Type 0
NearBest at none = Unit
NearBest at (some r) = Near at r

closer-Near :
    (at : Time) (tolerance : Duration) (best : Option SpikeRecord) (r : SpikeRecord)
    → NearBest at best
    → Near at r
    → closer at tolerance best r ≡ near_step at tolerance best r
unfolding closer near_step
closer-Near at tolerance none r b n = rw (gap-Near at r n) (ground arith)
closer-Near at tolerance (some best) r b n = rw (gap-Near at r n, gap-Near at best b) (ground arith)

if-NearBest :
    (at : Time) (b : Bool) (o p : Option SpikeRecord)
    → NearBest at o
    → NearBest at p
    → NearBest at (if b then o else p)
if-NearBest at true o p h k = h
if-NearBest at false o p h k = k

near_step-NearBest :
    (at : Time) (tolerance : Duration) (best : Option SpikeRecord) (r : SpikeRecord)
    → NearBest at best
    → Near at r
    → NearBest at (near_step at tolerance best r)
unfolding near_step
near_step-NearBest at tolerance none r b n =
    if-NearBest at (ltb tolerance (distance at r)) none (some r) tt n
near_step-NearBest at tolerance (some best) r b n =
    let nearer = ltb (distance at r) (distance at best) in
    if-NearBest at (ltb tolerance (distance at r)) (some best)
      (if nearer then some r else some best) b (if-NearBest at nearer (some r) (some best) n b)

-- Nothing wraps among records that are near.
closest-Near :
    (at : Time) (tolerance : Duration) (rs : List SpikeRecord) (best : Option SpikeRecord)
    → NearBest at best
    → All (Near at) rs
    → closest at tolerance best rs ≡ near_to at tolerance best rs
unfolding closest near_to
closest-Near at tolerance [] best b n = refl
closest-Near at tolerance (r ∷ rs) best b n =
    ap (λ o. closest at tolerance o rs) (closer-Near at tolerance best r b n.0)
    ∙ closest-Near at tolerance rs (near_step at tolerance best r)
        (near_step-NearBest at tolerance best r b n.0) n.1

-- Where the records of the server are less than 292 years from the moment: what is found lies within
-- the tolerance, and no record is closer to the moment; nothing is found only if every record is
-- further away than the tolerance.
pub nearest-IsNearest :
    (vps_id : Text) (at : Time) (tolerance : Duration) (s : Archive)
    → All (Near at) (records_of vps_id s)
    → IsNearest at tolerance (records_of vps_id s) (nearest vps_id at tolerance s)
unfolding nearest
nearest-IsNearest vps_id at tolerance s n =
    subst (IsNearest at tolerance (records_of vps_id s))
      (sym (closest-Near at tolerance (records_of vps_id s) none tt n))
      (near_to-none at tolerance (records_of vps_id s))
