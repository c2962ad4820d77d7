-- ===== src/SpikeRecords/Seen.antt =====
-- Which keys the records of a series have (`seen` of `Record`, backend/spikes.go, lines 111-118).
use beacle.Prelude.{
  Text, text_eq, text_eq_iff, text_eq_refl, Time, true, false, not, ◌&&◌, List, [], ◌∷◌, ◌++◌, map,
  ◌≡◌, refl, sym, ap, ◌∙◌, arith, Bool-cases, inl, inr, if◌then◌else◌, sort, is_named,
  is_named-sort,
}
use mathlib.Core.List.{map-append}
use beacle.Spool.{SpikeRecord}
use beacle.SpikeRecords.{older, key_of, is_seen, is_admissible}

pub is_seen-append :
    (k : Text) (xs ys : List Text)
    → is_seen k (xs ++ ys) ≡ (if is_seen k xs then true else is_seen k ys)
unfolding is_seen
is_seen-append k [] ys = refl
is_seen-append k (x ∷ xs) ys = ground (arith, is_seen-append k xs ys)

unfoldable pub keys : List SpikeRecord → List Text
keys rs = map key_of rs

pub is_seen-rest :
    (k j : Text) (seen : List Text)
    → text_eq j k ≡ false
    → is_seen k (j ∷ seen) ≡ true
    → is_seen k seen ≡ true
unfolding is_seen
is_seen-rest k j seen other h = ground (arith, other)

pub is_seen-keys : (k : Text) (rs : List SpikeRecord) → is_seen k (keys rs) ≡ is_named key_of k rs
unfolding is_seen keys
is_seen-keys k [] = refl
is_seen-keys k (r ∷ rs) = ground (arith, is_seen-keys k rs)

pub is_seen-sort :
    (k : Text) (rs : List SpikeRecord) → is_seen k (keys (sort older rs)) ≡ is_seen k (keys rs)
is_seen-sort k rs =
    is_seen-keys k (sort older rs) ∙ is_named-sort key_of older k rs ∙ sym (is_seen-keys k rs)

pub is_seen-more :
    (k : Text) (rs : List SpikeRecord) (r : SpikeRecord)
    → is_seen k (keys rs) ≡ true
    → is_seen k (keys (rs ++ (r ∷ []))) ≡ true
unfolding keys
is_seen-more k rs r h =
    rw (map-append key_of rs (r ∷ []), is_seen-append k (keys rs) (key_of r ∷ []), h) refl

pub is_seen-last :
    (rs : List SpikeRecord) (r : SpikeRecord) → is_seen (key_of r) (keys (rs ++ (r ∷ []))) ≡ true
unfolding keys is_seen
is_seen-last rs r =
    rw (map-append key_of rs (r ∷ []), is_seen-append (key_of r) (keys rs) (key_of r ∷ []))
      (ground (arith, text_eq_refl (key_of r)))

-- A record that is not taken, now that the records `held` are there.
abbrev pub Covered : Time → List SpikeRecord → SpikeRecord → Type 0
Covered now held r = (is_admissible now r && not (is_seen (key_of r) (keys held))) ≡ false

pub added_key :
    (k : Text) (existing : List SpikeRecord) (seen : List Text) (r : SpikeRecord)
    → (is_seen k seen ≡ true → is_seen k (keys existing) ≡ true)
    → is_seen k (key_of r ∷ seen) ≡ true
    → is_seen k (keys (existing ++ (r ∷ []))) ≡ true
added_key k existing seen r agree h = elim (Bool-cases (text_eq (key_of r) k)) [
  | inl same ↦
      ap (λ j. is_seen j (keys (existing ++ (r ∷ [])))) (sym ((text_eq_iff (key_of r) k).0 same))
      ∙ is_seen-last existing r
  | inr other ↦ is_seen-more k existing r (agree (is_seen-rest k (key_of r) seen other h))
]
