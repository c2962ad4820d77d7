-- ===== src/Alerts/Evaluate/Sustained.antt =====
-- The sustained-for test against the readings that led to it (backend/alerts.go, `sustained`).
use beacle.Prelude.{
  ◌*◌, Text, lookup, lookup-insert, lookup-erase, Time, since, second, leb, Bool, true, false, List,
  [], ◌∷◌, Option, none, some, text_eq_refl, ◌≡◌, refl, ◌∙◌, Option-cases, inl, inr, ap,
}
use beacle.Alerts.{Engine}
use beacle.Alerts.Evaluate.{sustained, sustained_seconds, since_key}

-- Readings of one metric, newest first: when, and whether it was over its threshold.
abbrev pub Readings : Type 0
Readings = List (Time × Bool)

-- The engine after these readings.
pub replay : Text → Text → Readings → Engine → Engine
replay vps_id metric [] e = e
replay vps_id metric ((t, over) ∷ rs) e =
    (sustained t vps_id metric over (replay vps_id metric rs e)).1

-- Where a run began, once a reading at this time joins it.
join : Time → Option Time → Option Time
join t none = some t
join t (some start) = some start

-- Has a run with this beginning, if any, lasted ten seconds?
abbrev pub has_lasted : Time → Option Time → Bool
has_lasted now none = false
has_lasted now (some start) = leb (sustained_seconds * second) (since now start)

-- When the unbroken run of readings over the threshold began that the newest reading is part of.
pub run_start : Readings → Option Time
unfolding join
run_start [] = none
run_start ((t, false) ∷ rs) = none
run_start ((t, true) ∷ rs) = join t (run_start rs)

-- A reading at a time counts as sustained: it is over, and so was every reading of a run that
-- began at least ten seconds before.
pub is_sustained : Time → Bool → Readings → Bool
is_sustained now false rs = false
is_sustained now true rs = has_lasted now (run_start rs)

module _ (vps_id metric : Text) where
  sustained-since :
      (t : Time) (e : Engine)
      → lookup (since_key vps_id metric) (sustained t vps_id metric true e).1.since
        ≡ join t (lookup (since_key vps_id metric) e.since)
  unfolding sustained join
  sustained-since t e = elim (Option-cases (lookup (since_key vps_id metric) e.since)) [
    | inl new ↦ rw (new, sustained) (rw (lookup-insert, text_eq_refl))
    | inr (start, old) ↦ rw (old, sustained, old) refl
  ]

  sustained-lasted :
      (now : Time) (e : Engine)
      → (sustained now vps_id metric true e).0
        ≡ has_lasted now (lookup (since_key vps_id metric) e.since)
  unfolding sustained
  sustained-lasted now e = elim (Option-cases (lookup (since_key vps_id metric) e.since)) [
    | inl new ↦ rw (new, sustained)
    | inr (start, old) ↦ rw (old, sustained)
  ]

  since-replay :
      (rs : Readings) (e : Engine)
      → lookup (since_key vps_id metric) e.since ≡ none
      → lookup (since_key vps_id metric) (replay vps_id metric rs e).since ≡ run_start rs
  unfolding replay sustained run_start
  since-replay [] e h = h
  since-replay ((t, false) ∷ rs) e h = rw (lookup-erase, text_eq_refl)
  since-replay ((t, true) ∷ rs) e h =
      sustained-since t (replay vps_id metric rs e) ∙ ap (join t) (since-replay rs e h)

  -- Whatever readings came before, on a server and metric that had none, the test answers exactly
  -- whether the new reading and every reading of an unbroken run that began at least ten seconds
  -- earlier were over the threshold.
  pub sustained_iff_run :
      (now : Time) (over : Bool) (rs : Readings) (e : Engine)
      → lookup (since_key vps_id metric) e.since ≡ none
      → (sustained now vps_id metric over (replay vps_id metric rs e)).0 ≡ is_sustained now over rs
  unfolding sustained is_sustained
  sustained_iff_run now false rs e h = refl
  sustained_iff_run now true rs e h =
      sustained-lasted now (replay vps_id metric rs e) ∙ ap (has_lasted now) (since-replay rs e h)
