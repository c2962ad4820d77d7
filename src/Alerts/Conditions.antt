-- ===== src/Alerts/Conditions.antt =====
-- Raising and resolving one condition (backend/alerts.go, `fire` and `clear`).
use beacle.Prelude.{
  ℕ, Text, Time, true, false, [], ◌∷◌, ◌++◌, any, text_eq_refl, ◌≡◌, refl, Bool-cases, inl, inr,
}
use beacle.Models.{Vps, Alert}
use beacle.Registry.{state-persist}
use beacle.Registry.AlertRows.{newest, max_alerts, open_for, set_alerts, add_alert}
use beacle.Registry.Laws.{alerts-resolve_alerts_for, any-filter-not}
use beacle.Alerts.{Engine, active_key, is_active, new_row, fire, clear}
use beacle.Alerts.Keys.{is_active-insert, is_active-erase}
use beacle.Alerts.Tracking.{IsTracked, none_open_of_inactive, fire-active}

module _ (new_id : ℕ → Text) (now : Time) where
  is_active-fire :
      (vps : Vps) (kind severity key msg : Text) (e : Engine)
      → is_active (active_key vps.id kind key) (fire new_id now vps kind severity key msg e).active
        ≡ true
  unfolding fire
  is_active-fire vps kind severity key msg e =
      elim (Bool-cases (is_active (active_key vps.id kind key) e.active)) [
        | inl on ↦ rw on on
        | inr off ↦ rw off (rw (is_active-insert, text_eq_refl))
      ]

  -- A condition that has been raised is active, and raising it again, at any later time and with
  -- any severity and text, changes nothing: no second row, no second message.
  pub fire_twice :
      (later : Time) (vps : Vps) (kind severity key msg severity' msg' : Text) (e : Engine)
      → let f = fire new_id now vps kind severity key msg e in
        (is_active (active_key vps.id kind key) f.active ≡ true)
        × (fire new_id later vps kind severity' key msg' f ≡ f)
  fire_twice later vps kind severity key msg severity' msg' e =
      let on = is_active-fire vps kind severity key msg e in
      (on, fire-active new_id later vps kind severity' key msg' _ on)

  -- A condition that is not active gets one new row, the newest of the list, which is open and
  -- carries the condition, the text and the time; the oldest rows past 500 go.
  pub fire_inactive :
      (vps : Vps) (kind severity key msg : Text) (e : Engine)
      → is_active (active_key vps.id kind key) e.active ≡ false
      → (row : Alert) × ((fire new_id now vps kind severity key msg e).store.state.alerts
          ≡ newest max_alerts (e.store.state.alerts ++ (row ∷ [])))
        × (open_for vps.id kind key row ≡ true)
        × (row.message ≡ msg)
        × (row.created_at ≡ now)
  unfolding fire add_alert set_alerts new_row open_for
  fire_inactive vps kind severity key msg e off = (
    record (new_row vps kind severity key msg) { id = new_id e.drawn; created_at = now },
    rw off (rw state-persist),
    simp text_eq_refl,
    refl,
    refl,
  )

-- Resolving a condition of a tracked engine leaves it inactive and without an open row.
pub clear_resolves :
    (vps_id kind key : Text) (e : Engine)
    → IsTracked e
    → let f = clear vps_id kind key e in
      (is_active (active_key vps_id kind key) f.active ≡ false)
      × (any (open_for vps_id kind key) f.store.state.alerts ≡ false)
unfolding clear
clear_resolves vps_id kind key e t =
    elim (Bool-cases (is_active (active_key vps_id kind key) e.active)) [
      | inl on ↦ rw on (
        rw (is_active-erase, text_eq_refl),
        rw alerts-resolve_alerts_for (any-filter-not _ e.store.state.alerts),
      )
      | inr off ↦
          rw off
            (off, none_open_of_inactive vps_id kind key e.active e.store.state.alerts t.rows off)
    ]
