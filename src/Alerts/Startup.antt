-- ===== src/Alerts/Startup.antt =====
-- A new alert engine takes on the open alerts of the store (backend/alerts.go, `NewAlertEngine`).
pub mod Rows
pub mod Tracked
use beacle.Prelude.{
  ℕ, ◌+◌, Text, text_eq, text_eq_refl, text_eq_iff, Map, insert, Time, Bool, true, false, not, ◌&&◌,
  List, [], ◌∷◌, All, All-filter, All-map, any, filter, length, ltb, ◌-◌, if◌then◌else◌, ◌≡◌, ◌⊎◌,
  refl, sym, ap, subst, ◌∙◌, arith, Bool-cases, inl, inr, second,
}
use mathlib.Core.List.Memᴰ
use mathlib.Core.List.{Memᴰ}
use beacle.Models.{Alert}
use beacle.Registry.{Store, persist, state-persist}
use beacle.Registry.AlertRows.{
  remove_first, has_row, resolve_alert, purge_resolved_alerts, set_alerts, open_for,
}
use beacle.Alerts.{Engine, Snapshot, LocalNet, active_key, is_active, service_down}
use beacle.Alerts.Keys.{Plain, is_active-insert}
use beacle.Alerts.Tracking.{RowIsTracked, RowIsTracked-insert, Unique, Unique-filter, IsTracked}
use beacle.Alerts.Offline.{agent_reconnect_grace}

-- The loop over the rows: a row that an older build left for a unit is dropped, another open one
-- is adopted.
unfoldable pub take_on : List Alert → Store Snapshot → Map Bool → Store Snapshot × Map Bool
take_on [] s active = (s, active)
take_on (a ∷ rows) s active =
    let stale = text_eq a.kind service_down && not a.resolved in
    let id = active_key a.vps_id a.kind a.key in
    take_on rows (if stale then (resolve_alert a.id s).1 else s)
      (if stale then active else if not a.resolved then insert id true active else active)

-- `NewAlertEngine`; `net` is what `NewLocalNet` makes.
unfoldable pub new_engine : Time → LocalNet → Store Snapshot → Engine
unfolding take_on
new_engine now net s =
    let purged = (purge_resolved_alerts s).1 in
    let (store, active) = take_on purged.state.alerts purged [] in
    record {
      store = store;
      active = active;
      since = [];
      prev_containers = [];
      cert_hosts = [];
      reach = [];
      quiet_until = now + agent_reconnect_grace;
      tailnet_lost = false;
      net = net;
      listening = false;
      notifying = false;
      sent = [];
      drawn = 0;
    }
