-- ===== src/Alerts/Offline/Keeps.antt =====
-- The sweep keeps the open alerts tracked (backend/alerts.go, `sweepOffline`).
use beacle.Prelude.{
  ℕ, Text, lookup, Time, Bool, false, ◌||◌, List, [], ◌∷◌, All, Option, none, some, arith, ◌≡◌,
  refl, Bool-cases, inl, inr,
}
use beacle.Models.{Vps, status_eq, offline, agent_down as down_status}
use beacle.Registry.{Store, Entry, Marker, marker_fresh, touch}
use beacle.Registry.Servers.{
  set_server, update_vps, clear_restart, clear_snapshot, restart_marker, list_vps,
}
use beacle.Alerts.{Engine, Snapshot, Probe, agent_down, agent_offline}
use beacle.Alerts.Keys.{Plain}
use beacle.Alerts.Tracking.{
  IsTracked, fire-IsTracked, clear-IsTracked, clear_reachability-IsTracked, if-IsTracked,
}
use beacle.Alerts.Offline.{
  Network, to_status, hold_alerts, check_line, line_up, reachable_from, host_reachable, set_status,
  sweep_live, raise_silent, sweep_silent, holding_marker, sweep_one, sweep_all, sweep_fleet,
  ask_line, sweep_offline,
}

alerts-update_vps :
    (id : Text) (f : Entry → Entry) (s : Store Snapshot)
    → (update_vps id f s).1.state.alerts ≡ s.state.alerts
unfolding update_vps set_server touch
alerts-update_vps id f s = ground arith

alerts-clear_restart :
    (id : Text) (s : Store Snapshot) → (clear_restart id s).state.alerts ≡ s.state.alerts
unfolding clear_restart set_server touch
alerts-clear_restart id s = ground arith

-- The alerts and the active conditions are all that being tracked depends on.
same-IsTracked :
    (e f : Engine)
    → f.active ≡ e.active
    → f.store.state.alerts ≡ e.store.state.alerts
    → IsTracked e
    → IsTracked f
same-IsTracked e f a s t = record { rows = rw (a, s) t.rows; unique = rw s t.unique }

module _ (new_id : ℕ → Text) (now : Time) (network : Network) where
  set_status-IsTracked :
      (id : Text) (f : Entry → Entry) (e : Engine)
      → IsTracked e
      → IsTracked (set_status new_id now network id f e)
  unfolding set_status
  set_status-IsTracked id f e t = same-IsTracked e _ refl (alerts-update_vps id f e.store) t

  unmarked-IsTracked :
      (id : Text) (e : Engine)
      → IsTracked e
      → IsTracked (record e { store = clear_restart id e.store })
  unmarked-IsTracked id e t = same-IsTracked e _ refl (alerts-clear_restart id e.store) t

  hold_alerts-IsTracked :
      (d : ℕ) (e : Engine) → IsTracked e → IsTracked (hold_alerts new_id now network d e)
  unfolding hold_alerts
  hold_alerts-IsTracked d e t = same-IsTracked e _ (ground arith) (ground arith) t

  ask_line-IsTracked :
      (vs : List Vps) (e : Engine) → IsTracked e → IsTracked (ask_line new_id now network vs e).1
  unfolding ask_line line_up check_line
  ask_line-IsTracked vs e t = same-IsTracked e _ (ground arith) (ground arith) t

  host_reachable-IsTracked :
      (id host : Text) (o : Option Probe) (e : Engine)
      → IsTracked e
      → IsTracked (reachable_from new_id now network id host o e).1
  unfolding reachable_from
  host_reachable-IsTracked id host none e t = same-IsTracked e _ refl refl t
  host_reachable-IsTracked id host (some c) e t = same-IsTracked e _ (ground arith) (ground arith) t

  module _ (v : Vps) (p : Plain v.id) where
    sweep_live-IsTracked :
        (m : Option Marker) (e : Engine)
        → IsTracked e
        → IsTracked (sweep_live new_id now network v m e)
    unfolding sweep_live
    sweep_live-IsTracked none e t =
        clear_reachability-IsTracked v.id _ p (if-IsTracked _ (set_status-IsTracked v.id _ e t) t)
    sweep_live-IsTracked (some m) e t = clear_reachability-IsTracked v.id _ p (
        if-IsTracked _ (set_status-IsTracked v.id _ _ (unmarked-IsTracked v.id e t))
          (if-IsTracked _ t (set_status-IsTracked v.id _ e t)))

    raise_silent-IsTracked :
        (e : Engine) → IsTracked e → IsTracked (raise_silent new_id now network v e)
    unfolding raise_silent host_reachable clear_snapshot
    raise_silent-IsTracked e t =
        let f =
          host_reachable-IsTracked v.id v.host (lookup v.id e.reach) _
            (same-IsTracked e (record e { store = clear_snapshot v.id e.store }) refl refl t) in
        let g = if-IsTracked _ f (set_status-IsTracked v.id _ _ f) in
        if-IsTracked _
          (fire-IsTracked new_id now v agent_down _ _ _ _ p (omega arith)
            (clear-IsTracked v.id agent_offline [] _ p (omega arith) g))
          (fire-IsTracked new_id now v agent_offline _ _ _ _ p (omega arith)
            (clear-IsTracked v.id agent_down [] _ p (omega arith) g))

    sweep_silent-IsTracked :
        (alertable : Bool) (m : Option Marker) (e : Engine)
        → IsTracked e
        → IsTracked (sweep_silent new_id now network alertable v m e)
    unfolding sweep_silent
    sweep_silent-IsTracked alertable (some m) e t =
        if-IsTracked _ t (set_status-IsTracked v.id _ e t)
    sweep_silent-IsTracked alertable none e t =
        let shown =
          if-IsTracked (status_eq v.status offline || status_eq v.status down_status) t
            (set_status-IsTracked v.id (to_status new_id now network offline) e t) in
        if-IsTracked _ (raise_silent-IsTracked _ shown) shown

    holding_marker-IsTracked :
        (m : Option Marker) (e : Engine)
        → IsTracked e
        → IsTracked (holding_marker new_id now network v m e).1
    unfolding holding_marker
    holding_marker-IsTracked none e t = t
    holding_marker-IsTracked (some m) e t = elim (Bool-cases (marker_fresh now m)) [
      | inl fresh ↦ rw fresh t
      | inr stale ↦ rw stale (unmarked-IsTracked v.id e t)
    ]

    sweep_one-IsTracked :
        (alertable : Bool) (e : Engine)
        → IsTracked e
        → IsTracked (sweep_one new_id now network alertable v e)
    unfolding sweep_one
    sweep_one-IsTracked alertable e t =
        let f = holding_marker-IsTracked (restart_marker v.id e.store) e t in
        if-IsTracked _ t
          (if-IsTracked _ (sweep_live-IsTracked _ _ f) (sweep_silent-IsTracked alertable _ _ f))

  sweep_all-IsTracked :
      (alertable : Bool) (vs : List Vps) (e : Engine)
      → All (λ v. Plain v.id) vs
      → IsTracked e
      → IsTracked (sweep_all new_id now network alertable vs e)
  unfolding sweep_all
  sweep_all-IsTracked alertable [] e p t = t
  sweep_all-IsTracked alertable (v ∷ vs) e p t =
      sweep_all-IsTracked alertable vs _ p.1 (sweep_one-IsTracked v p.0 alertable e t)

  sweep_fleet-IsTracked :
      (net_up : Bool) (vs : List Vps) (e : Engine)
      → All (λ v. Plain v.id) vs
      → IsTracked e
      → IsTracked (sweep_fleet new_id now network net_up vs e)
  unfolding sweep_fleet
  sweep_fleet-IsTracked net_up vs e p t =
      if-IsTracked _ (sweep_all-IsTracked false vs _ p (same-IsTracked e _ refl refl t)) (
        if-IsTracked _ (hold_alerts-IsTracked _ _ (same-IsTracked e _ refl refl t))
          (sweep_all-IsTracked _ vs e p t))

  -- A pass of the offline sweep, whatever the network answers, keeps the alerts tracked: every open
  -- row belongs to an active condition, and no condition has two open rows. No server's identifier
  -- has a "|".
  pub sweep_offline-IsTracked :
      (e : Engine)
      → All (λ v. Plain v.id) (list_vps e.store)
      → IsTracked e
      → IsTracked (sweep_offline new_id now network e)
  unfolding sweep_offline
  sweep_offline-IsTracked e p t =
      let f = ask_line-IsTracked (list_vps e.store) e t in
      if-IsTracked _ t
        (if-IsTracked _ (hold_alerts-IsTracked _ _ f) (sweep_fleet-IsTracked _ _ _ p f))
