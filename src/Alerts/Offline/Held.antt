-- ===== src/Alerts/Offline/Held.antt =====
-- When the sweep raises nothing (backend/alerts.go, `sweepOffline`). Each alert that is raised
-- draws one identifier, so that "nothing is raised" reads: none is drawn.
use beacle.Prelude.{
  ℕ, Text, Time, since, ltb, Bool, true, false, ◌&&◌, List, Option, none, some, arith, ◌≡◌, ◌≢◌,
  ◌⊎◌, ◌≤◌, ◌<◌, refl, false_of_ne_true, true_of_ne_false, inl, inr,
}
use beacle.Models.{Vps, status_eq, pending}
use beacle.Registry.{Entry, Marker, marker_fresh}
use beacle.Registry.Servers.{restart_marker, list_vps}
use beacle.Alerts.{Engine, clear, clear_always, clear_reachability}
use beacle.Alerts.Offline.{
  Network, is_live, set_status, sweep_live, sweep_silent, holding_marker, sweep_one, watched, live,
  has_hub, offline_after, net_up_recheck,
}

drawn-clear : (v k x : Text) (e : Engine) → (clear v k x e).drawn ≡ e.drawn
unfolding clear
drawn-clear v k x e = ground arith

drawn-clear_reachability : (v : Text) (e : Engine) → (clear_reachability v e).drawn ≡ e.drawn
unfolding clear_reachability clear_always
drawn-clear_reachability v e = refl

-- A marker is set, and still explains a missing socket.
abbrev pub explained : Time → Option Marker → Bool
explained now none = false
explained now (some m) = marker_fresh now m

module _ (new_id : ℕ → Text) (now : Time) (network : Network) where
  drawn-set_status :
      (id : Text) (f : Entry → Entry) (e : Engine)
      → (set_status new_id now network id f e).drawn ≡ e.drawn
  unfolding set_status
  drawn-set_status id f e = refl

  -- A server with a live socket raises nothing.
  drawn-sweep_live :
      (v : Vps) (m : Option Marker) (e : Engine)
      → (sweep_live new_id now network v m e).drawn ≡ e.drawn
  unfolding sweep_live set_status
  drawn-sweep_live v none e = rw drawn-clear_reachability (ground arith)
  drawn-sweep_live v (some m) e = rw drawn-clear_reachability (ground arith)

  -- One whose socket is gone raises nothing while a marker holds, while alerts are held, or
  -- within the grace window.
  drawn-sweep_silent :
      (alertable : Bool) (v : Vps) (m : Option Marker) (e : Engine)
      → (alertable && ltb offline_after (since now v.last_seen)) ≡ false
      → (sweep_silent new_id now network alertable v m e).drawn ≡ e.drawn
  unfolding sweep_silent set_status
  drawn-sweep_silent alertable v (some m) e h = ground arith
  drawn-sweep_silent alertable v none e h = rw h (ground arith)

  marker_shown :
      (alertable : Bool) (v : Vps) (m : Marker) (e : Engine)
      → (sweep_silent new_id now network alertable v (some m) e).drawn ≡ e.drawn
  unfolding sweep_silent set_status
  marker_shown alertable v m e = ground arith

  drawn-holding_marker :
      (v : Vps) (m : Option Marker) (e : Engine)
      → (holding_marker new_id now network v m e).1.drawn ≡ e.drawn
  unfolding holding_marker
  drawn-holding_marker v none e = refl
  drawn-holding_marker v (some m) e = ground arith

  -- The reasons for which a whole pass is held: the quiet time after startup, sleep or an outage;
  -- this computer's line is down, and is asked now, since a server is missing and there is no good
  -- answer less than 15 seconds old; or, where there is a hub of agents, no server at all with a
  -- socket.
  unfoldable pub IsHeld : Engine → Type 0
  IsHeld e =
      (now < e.quiet_until)
      ⊎ ((network.line ≡ false)
          × (live new_id now network vs < watched new_id now network vs)
          × ((e.net.is_online && ltb (since now e.net.checked) net_up_recheck) ≡ false))
      ⊎ ((has_hub new_id now network ≡ true)
          × (2 ≤ watched new_id now network vs)
          × (live new_id now network vs ≡ 0))
    where
      vs : List Vps
      vs = list_vps e.store

  -- The four reasons for which the sweep of one server raises nothing.
  drawn-sweep_one :
      (alertable : Bool) (v : Vps) (e : Engine)
      → (status_eq v.status pending ≡ true)
        ⊎ (is_live new_id now network v ≡ true)
        ⊎ ((alertable && ltb offline_after (since now v.last_seen)) ≡ false)
        ⊎ ((m : Marker) × (restart_marker v.id e.store ≡ some m) × (marker_fresh now m ≡ true))
      → (sweep_one new_id now network alertable v e).drawn ≡ e.drawn
  unfolding sweep_one
  drawn-sweep_one alertable v e (inl p) = rw p
  drawn-sweep_one alertable v e (inr (inl l)) =
      let held = drawn-holding_marker v (restart_marker v.id e.store) e in
      rw l (
        ground (
          arith,
          held,
          drawn-sweep_live v (holding_marker new_id now network v (restart_marker v.id e.store) e).0
              (holding_marker new_id now network v (restart_marker v.id e.store) e).1,
        ))
  drawn-sweep_one alertable v e (inr (inr (inl g))) =
      let held = drawn-holding_marker v (restart_marker v.id e.store) e in
      let marker = (holding_marker new_id now network v (restart_marker v.id e.store) e).0 in
      let f = (holding_marker new_id now network v (restart_marker v.id e.store) e).1 in
      ground (arith, held, drawn-sweep_live v marker f, drawn-sweep_silent alertable v marker f g)
  drawn-sweep_one alertable v e (inr (inr (inr (m, s, fresh)))) = rw s (
      unfold holding_marker in
      rw fresh (ground (arith, drawn-sweep_live v (some m) e, marker_shown alertable v m e)))

  -- The sweep raises an alert only for a server that is past pending and has no live socket, no
  -- marker that still holds and no sign of life for more than 45 seconds, while alerts are not held.
  pub sweep_one_raises :
      (alertable : Bool) (v : Vps) (e : Engine)
      → (sweep_one new_id now network alertable v e).drawn ≢ e.drawn
      → (alertable ≡ true)
        × (status_eq v.status pending ≡ false)
        × (is_live new_id now network v ≡ false)
        × (offline_after < since now v.last_seen)
        × (explained now (restart_marker v.id e.store) ≡ false)
  sweep_one_raises alertable v e h =
      let same = drawn-sweep_one alertable v e in
      let gate =
        true_of_ne_false (alertable && ltb offline_after (since now v.last_seen))
          (λ g. h (same (inr (inr (inl g))))) in
      (
        ground arith,
        false_of_ne_true _ (λ p. h (same (inl p))),
        false_of_ne_true _ (λ l. h (same (inr (inl l)))),
        ground arith,
        unexplained (restart_marker v.id e.store) refl,
      )
    where
      unexplained : (o : Option Marker) → restart_marker v.id e.store ≡ o → explained now o ≡ false
      unexplained none s = refl
      unexplained (some m) s =
          false_of_ne_true _ (λ f. h (drawn-sweep_one alertable v e (inr (inr (inr (m, s, f))))))
