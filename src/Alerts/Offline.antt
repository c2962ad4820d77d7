-- ===== src/Alerts/Offline.antt =====
-- The sweep that ties a server's status to its agent's socket and raises the reachability alerts
-- (backend/alerts.go, lines 150-195 and 521-714; backend/localnet.go). One pass reads the clock
-- once. What the pass learns from the network is the record `Network`.
pub mod Keeps
pub mod Held
mod Tests
use beacle.Prelude.{
  ℕ, ◌+◌, ◌*◌, Text, codes, Map, lookup, insert, erase, Time, Duration, since, second, minute, ltb,
  leb, ◌==◌, Bool, true, false, not, ◌&&◌, ◌||◌, List, [], ◌∷◌, ◌++◌, Option, none, some,
  if◌then◌else◌, is_empty,
}
use beacle.Models.{
  Vps, Status, status_eq, online, offline, pending, is_wireguard, agent_down as down_status,
}
use beacle.Registry.{Entry, Marker, marker_status, marker_fresh}
use beacle.Registry.Servers.{
  list_vps, get_vps, restart_marker, clear_restart, update_vps, clear_snapshot,
}
use beacle.Alerts.{
  Engine, LocalNet, Probe, Event, line_sent, list_sent, fire, clear, clear_reachability,
  agent_offline, agent_down, critical,
}

-- `connected` is `agentHub.Connected`, `none` if no hub is set; `line` is what a check of this
-- computer's internet line answers now; the rest is what `probeHost` asks: the last WireGuard
-- handshake of a peer (0 for never, `none` if the service is not set), the host part of an address,
-- a ping, and Tailscale.
pub record Network : Type 0 where
  pub connected : Option (Text → Bool)
  pub line : Bool
  pub last_handshake : Option (Text → Time)
  pub split_host : Text → Option Text
  pub ping : Text → Bool
  pub tailscale_reachable : Text → Bool

abbrev pub agent_reconnect_grace : Duration
agent_reconnect_grace = 20 * second

abbrev pub local_outage_grace : Duration
local_outage_grace = 45 * second

abbrev pub sleep_gap : Duration
sleep_gap = 20 * second

abbrev pub net_up_recheck : Duration
net_up_recheck = 15 * second

abbrev pub reach_probe_every : Duration
reach_probe_every = 2 * minute

abbrev pub offline_after : Duration
offline_after = 45 * second

abbrev pub restart_live_clear : Duration
restart_live_clear = 120 * second

-- `WGHandshakeFresh`
abbrev pub wg_handshake_fresh : Duration
wg_handshake_fresh = 180 * second

-- The em dash of the two texts, in UTF-8.
abbrev pub dash : Text
dash = 0xe2 ∷ 0x80 ∷ 0x94 ∷ []

abbrev pub msg_agent_down : Text
msg_agent_down = codes "Agent is not responding " ++ (dash ++ codes " the VPS itself still answers")

abbrev pub msg_agent_offline : Text
msg_agent_offline = codes "VPS offline " ++ (dash ++ codes " no answer on its address")

module _ (new_id : ℕ → Text) (now : Time) (network : Network) where
  -- `holdAlerts`
  hold_alerts : Duration → Engine → Engine
  hold_alerts d e = if ltb e.quiet_until (now + d) then record e { quiet_until = now + d } else e

  -- `LocalNet.Check`, with the broadcast that `onChange` makes
  check_line : Engine → Bool × Engine
  check_line e =
      let up = network.line in
      let changed = not (if up then e.net.is_online else not e.net.is_online) in
      let same = record e { net = record (e.net) { checked = now } } in
      let net : LocalNet = record { is_online = up; since = now; checked = now } in
      let flipped = record e { net = net; sent = e.sent ++ (line_sent up ∷ []) } in
      (up, if changed then flipped else same)

  -- `LocalNet.Up`
  line_up : Duration → Engine → Bool × Engine
  line_up max_age e =
      if e.net.is_online && ltb (since now e.net.checked) max_age then (true, e) else check_line e

  ping_host : Vps → Text → Text
  ping_host v host =
      let split : Text = elim (network.split_host v.wg_endpoint) [ some h ↦ h | none ↦ [] ] in
      let named = if is_empty v.public_ip then split else v.public_ip in
      if is_empty named then host else named

  fresh_handshake : Vps → Option (Text → Time) → Bool
  fresh_handshake v none = false
  fresh_handshake v (some last) =
      let at = last v.wg_public_key in not (at == 0) && ltb (since now at) wg_handshake_fresh

  -- `probeHost`
  probe_entry : Text → Option Entry → Bool
  probe_entry host none = network.tailscale_reachable host
  probe_entry host (some e) =
      if is_wireguard e.vps
      then fresh_handshake e.vps network.last_handshake || network.ping (ping_host e.vps host)
      else network.tailscale_reachable host

  probe_host : Text → Text → Engine → Bool
  probe_host id host e = probe_entry host (get_vps id e.store)

  -- `hostReachable`, on the cached answer
  reachable_from : Text → Text → Option Probe → Engine → Bool × Engine
  reachable_from id host none e =
      let up = probe_host id host e in
      (up, record e { reach = insert id (record { up = up; at = now }) e.reach })
  reachable_from id host (some c) e =
      let up = probe_host id host e in
      if ltb (since now c.at) reach_probe_every
      then (c.up, e)
      else (up, record e { reach = insert id (record { up = up; at = now }) e.reach })

  host_reachable : Text → Text → Engine → Bool × Engine
  host_reachable id host e = reachable_from id host (lookup id e.reach) e

  pub is_live : Vps → Bool
  is_live v = elim network.connected [ some f ↦ f v.id | none ↦ false ]

  -- `UpdateVPS` with a new status, then the broadcast of the list
  set_status : Text → (Entry → Entry) → Engine → Engine
  set_status id f e =
      let (entry, store) = update_vps id f e.store in
      record e { store = store; sent = e.sent ++ (list_sent (list_vps store) ∷ []) }

  to_status : Status → Entry → Entry
  to_status s en = record en { vps = record (en.vps) { status = s } }

  seen_online : Entry → Entry
  seen_online en = record en { vps = record (en.vps) { status = online; last_seen = now } }

  -- A server whose socket is live, with the marker that still holds, if any.
  sweep_live : Vps → Option Marker → Engine → Engine
  sweep_live v none e =
      let back =
        if status_eq v.status offline || status_eq v.status down_status
        then set_status v.id seen_online e
        else e in
      clear_reachability v.id back
  sweep_live v (some m) e =
      let dropped = record e { store = clear_restart v.id e.store } in
      let shown =
        if ltb restart_live_clear (since now m.started)
        then set_status v.id seen_online dropped
        else if status_eq v.status (marker_status m)
        then e
        else set_status v.id (to_status (marker_status m)) e in
      clear_reachability v.id shown

  -- The alert of a server that has been silent for longer than the grace window.
  pub raise_silent : Vps → Engine → Engine
  raise_silent v e =
      let (host_up, f) =
        host_reachable v.id v.host (record e { store = clear_snapshot v.id e.store }) in
      let want = if host_up then down_status else offline in
      let g = if status_eq v.status want then f else set_status v.id (to_status want) f in
      if host_up
      then fire new_id now v agent_down critical [] msg_agent_down (clear v.id agent_offline [] g)
      else fire new_id now v agent_offline critical [] msg_agent_offline
          (clear v.id agent_down [] g)

  -- A server whose socket is gone, with the marker that still holds, if any.
  sweep_silent : Bool → Vps → Option Marker → Engine → Engine
  sweep_silent alertable v (some m) e =
      if status_eq v.status (marker_status m)
      then e
      else set_status v.id (to_status (marker_status m)) e
  sweep_silent alertable v none e =
      let shown =
        if status_eq v.status offline || status_eq v.status down_status
        then e
        else set_status v.id (to_status offline) e in
      if alertable && ltb offline_after (since now v.last_seen) then raise_silent v shown else shown

  -- The marker if it still holds; a stale one is dropped from the store.
  holding_marker : Vps → Option Marker → Engine → Option Marker × Engine
  holding_marker v none e = (none, e)
  holding_marker v (some m) e =
      if marker_fresh now m
      then (some m, e)
      else (none, record e { store = clear_restart v.id e.store })

  -- One server of the loop.
  pub sweep_one : Bool → Vps → Engine → Engine
  sweep_one alertable v e =
      let (marker, f) = holding_marker v (restart_marker v.id e.store) e in
      if status_eq v.status pending
      then e
      else if is_live v
      then sweep_live v marker f
      else sweep_silent alertable v marker f

  sweep_all : Bool → List Vps → Engine → Engine
  sweep_all alertable [] e = e
  sweep_all alertable (v ∷ vs) e = sweep_all alertable vs (sweep_one alertable v e)

  -- How many servers are past pending, and how many of those have a live socket.
  pub watched : List Vps → ℕ
  watched [] = 0
  watched (v ∷ vs) = if status_eq v.status pending then watched vs else 1 + watched vs

  pub live : List Vps → ℕ
  live [] = 0
  live (v ∷ vs) = if not (status_eq v.status pending) && is_live v then 1 + live vs else live vs

  pub has_hub : Bool
  has_hub = elim network.connected [ some f ↦ true | none ↦ false ]

  -- The part of `sweepOffline` behind the check of the line.
  sweep_fleet : Bool → List Vps → Engine → Engine
  sweep_fleet net_up vs e =
      let asked = net_up && has_hub && leb 2 (watched vs) in
      let found = hold_alerts local_outage_grace (record e { tailnet_lost = false }) in
      if asked && live vs == 0
      then sweep_all false vs (record e { tailnet_lost = true })
      else if asked && e.tailnet_lost
      then found
      else sweep_all (net_up && not e.tailnet_lost) vs e

  -- Is there a reason to ask the line: a server with no socket, or a bad last answer?
  in_doubt : List Vps → Engine → Bool
  in_doubt vs e = ltb (live vs) (watched vs) || not e.net.is_online

  ask_line : List Vps → Engine → Bool × Engine
  ask_line vs e = if in_doubt vs e then line_up net_up_recheck e else (true, e)

  -- `sweepOffline`
  pub sweep_offline : Engine → Engine
  sweep_offline e =
      let vs = list_vps e.store in
      let (net_up, f) = ask_line vs e in
      if ltb now e.quiet_until
      then e
      else if in_doubt vs e && net_up && not e.net.is_online
      then hold_alerts local_outage_grace f
      else sweep_fleet net_up vs f

  -- One round of `WatchOffline`, `gap` after the last.
  pub watch_offline : Duration → Engine → Engine
  watch_offline gap e =
      sweep_offline (if ltb sleep_gap gap then hold_alerts local_outage_grace e else e)
