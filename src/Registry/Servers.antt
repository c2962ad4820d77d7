-- ===== src/Registry/Servers.antt =====
-- The operations of the store on its servers and their snapshots (backend/store.go, lines 175-573).
use beacle.Prelude.{
  ℕ, Text, Map, lookup, insert, erase, has, Time, ltb, ◌==◌, Bool, true, false, not, ◌&&◌, ◌||◌,
  List, [], ◌∷◌, map, Option, none, some, if◌then◌else◌, text_eq, is_empty, sort, values, keep,
}
use beacle.Models.{
  Vps, Status, online, pending, is_wireguard, transport_wireguard, default_agent_port, Link,
}
use beacle.Registry.{Store, Entry, Marker, marker_status, has_wireguard_peer, persist, touch}

-- The server record that a constructor of the source fills: every field that it does not name is
-- Go's zero value.
unfoldable pub blank_vps : Text → Text → Text → Status → ℕ → Text → Time → Vps
blank_vps id name host status port version now = record {
  id = id;
  name = name;
  host = host;
  tailscale_name = [];
  public_ip = [];
  transport = [];
  wg_endpoint = [];
  wg_tunnel_ip = [];
  wg_public_key = [];
  weight = 1;
  status = status;
  thresholds = none;
  agent_port = port;
  agent_ver = version;
  agent_digest = [];
  arch = [];
  lan_ip = [];
  created_at = now;
  last_seen = now;
}

unfoldable pub entry_of : Vps → Text → Entry
entry_of v token = record {
  vps = v;
  agent_token = token;
  restart = none;
  wg_preshared_key = [];
  wg_agent_key = [];
}

-- The first entry, in the order of the iteration, that passes a test.
unfoldable pub find : (Entry → Bool) → Map Entry → Option Entry
find p [] = none
find p ((k, e) ∷ m) = if p e then some e else find p m

-- `lessVPS`
unfoldable pub text_less : Text → Text → Bool
text_less [] [] = false
text_less [] (y ∷ ys) = true
text_less (x ∷ xs) [] = false
text_less (x ∷ xs) (y ∷ ys) =
    let rest = text_less xs ys in if ltb x y then true else if ltb y x then false else rest

unfoldable pub less_vps : Vps → Vps → Bool
less_vps a b =
    if a.created_at == b.created_at then text_less a.id b.id else ltb a.created_at b.created_at

pub same_machine : Text → Text → Entry → Bool
same_machine name ip e =
    text_eq e.vps.tailscale_name name || (not (is_empty ip) && text_eq e.vps.host ip)

answers_to : Text → Text → Entry → Bool
answers_to name ip e =
    (not (is_empty name) && text_eq e.vps.tailscale_name name)
    || (not (is_empty ip) && text_eq e.vps.host ip)

module _ {Snapshot : Type 0} where
  unfoldable pub set_server : Text → Entry → Store Snapshot → Store Snapshot
  set_server id e s = record s {
    state = record (s.state) { servers = insert id e s.state.servers };
  }

  -- `CreateVPS`
  unfoldable pub create_vps :
      Text → Time → Text → Text → Text → Store Snapshot → Entry × Store Snapshot
  unfolding set_server same_machine
  create_vps id now name tailscale_name tailscale_ip s =
      let vps = blank_vps id name tailscale_ip pending default_agent_port [] now in
      let entry = entry_of (record vps { tailscale_name = tailscale_name }) [] in
      elim (find (same_machine tailscale_name tailscale_ip) s.state.servers) [
        | some e ↦ (e, s)
        | none ↦ (entry, persist (set_server id entry s))
      ]

  -- `CreateWireGuardVPS`; `endpoint_host` is the host part that `netip.ParseAddrPort` finds.
  unfoldable pub create_wireguard_vps :
      (Text → Option Text)
      → Text
      → Time
      → Text
      → Text
      → Text
      → Text
      → Text
      → Text
      → Store Snapshot
      → Entry × Store Snapshot
  unfolding set_server
  create_wireguard_vps endpoint_host id now name endpoint tunnel_ip agent_pub agent_priv psk s =
      let host : Text = elim (endpoint_host endpoint) [ some h ↦ h | none ↦ endpoint ] in
      let vps = blank_vps id name host pending default_agent_port [] now in
      let keyed = record vps {
        transport = transport_wireguard;
        wg_endpoint = endpoint;
        wg_tunnel_ip = tunnel_ip;
        wg_public_key = agent_pub;
      } in
      let bare = entry_of keyed [] in
      let entry = record bare { wg_preshared_key = psk; wg_agent_key = agent_priv } in
      (entry, persist (set_server id entry s))

  -- `AutoRegisterVPS`
  unfoldable pub auto_register_vps :
      Text → Text → Time → Text → Text → ℕ → Text → Store Snapshot → Entry × Store Snapshot
  unfolding set_server
  auto_register_vps id token now hostname host agent_port version s =
      let port = if agent_port == 0 then default_agent_port else agent_port in
      let name = if is_empty hostname then host else hostname in
      let entry = entry_of (blank_vps id name host online port version now) token in
      (entry, persist (set_server id entry s))

  -- `AdoptVPS`; `new_id` and `new_token` are what the two random draws would give.
  unfoldable pub adopt_vps :
      Text
      → Text
      → Time
      → Text
      → Text
      → Text
      → Text
      → Text
      → Text
      → Store Snapshot
      → Entry × Store Snapshot
  unfolding set_server
  adopt_vps new_id new_token now vps_id token name host tailscale_name version s =
      let id = if is_empty vps_id then new_id else vps_id in
      let secret = if is_empty token then new_token else token in
      let named = if is_empty name then tailscale_name else name in
      let shown = if is_empty named then host else named in
      let vps = blank_vps id shown host online default_agent_port version now in
      let entry = entry_of (record vps { tailscale_name = tailscale_name }) secret in
      elim (lookup id s.state.servers) [
        | some e ↦ (e, s)
        | none ↦ (entry, persist (set_server id entry s))
      ]

  -- `UpdateVPS`
  unfoldable pub update_vps :
      Text → (Entry → Entry) → Store Snapshot → Option Entry × Store Snapshot
  unfolding set_server
  update_vps id f s = elim (lookup id s.state.servers) [
    | some e ↦ (some (f e), touch (set_server id (f e) s))
    | none ↦ (none, s)
  ]

  -- `UpdateVPSNow`
  unfoldable pub update_vps_now :
      Text → (Entry → Entry) → Store Snapshot → Option Entry × Store Snapshot
  unfolding set_server
  update_vps_now id f s = elim (lookup id s.state.servers) [
    | some e ↦ (some (f e), persist (set_server id (f e) s))
    | none ↦ (none, s)
  ]

  -- `MarkRestart`
  unfoldable pub mark_restart : Time → Text → Text → Bool → Store Snapshot → Store Snapshot
  unfolding set_server
  mark_restart now id reason restore s =
      let marker : Marker = record { reason = reason; restore = restore; started = now } in
      let marked = λ (e : Entry). record e {
        restart = some marker;
        vps = record (e.vps) { status = marker_status marker };
      } in
      elim (lookup id s.state.servers) [ some e ↦ persist (set_server id (marked e) s) | none ↦ s ]

  -- `Store.RestartMarker`
  unfoldable pub restart_marker : Text → Store Snapshot → Option Marker
  restart_marker id s = elim (lookup id s.state.servers) [ some e ↦ e.restart | none ↦ none ]

  -- `ClearRestart`
  unfoldable pub clear_restart : Text → Store Snapshot → Store Snapshot
  unfolding set_server
  clear_restart id s = elim (lookup id s.state.servers) [
    | some e ↦ touch (set_server id (record e { restart = none }) s)
    | none ↦ s
  ]

  -- `DeleteVPS`
  unfoldable pub delete_vps : Text → Store Snapshot → Bool × Store Snapshot
  delete_vps id s =
      let away = λ (l : Link). not (text_eq l.from_vps id || text_eq l.to_vps id) in
      let state = record (s.state) {
        servers = erase id s.state.servers;
        links = keep away s.state.links;
      } in
      if has id s.state.servers
      then (true, persist (record s { state = state; snapshots = erase id s.snapshots }))
      else (false, s)

  -- `GetVPS`
  unfoldable pub get_vps : Text → Store Snapshot → Option Entry
  get_vps id s = lookup id s.state.servers

  -- `FindByToken`
  unfoldable pub find_by_token : Text → Store Snapshot → Option Entry
  find_by_token token s =
      find (λ e. not (is_empty e.agent_token) && text_eq e.agent_token token) s.state.servers

  -- `FindByTunnelIP`
  unfoldable pub find_by_tunnel_ip : Text → Store Snapshot → Option Entry
  find_by_tunnel_ip ip s =
      find (λ e. has_wireguard_peer e && text_eq e.vps.wg_tunnel_ip ip) s.state.servers

  -- `FindPendingByTailscale`
  unfoldable pub find_pending_by_tailscale : Text → Text → Store Snapshot → Option Entry
  unfolding answers_to
  find_pending_by_tailscale name ip s =
      find (λ e. is_empty e.agent_token && not (is_wireguard e.vps) && answers_to name ip e)
        s.state.servers

  -- `FindByTailscale`
  unfoldable pub find_by_tailscale : Text → Text → Store Snapshot → Option Entry
  unfolding answers_to
  find_by_tailscale name ip s =
      find (λ e. not (is_wireguard e.vps) && answers_to name ip e) s.state.servers

  -- `ListVPS` and `sortVPS`
  unfoldable pub list_vps : Store Snapshot → List Vps
  unfolding less_vps text_less
  list_vps s = sort less_vps (map (λ e. e.vps) (values s.state.servers))

  -- `ClearSnapshot`, `SetSnapshot`, `GetSnapshot`
  unfoldable pub clear_snapshot : Text → Store Snapshot → Store Snapshot
  clear_snapshot id s = record s { snapshots = erase id s.snapshots }

  unfoldable pub set_snapshot : Text → Snapshot → Store Snapshot → Store Snapshot
  set_snapshot id snap s = record s { snapshots = insert id snap s.snapshots }

  unfoldable pub get_snapshot : Text → Store Snapshot → Option Snapshot
  get_snapshot id s = lookup id s.snapshots
