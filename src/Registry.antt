-- ===== src/Registry.antt =====
-- The backend's store (backend/store.go, backend/wg_peers.go): the registry of servers, links,
-- alerts and actions, mirrored to state.json, and the live snapshots, which are memory only.
-- This file has the state and its persistence; the children have the operations and their proofs.
-- The mutex makes each operation one step. Random identifiers and the clock are arguments.
pub mod Servers
pub mod Links
pub mod AlertRows
pub mod Invariant
pub mod Reachable
pub mod Loading
pub mod Startup
pub mod Laws
mod Tests
use beacle.Prelude.{
  ℕ, Text, codes, Map, values, ◌≡◌, arith, Time, second, since, ltb, Bool, true, false, not, ◌&&◌,
  List, [], ◌∷◌, Option, none, some, if◌then◌else◌, text_eq, is_empty, ◌*◌,
}
use beacle.Models.{Vps, Status, Link, Alert, ActionLog, restarting, powered_off, pending, status_eq}

-- `RestartMarker`
pub record Marker : Type 0 where
  pub reason : Text
  pub restore : Bool
  pub started : Time

-- `RestartMarker.MarkerStatus`
unfoldable pub marker_status : Marker → Status
marker_status m = if text_eq m.reason (codes "poweroff") then powered_off else restarting

-- `RestartExpectSec`
abbrev pub restart_expect : ℕ
restart_expect = 900 * second

-- `RestartMarker.Fresh`
unfoldable pub marker_fresh : Time → Marker → Bool
marker_fresh now m = ltb (since now m.started) restart_expect

-- `VPSEntry`
pub record Entry : Type 0 where
  pub vps : Vps
  pub agent_token : Text
  pub restart : Option Marker
  pub wg_preshared_key : Text
  pub wg_agent_key : Text

-- `VPSEntry.HasWireGuardPeer`
unfoldable pub has_wireguard_peer : Entry → Bool
has_wireguard_peer e = not (is_empty e.vps.wg_public_key) && not (is_empty e.vps.wg_tunnel_ip)

-- `persistedState`
pub record State : Type 0 where
  pub servers : Map Entry
  pub links : Map Link
  pub alerts : List Alert
  pub actions : List ActionLog

-- `wgPeerRecord`
pub record PeerRecord : Type 0 where
  pub id : Text
  pub name : Text
  pub host : Text
  pub transport : Text
  pub endpoint : Text
  pub tunnel_ip : Text
  pub public_key : Text
  pub psk : Text
  pub agent_token : Text
  pub waiting : Bool

-- `Store`, with the files that it writes: `disk` is state.json and `peers` is wg-peers.json, each
-- as its decoded contents, `writable` says whether the new state.json can be written,
-- `replaces` whether it can then take the place of the old one, and `peers_writable` whether both
-- succeed for the peers.
-- `Snapshot` is the type of the live snapshots.
pub record Store (Snapshot : Type 0) : Type 0 where
  pub state : State
  pub snapshots : Map Snapshot
  pub dirty : Bool
  pub disk : Option State
  pub peers : Option (List PeerRecord)
  pub writable : Bool
  pub replaces : Bool
  pub peers_writable : Bool

peer_record : Entry → PeerRecord
peer_record e = record {
  id = e.vps.id;
  name = e.vps.name;
  host = e.vps.host;
  transport = e.vps.transport;
  endpoint = e.vps.wg_endpoint;
  tunnel_ip = e.vps.wg_tunnel_ip;
  public_key = e.vps.wg_public_key;
  psk = e.wg_preshared_key;
  agent_token = e.agent_token;
  waiting = status_eq e.vps.status pending;
}

peer_records : List Entry → List PeerRecord
peer_records [] = []
peer_records (e ∷ es) =
    if has_wireguard_peer e then peer_record e ∷ peer_records es else peer_records es

module _ {Snapshot : Type 0} where
  -- `writePeersLocked`; the write that the source skips would leave the same contents.
  write_peers : Store Snapshot → Store Snapshot
  unfolding peer_records peer_record
  write_peers s =
      if s.peers_writable
      then record s { peers = some (peer_records (values s.state.servers)) }
      else s

  -- `writeLocked`: where the new file cannot be written the peers are not tried either; where it
  -- cannot take the place of the old one, they are.
  write_state : Store Snapshot → Store Snapshot
  unfolding write_peers
  write_state s =
      let replaced = if s.replaces then record s { disk = some s.state } else s in
      if s.writable then write_peers replaced else s

  -- `persistLocked`
  unfoldable pub persist : Store Snapshot → Store Snapshot
  unfolding write_state
  persist s = write_state (record s { dirty = false })

  -- `touchLocked`
  unfoldable pub touch : Store Snapshot → Store Snapshot
  touch s = record s { dirty = true }

  -- one round of `FlushLoop`
  unfoldable pub flush : Store Snapshot → Store Snapshot
  unfolding write_state
  flush s = if s.dirty then write_state (record s { dirty = false }) else s

  -- What the writing operations leave alone.
  pub state-persist : (s : Store Snapshot) → (persist s).state ≡ s.state
  unfolding persist
  state-persist s = ground arith

  pub snapshots-persist : (s : Store Snapshot) → (persist s).snapshots ≡ s.snapshots
  unfolding persist
  snapshots-persist s = ground arith

  pub disk-persist :
      (s : Store Snapshot) → s.writable ≡ true → s.replaces ≡ true → (persist s).disk ≡ some s.state
  unfolding persist
  disk-persist s h r = ground arith
