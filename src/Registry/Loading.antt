-- ===== src/Registry/Loading.antt =====
-- What `NewStore` makes of the files at startup (backend/store.go, lines 71-111), with the servers
-- that `restoreWGPeers` puts back (backend/wg_peers.go, lines 34-62). A file that is missing, cannot
-- be read or does not decode is `none`; decoding gives back what was encoded.
use beacle.Prelude.{
  Map, insert, has, Time, Bool, false, ◌||◌, List, [], ◌∷◌, Option, none, some, if◌then◌else◌,
  is_empty,
}
use beacle.Models.{offline, pending, default_agent_port, status_eq}
use beacle.Registry.{State, Store, Entry, PeerRecord, Marker, marker_status, marker_fresh}
use beacle.Registry.Servers.{blank_vps, entry_of}

abbrev pub empty_state : State
empty_state = record { servers = []; links = []; alerts = []; actions = [] }

unfoldable pub restored_entry : Time → PeerRecord → Entry
restored_entry now r =
    let status = if r.waiting then pending else offline in
    let vps = record (blank_vps r.id r.name r.host status default_agent_port [] now) {
      transport = r.transport;
      wg_endpoint = r.endpoint;
      wg_tunnel_ip = r.tunnel_ip;
      wg_public_key = r.public_key;
    } in
    record (entry_of vps r.agent_token) { wg_preshared_key = r.psk }

-- One round of the loop of `restoreWGPeers`: a record that lacks an identifier or a key, or whose
-- server is there, is passed over.
unfoldable pub restore_peer : Time → PeerRecord → Map Entry → Map Entry
restore_peer now r m =
    if is_empty r.id || is_empty r.public_key || is_empty r.tunnel_ip || has r.id m
    then m
    else insert r.id (restored_entry now r) m

unfoldable pub restore_peers : Time → List PeerRecord → Map Entry → Map Entry
restore_peers now [] m = m
restore_peers now (r ∷ rs) m = restore_peers now rs (restore_peer now r m)

-- What the loop of `NewStore` makes of a server that is not pending, by its marker.
unfoldable pub settle_marked : Time → Entry → Option Marker → Entry
settle_marked now e none = record e { restart = none; vps = record (e.vps) { status = offline } }
settle_marked now e (some m) =
    if marker_fresh now m
    then record e { vps = record (e.vps) { status = marker_status m } }
    else record e { restart = none; vps = record (e.vps) { status = offline } }

unfoldable pub settle : Time → Entry → Entry
unfolding settle_marked
settle now e = if status_eq e.vps.status pending then e else settle_marked now e e.restart

unfoldable pub settle_all : Time → Map Entry → Map Entry
settle_all now [] = []
settle_all now ((k, e) ∷ m) = (k, settle now e) ∷ settle_all now m

-- `NewStore`
unfoldable pub new_store :
    (Snapshot : Type 0)
    → Time
    → Bool
    → Bool
    → Bool
    → Option State
    → Option (List PeerRecord)
    → Store Snapshot
new_store Snapshot now writable replaces peers_writable disk peers =
    let loaded : State = elim disk [ some st ↦ st | none ↦ empty_state ] in
    let servers : Map Entry = elim peers [
      | some rs ↦ restore_peers now rs loaded.servers
      | none ↦ loaded.servers
    ] in
    record {
      state = record loaded { servers = settle_all now servers };
      snapshots = [];
      dirty = false;
      disk = disk;
      peers = peers;
      writable = writable;
      replaces = replaces;
      peers_writable = peers_writable;
    }
