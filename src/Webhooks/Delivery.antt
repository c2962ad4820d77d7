-- ===== src/Webhooks/Delivery.antt =====
-- What the backend pushes to the servers it elected, and the way a message takes
-- (backend/webhooks.go, lines 345-501).
use beacle.Prelude.{
  ℕ, Text, codes, Bool, true, false, not, ◌&&◌, ◌||◌, ◌==◌, ltb, leb, List, [], ◌∷◌, ◌++◌, filter,
  map, is_nil, Option, none, some, if◌then◌else◌, text_eq, is_empty,
}
use mathlib.Core.Logic.{◌⊎◌, inl, inr}
use beacle.Models.{Vps, is_wireguard, status_eq, pending, default_agent_port}
use beacle.Alerts.{Message}
use beacle.Registry.{Store}
use beacle.Registry.Servers.{list_vps}
use beacle.Watchdog.{Peer, Config}
use beacle.Webhooks.{Service, Error, no_watcher}
use beacle.Webhooks.Election.{Addresses, Pair, elect}

-- What a request to a watcher gives: an error, or an answer with its code, which can carry whether
-- the message was sent, and why not.
pub data Reply : Type 0 where
  failed : Reply
  answered : ℕ → Option Bool → Text → Reply

-- The route of a message: none is configured; or the watcher that took it, with the reason if that
-- watcher did not send it.
pub data Route : Type 0 where
  nowhere : Route
  via : Text → Vps → Text → Route

-- `watchdogHost`
unfoldable pub watchdog_host : Addresses → Vps → Text
watchdog_host net v =
    if not (is_wireguard v)
    then v.host
    else if not (is_empty v.public_ip)
    then v.public_ip
    else elim (net.split_host v.wg_endpoint) [ some h ↦ h | none ↦ v.host ]

unfoldable pub peer_of : Addresses → Vps → Peer
peer_of net v = record {
  id = v.id;
  name = v.name;
  host = watchdog_host net v;
  agent_port = if v.agent_port == 0 then default_agent_port else v.agent_port;
}

has_host : Addresses → Vps → Bool
has_host net v = not (status_eq v.status pending) && not (is_empty (watchdog_host net v))

id_of : Option Vps → Text
id_of none = []
id_of (some v) = v.id

is_seat : Option Vps → Vps → Bool
is_seat none v = false
is_seat (some w) v = text_eq v.id w.id

-- `pairKey`
unfoldable pub pair_key : Pair → Text
unfolding id_of
pair_key pair = id_of pair.primary ++ (codes "|" ++ id_of pair.secondary)

module _ (net : Addresses) (pair : Pair) (w : Service) (peers : List Peer) where
  -- The settings that one server is sent.
  unfoldable pub config_of : Vps → Config
  unfolding id_of is_seat
  config_of v =
      let first = is_seat pair.primary v in
      let second = is_seat pair.secondary v in
      if (first || second) && not (is_nil w.settings.targets)
      then record {
        enabled = true;
        role = if first then codes "primary" else codes "secondary";
        self_id = v.id;
        primary_id = id_of pair.primary;
        webhooks = w.settings.targets;
        peers = peers;
        panel_quiet_min = w.settings.panel_quiet_min;
      }
      else record {
        enabled = false;
        role = [];
        self_id = v.id;
        primary_id = [];
        webhooks = [];
        peers = [];
        panel_quiet_min = 0;
      }

-- What an answer makes of the route, if the next seat would make `rest`.
unfoldable pub route_by : Text → Vps → Reply → Error ⊎ Route → Error ⊎ Route
route_by role v failed rest = rest
route_by role v (answered code (some false) reason) rest =
    if leb 200 code && ltb code 300 then inr (via role v reason) else rest
route_by role v (answered code (some true) reason) rest =
    if leb 200 code && ltb code 300 then inr (via role v []) else rest
route_by role v (answered code none reason) rest =
    if leb 200 code && ltb code 300 then inr (via role v []) else rest

-- The loop of `deliver` over the two seats.
unfoldable pub try_seats : (Vps → Reply) → List (Text × Option Vps) → Error ⊎ Route
try_seats ask [] = inl no_watcher
try_seats ask ((role, none) ∷ rest) = try_seats ask rest
try_seats ask ((role, some v) ∷ rest) = route_by role v (ask v) (try_seats ask rest)

unfoldable pub seats : Pair → List (Text × Option Vps)
seats pair = (codes "primary", pair.primary) ∷ (codes "secondary", pair.secondary) ∷ []

-- `connected` is `agentHub.Connected` and `coverage` counts a server's samples of the last day.
module _ {Snapshot : Type 0} (net : Addresses) (connected : Text → Bool) (coverage : Text → ℕ) where
  unfoldable pub elected : Store Snapshot → Service → Pair
  elected s w = elect net connected coverage w.settings.primary w.settings.secondary s

  unfoldable pub peers_of : Store Snapshot → List Peer
  unfolding has_host
  peers_of s = map (peer_of net) (filter (has_host net) (list_vps s))

  -- `SyncWatchers`: the settings that go out, in order. `busy` says that another run has the lock;
  -- a push that fails is only logged.
  unfoldable pub sync_watchers : Bool → Store Snapshot → Service → Service × List (Text × Config)
  sync_watchers busy s w =
      let pair = elected s w in
      if busy then (w, []) else (
        record w { pushed = pair_key pair },
        map (λ v. (v.id, config_of net pair w (peers_of s) v))
            (filter (λ v. connected v.id) (list_vps s)),
      )

  -- `deliver`: the service, the settings that a changed election pushes first, and the route.
  unfoldable pub deliver :
      Bool
      → (Message → Vps → Reply)
      → Message
      → Store Snapshot
      → Service
      → Service × List (Text × Config) × (Error ⊎ Route)
  unfolding seats
  deliver busy ask m s w =
      let pair = elected s w in
      let synced = if text_eq w.pushed (pair_key pair) then (w, []) else sync_watchers busy s w in
      if is_nil w.settings.targets
      then (w, [], inr nowhere)
      else (synced.0, synced.1, try_seats (ask m) (seats pair))
