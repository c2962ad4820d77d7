-- ===== src/Alerts.antt =====
-- The alert engine of the backend (backend/alerts.go, backend/localnet.go). This file has its
-- state and the two operations that raise and resolve one alert; the children have the rest. The
-- hub's broadcasts, the listener of plugins and the webhook queue are recorded as events, in order.
-- Plugin metrics are off (`pluginMetrics` is nil), and an operation reads the clock once.
pub mod Keys
pub mod Tracking
pub mod Conditions
pub mod Evaluate
pub mod Offline
pub mod Samples
pub mod Startup
mod Tests
use beacle.Prelude.{
  ℕ, ◌+◌, Text, codes, Map, lookup, insert, erase, Time, Bool, true, false, List, [], ◌∷◌, ◌++◌,
  Option, none, some, if◌then◌else◌, text_eq, arith, ◌≡◌,
}
use beacle.Prelude.Ints.{ℤ}
use beacle.Models.{Vps, Alert}
use beacle.Registry.{Store}
use beacle.Registry.AlertRows.{add_alert, resolve_alerts_for}

-- `DiskUsage`, as far as alerts read it
pub record Disk : Type 0 where
  pub mount : Text
  pub used_percent : ℤ

-- `ContainerInfo`, as far as alerts read it
pub record Container : Type 0 where
  pub id : Text
  pub name : Text
  pub state : Text
  pub restart_count : ℕ
  pub exit_code : ℤ

-- `ProxySite`, as far as alerts read it
pub record Site : Type 0 where
  pub domain : Text
  pub cert_not_after : Option Time

-- `NetworkStats`, as far as samples read it
pub record Interface : Type 0 where
  pub rx_per_sec : ℕ
  pub tx_per_sec : ℕ

-- `VPSSnapshot`, as far as the backend's core reads it
pub record Snapshot : Type 0 where
  pub vps : Vps
  pub cpu_percent : ℤ
  pub mem_percent : ℤ
  pub disks : List Disk
  pub containers : List Container
  pub provider : Text
  pub last_error : Text
  pub sites : List Site
  pub hostname : Text
  pub collected_at : Time
  pub network : List Interface
  pub load1 : ℤ
  pub plugins : Map ℤ
  pub updated : Time

-- `WebhookMessage`
pub record Message : Type 0 where
  pub title : Text
  pub body : Text
  pub severity : Text
  pub vps_id : Text
  pub vps_name : Text
  pub alert : Text

-- What the engine sends out: an alert to the panel, an alert to the plugins' listener, a message to
-- the webhook queue, the list of servers, and the state of the internet line.
pub data Event : Type 0 where
  alert_sent : Alert → Event
  alert_heard : Alert → Event
  notified : Message → Event
  list_sent : List Vps → Event
  line_sent : Bool → Event

-- `reachProbe`
pub record Probe : Type 0 where
  pub up : Bool
  pub at : Time

-- `LocalNet`
pub record LocalNet : Type 0 where
  pub is_online : Bool
  pub since : Time
  pub checked : Time

-- `AlertEngine`, with the store that it works on, what it has sent, and how many random
-- identifiers it has drawn. `listening` and `notifying` say whether `events` and `notify` are set.
pub record Engine : Type 0 where
  pub store : Store Snapshot
  pub active : Map Bool
  pub since : Map Time
  pub prev_containers : Map (Map Container)
  pub cert_hosts : Map (Map Bool)
  pub reach : Map Probe
  pub quiet_until : Time
  pub tailnet_lost : Bool
  pub net : LocalNet
  pub listening : Bool
  pub notifying : Bool
  pub sent : List Event
  pub drawn : ℕ

abbrev pub cpu_high : Text
cpu_high = codes "cpu_high"

abbrev pub mem_high : Text
mem_high = codes "mem_high"

abbrev pub disk_high : Text
disk_high = codes "disk_high"

abbrev pub service_down : Text
service_down = codes "service_down"

abbrev pub docker_crash : Text
docker_crash = codes "docker_crash"

abbrev pub proxy_error : Text
proxy_error = codes "proxy_error"

abbrev pub cert_expiring : Text
cert_expiring = codes "cert_expiring"

abbrev pub agent_offline : Text
agent_offline = codes "agent_offline"

abbrev pub agent_down : Text
agent_down = codes "agent_down"

abbrev pub plugin_metric : Text
plugin_metric = codes "plugin_metric"

abbrev pub plugin_alert : Text
plugin_alert = codes "plugin"

abbrev pub warning : Text
warning = codes "warning"

abbrev pub critical : Text
critical = codes "critical"

-- `alertTitle`
alert_title : Text → Text
alert_title t =
    if text_eq t cpu_high
    then codes "CPU high"
    else if text_eq t mem_high
    then codes "RAM high"
    else if text_eq t disk_high
    then codes "disk high"
    else if text_eq t service_down
    then codes "service down"
    else if text_eq t docker_crash
    then codes "container crashed"
    else if text_eq t proxy_error
    then codes "proxy error"
    else if text_eq t cert_expiring
    then codes "certificate expiring"
    else if text_eq t agent_offline
    then codes "VPS offline"
    else if text_eq t agent_down
    then codes "agent down"
    else if text_eq t plugin_metric
    then codes "plugin metric"
    else if text_eq t plugin_alert
    then codes "plugin"
    else t

-- The key of a condition in `active`: "vpsid|type|key".
unfoldable pub active_key : Text → Text → Text → Text
active_key vps_id kind key = vps_id ++ (b'|' ∷ (kind ++ (b'|' ∷ key)))

-- Reading `e.active[id]`: a missing key reads as false.
unfoldable pub is_active : Text → Map Bool → Bool
is_active id m = elim (lookup id m) [ some b ↦ b | none ↦ false ]

-- The message of an alert that fires.
alert_message : Vps → Text → Text → Text → Message
alert_message vps kind severity msg = record {
  title = codes "[" ++ (severity ++ (codes "] " ++ (vps.name ++ (codes ": " ++ alert_title kind))));
  body = msg;
  severity = severity;
  vps_id = vps.id;
  vps_name = vps.name;
  alert = kind;
}

-- `hub.Broadcast(WSAlert, a)` and `emit(a)`
announce : Bool → Alert → List Event
announce listening a = alert_sent a ∷ (if listening then alert_heard a ∷ [] else [])

announce_all : Bool → List Alert → List Event
announce_all listening [] = []
announce_all listening (a ∷ rows) = announce listening a ++ announce_all listening rows

-- The row that `fire` hands to the store, which fills in the identifier and the time.
unfoldable pub new_row : Vps → Text → Text → Text → Text → Alert
new_row vps kind severity key msg = record {
  id = [];
  vps_id = vps.id;
  vps_name = vps.name;
  kind = kind;
  severity = severity;
  message = msg;
  key = key;
  created_at = 0;
  resolved = false;
}

-- `new_id n` is the n-th identifier that the random source gives.
module _ (new_id : ℕ → Text) (now : Time) where
  -- `fire`
  unfoldable pub fire : Vps → Text → Text → Text → Text → Engine → Engine
  unfolding announce alert_message alert_title
  fire vps kind severity key msg e =
      let id = active_key vps.id kind key in
      let (a, store) = add_alert (new_id e.drawn) now (new_row vps kind severity key msg) e.store in
      let message = notified (alert_message vps kind severity msg) in
      if is_active id e.active then e else record e {
        store = store;
        active = insert id true e.active;
        sent = e.sent ++ (announce e.listening a ++ (if e.notifying then message ∷ [] else []));
        drawn = e.drawn + 1;
      }

-- `clear`
unfoldable pub clear : Text → Text → Text → Engine → Engine
unfolding announce_all announce
clear vps_id kind key e =
    let id = active_key vps_id kind key in
    let (rows, store) = resolve_alerts_for vps_id kind key e.store in
    if is_active id e.active
    then record e {
      store = store;
      active = erase id e.active;
      sent = e.sent ++ announce_all e.listening rows;
    }
    else e

-- One of the two conditions of `clearReachability`: the store is always asked.
unfoldable pub clear_always : Text → Text → Engine → Engine
unfolding announce_all announce
clear_always vps_id kind e =
    let (rows, store) = resolve_alerts_for vps_id kind [] e.store in
    record e {
      store = store;
      active = erase (active_key vps_id kind []) e.active;
      sent = e.sent ++ announce_all e.listening rows;
    }

-- `clearReachability`
unfoldable pub clear_reachability : Text → Engine → Engine
unfolding clear_always
clear_reachability vps_id e =
    let cleared = clear_always vps_id agent_down (clear_always vps_id agent_offline e) in
    record cleared { reach = erase vps_id e.reach }
