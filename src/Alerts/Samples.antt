-- ===== src/Alerts/Samples.antt =====
-- Concrete engines, servers and networks for the tests of the alerts.
use beacle.Prelude.{
  ℕ, ◌*◌, Text, codes, lookup, true, false, [], ◌∷◌, none, some, refl, arith, text_eq, Time, second,
}
use beacle.Prelude.Ints.{pos}
use beacle.Models.{Vps, Alert, online}
use beacle.Registry.{Store, Entry}
use beacle.Registry.AlertRows.{open_for}
use beacle.Alerts.{Engine, Snapshot, active_key, is_active}
use beacle.Alerts.Tracking.{IsTracked}
use beacle.Alerts.Evaluate.{day}
use beacle.Alerts.Offline.{Network}

-- A server with custom thresholds, and one that has been silent since second 10.
abbrev pub vps : Vps
vps = record {
  id = codes "a1";
  name = codes "mars";
  host = codes "100.64.0.7";
  tailscale_name = codes "mars";
  public_ip = [];
  transport = [];
  wg_endpoint = [];
  wg_tunnel_ip = [];
  wg_public_key = [];
  weight = 1;
  status = online;
  thresholds =
      some (record { cpu_high = pos 300; mem_high = pos 0; disk_high = pos 9900; plugins = [] });
  agent_port = 8931;
  agent_ver = codes "1.0";
  agent_digest = [];
  arch = [];
  lan_ip = [];
  created_at = 5;
  last_seen = 10 * second;
}

abbrev pub entry : Entry
entry = record {
  vps = vps;
  agent_token = codes "t1";
  restart = none;
  wg_preshared_key = [];
  wg_agent_key = [];
}

abbrev pub row : Alert
row = record {
  id = codes "r1";
  vps_id = codes "a1";
  vps_name = codes "mars";
  kind = codes "cpu_high";
  severity = codes "warning";
  message = codes "hot";
  key = [];
  created_at = 3;
  resolved = false;
}

abbrev pub store : Store Snapshot
store = record {
  state = record {
    servers = (codes "a1", entry) ∷ [];
    links = [];
    alerts = row ∷ [];
    actions = [];
  };
  snapshots = [];
  dirty = false;
  disk = none;
  peers = none;
  writable = true;
  replaces = true;
  peers_writable = true;
}

-- The CPU alert is open, and the engine knows it.
abbrev pub engine : Engine
engine = record {
  store = store;
  active = (codes "a1|cpu_high|", true) ∷ [];
  since = [];
  prev_containers = [];
  cert_hosts = [];
  reach = [];
  quiet_until = 0;
  tailnet_lost = false;
  net = record { is_online = true; since = 0; checked = 0 };
  listening = true;
  notifying = true;
  sent = [];
  drawn = 0;
}

abbrev pub ids : ℕ → Text
ids n = n ∷ []

abbrev pub dates : Time → Text
dates t = codes "soon"

-- No socket, and Tailscale has no answer.
abbrev pub dark : Network
dark = record {
  connected = some (λ id. false);
  line = true;
  last_handshake = none;
  split_host = λ t. none;
  ping = λ t. false;
  tailscale_reachable = λ t. false;
}

abbrev pub hot : Snapshot
hot = record {
  vps = vps;
  cpu_percent = pos 9900;
  mem_percent = pos 100;
  disks = record { mount = codes "/"; used_percent = pos 9950 } ∷ [];
  containers = [];
  provider = codes "caddy";
  last_error = codes "bad gateway";
  sites = record { domain = codes "x.io"; cert_not_after = some (5 * day) } ∷ [];
  hostname = codes "mars";
  collected_at = 9 * day;
  network = [];
  load1 = pos 100;
  plugins = [];
  updated = 0;
}

pub engine-IsTracked : IsTracked engine
unfolding is_active active_key lookup text_eq open_for
engine-IsTracked = record {
  rows = (record { plain_vps = ground arith; plain_kind = ground arith; tracked = λ r. refl }, tt);
  unique = (λ r. refl, tt);
}
