-- ===== src/Register/Tests.antt =====
-- A concrete registration on which the property of strangers applies.
use beacle.Prelude.{
  codes, lookup, minute, true, false, [], ◌∷◌, none, ◌≡◌, refl, arith, text_eq, has,
}
use beacle.Models.{pending, is_wireguard}
use beacle.Registry.{Entry}
use beacle.Registry.Servers.{
  find, update_vps, find_pending_by_tailscale, find_by_tailscale, get_vps,
}
use beacle.Registry.Invariant.{IsValid}
use beacle.Register.{
  Request, Around, Panel, apply_online, register_agent, without_token, matched, let_in, logged,
  known_server, find_waiting, find_lost, or_else,
}
use beacle.Register.Strangers.{stranger_gets_new_token}

abbrev around : Around
around = record {
  is_loopback = λ ip. text_eq ip (codes "127.0.0.1");
  tailnet_name = λ ip. codes "mars";
  is_connected = λ id. false;
  trim_space = λ t. t;
  endpoint_host = λ t. none;
}

-- A server that was added in the panel and waits for its agent.
abbrev waiting : Entry
waiting = record {
  vps = record {
    id = codes "b2";
    name = codes "mars";
    host = [];
    tailscale_name = codes "mars";
    public_ip = [];
    transport = [];
    wg_endpoint = [];
    wg_tunnel_ip = [];
    wg_public_key = [];
    weight = 1;
    status = pending;
    thresholds = none;
    agent_port = 8931;
    agent_ver = [];
    agent_digest = [];
    arch = [];
    lan_ip = [];
    created_at = 5;
    last_seen = 5;
  };
  agent_token = [];
  restart = none;
  wg_preshared_key = [];
  wg_agent_key = [];
}

abbrev panel : Panel Unit
panel = record {
  store = record {
    state = record { servers = (codes "b2", waiting) ∷ []; links = []; alerts = []; actions = [] };
    snapshots = [];
    dirty = false;
    disk = none;
    peers = none;
    writable = true;
    replaces = true;
    peers_writable = true;
  };
  rejoins = record { waiting = []; refused = [] };
  sent = [];
}

panel-IsValid : IsValid panel.store.state
unfolding has lookup
panel-IsValid = record {
  servers_distinct = (refl, tt);
  servers_filed = (refl, tt);
  links_distinct = tt;
  links_filed = tt;
  alerts_bounded = omega arith;
  actions_bounded = omega arith;
}

abbrev request : Request
request = record {
  vps_id = [];
  hostname = codes "mars";
  tailscale_name = [];
  tailscale_ip = codes "100.64.0.7";
  public_ip = [];
  lan_ip = [];
  agent_version = codes "2.0";
  agent_digest = [];
  arch = codes "arm64";
  agent_port = 8931;
}

abbrev joined : Entry
joined =
    apply_online around minute request (codes "100.64.0.7") (codes "mars")
      (record waiting { agent_token = codes "new" })

stranger_gets_new_token_example :
    (joined.agent_token ≡ codes "new") × (is_wireguard joined.vps ≡ false)
unfolding register_agent without_token matched let_in logged known_server find_waiting find_lost
    or_else apply_online find update_vps find_pending_by_tailscale find_by_tailscale get_vps lookup
    text_eq is_wireguard
stranger_gets_new_token_example =
    stranger_gets_new_token around (codes "i") (codes "l") (codes "new") minute request
      (codes "100.64.0.7") [] panel joined panel-IsValid refl refl
