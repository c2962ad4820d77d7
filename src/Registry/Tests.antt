-- ===== src/Registry/Tests.antt =====
-- Concrete stores on which the store's properties apply, and runs of its operations.
use beacle.Prelude.{
  ℕ, codes, lookup, true, false, [], ◌∷◌, none, some, has, ◌≡◌, refl, arith, text_eq,
}
use beacle.Models.{Vps, Link, Alert, online, pending}
use beacle.Registry.{Store, Entry, State, persist, has_wireguard_peer}
use beacle.Registry.Servers.{create_vps, delete_vps, get_vps}
use beacle.Registry.Invariant.{IsValid}
use beacle.Registry.Reachable.{here, next, creates, deletes, Reach-IsValid}
use beacle.Registry.Loading.{new_store}
use beacle.Registry.Startup.{SameIdentity, restore_after_loss}

-- A server on WireGuard, one on Tailscale that waits for its agent, and one that is connected.
abbrev tunnel_vps : Vps
tunnel_vps = record {
  id = codes "a1";
  name = codes "tunnel";
  host = codes "10.8.0.2";
  tailscale_name = [];
  public_ip = [];
  transport = codes "wireguard";
  wg_endpoint = codes "203.0.113.9";
  wg_tunnel_ip = codes "10.8.0.2";
  wg_public_key = codes "pk";
  weight = 1;
  status = online;
  thresholds = none;
  agent_port = 8931;
  agent_ver = codes "1.0";
  agent_digest = [];
  arch = [];
  lan_ip = [];
  created_at = 5;
  last_seen = 9;
}

abbrev waiting_vps : Vps
waiting_vps = record tunnel_vps {
  id = codes "b2";
  name = codes "mars";
  host = codes "100.64.0.7";
  tailscale_name = codes "mars";
  transport = [];
  wg_endpoint = [];
  wg_tunnel_ip = [];
  wg_public_key = [];
  status = pending;
}

abbrev tunnel : Entry
tunnel = record {
  vps = tunnel_vps;
  agent_token = codes "t1";
  restart = none;
  wg_preshared_key = codes "psk";
  wg_agent_key = [];
}

abbrev waiting : Entry
waiting = record tunnel { vps = waiting_vps; agent_token = []; wg_preshared_key = [] }

abbrev link : Link
link = record {
  id = codes "l1";
  from_vps = codes "a1";
  to_vps = codes "b2";
  status = codes "unknown";
}

abbrev row : Alert
row = record {
  id = codes "r1";
  vps_id = codes "a1";
  vps_name = codes "tunnel";
  kind = codes "cpu_high";
  severity = codes "warning";
  message = codes "hot";
  key = [];
  created_at = 3;
  resolved = false;
}

abbrev full_state : State
full_state = record {
  servers = (codes "a1", tunnel) ∷ (codes "b2", waiting) ∷ [];
  links = (codes "l1", link) ∷ [];
  alerts = row ∷ record row { id = codes "r2"; kind = codes "mem_high" } ∷ [];
  actions = [];
}

abbrev full : Store ℕ
full = record {
  state = full_state;
  snapshots = (codes "a1", 7) ∷ (codes "b2", 8) ∷ [];
  dirty = false;
  disk = none;
  peers = none;
  writable = true;
  replaces = true;
  peers_writable = true;
}

abbrev blank : Store ℕ
blank = record full {
  state = record { servers = []; links = []; alerts = []; actions = [] };
  snapshots = [];
}

blank-IsValid : IsValid blank.state
blank-IsValid = record {
  servers_distinct = tt;
  servers_filed = tt;
  links_distinct = tt;
  links_filed = tt;
  alerts_bounded = omega arith;
  actions_bounded = omega arith;
}

full-IsValid : IsValid full.state
unfolding has lookup text_eq
full-IsValid = record {
  servers_distinct = (refl, (refl, tt));
  servers_filed = (refl, (refl, tt));
  links_distinct = (refl, tt);
  links_filed = (refl, tt);
  alerts_bounded = omega arith;
  actions_bounded = omega arith;
}

-- Two servers are added and one is deleted.
abbrev after_add : Store ℕ
after_add = (create_vps (codes "a1") 10 (codes "mars") (codes "mars") [] blank).1

Reach-IsValid_example : IsValid (delete_vps (codes "a1") after_add).1.state
Reach-IsValid_example =
    Reach-IsValid
      (next (next here (creates (codes "a1") 10 (codes "mars") (codes "mars") [] blank))
        (deletes (codes "a1") after_add))
      blank-IsValid

restore_after_loss_example :
    (e' : Entry) × (get_vps (codes "a1") (new_store ℕ 90 true true true none (persist full).peers)
      ≡ some e')
    × SameIdentity e' tunnel
unfolding has_wireguard_peer get_vps lookup text_eq
restore_after_loss_example =
    restore_after_loss 90 true true true full (codes "a1") tunnel full-IsValid refl refl refl refl
      refl
