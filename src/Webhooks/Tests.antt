-- ===== src/Webhooks/Tests.antt =====
-- Elections among three servers, two of which share a network, and runs of the service.
use beacle.Prelude.{
  Unique, ℕ, Text, codes, lookup, has, true, false, ◌&&◌, [], ◌∷◌, none, some, All, ◌≡◌, ◌↔◌, refl,
  arith, text_eq, inl, sort, sort_insert,
}
use beacle.Models.{Vps, online, is_wireguard}
use beacle.Alerts.{Message}
use beacle.Registry.{Store, Entry}
use beacle.Registry.Servers.{text_less}
use beacle.Registry.Invariant.{IsValid}
use beacle.Watchdog.{Target}
use beacle.Watchdog.Streak.{WatchIsOn}
use beacle.Webhooks.{Service, no_watcher}
use beacle.Webhooks.Election.{
  Addresses, elect_watchers, fill, by_id, best, best_beside, or_best, unless_same, steadier,
  same_network, network_key, keep_first,
}
use beacle.Webhooks.Choice.{elects_two}
use beacle.Webhooks.Delivery.{answered, deliver, sync_watchers, elected}
use beacle.Webhooks.Pushed.{sync_watchers-WatchIsOn, deliver-no_watcher_iff, no_taker}
use mathlib.Core.List.{Memᴰ}

abbrev server : Text → Text → ℕ → Vps
server id ip born = record {
  id = id;
  name = id;
  host = codes "100.64.0.1";
  tailscale_name = id;
  public_ip = ip;
  transport = [];
  wg_endpoint = [];
  wg_tunnel_ip = [];
  wg_public_key = [];
  weight = 1;
  status = online;
  thresholds = none;
  agent_port = 0;
  agent_ver = [];
  agent_digest = [];
  arch = [];
  lan_ip = [];
  created_at = born;
  last_seen = 0;
}

abbrev a1 : Vps
a1 = server (codes "a1") (codes "203.0.113.1") 1

abbrev b2 : Vps
b2 = server (codes "b2") (codes "203.0.113.1") 2

abbrev c3 : Vps
c3 = server (codes "c3") (codes "203.0.113.9") 3

-- Every text is an IPv4 address.
abbrev v4 : Addresses
v4 = record {
  split_host = λ e. some e;
  parse = λ ip. some ip;
  is_v6 = λ ip. false;
  prefix64 = λ ip. none;
}

abbrev even : Text → ℕ
even id = 1440

-- The two oldest share a network, so the youngest gets the second seat.
elects_apart :
    elect_watchers v4 (b2 ∷ c3 ∷ a1 ∷ []) even [] []
    ≡ record { primary = some a1; secondary = some c3 }
unfolding elect_watchers fill by_id best best_beside or_best unless_same steadier same_network
    network_key keep_first text_eq sort sort_insert text_less is_wireguard
elects_apart = refl

abbrev target : Target
target = record { id = codes "t"; kind = codes "ntfy"; url = codes "u"; chat_id = [] }

abbrev service : Service
service = record {
  settings = record { targets = target ∷ []; primary = []; secondary = []; panel_quiet_min = 0 };
  file = none;
  writable = true;
  queue = [];
  pushed = [];
}

abbrev entry : Vps → Entry
entry v = record {
  vps = v;
  agent_token = [];
  restart = none;
  wg_preshared_key = [];
  wg_agent_key = [];
}

abbrev fleet : Store Unit
fleet = record {
  state = record {
    servers = (codes "a1", entry a1) ∷ (codes "c3", entry c3) ∷ [];
    links = [];
    alerts = [];
    actions = [];
  };
  snapshots = [];
  dirty = false;
  disk = none;
  peers = none;
  writable = true;
  replaces = true;
  peers_writable = true;
}

fleet-IsValid : IsValid fleet.state
unfolding has lookup text_eq
fleet-IsValid = record {
  servers_distinct = (refl, (refl, tt));
  servers_filed = (refl, (refl, tt));
  links_distinct = tt;
  links_filed = tt;
  alerts_bounded = omega arith;
  actions_bounded = omega arith;
}

sync_watchers-WatchIsOn_example :
    All
      (λ push. push.1.enabled ≡ true → WatchIsOn push.1 × Unique (λ p. p.id) push.1.peers)
      (sync_watchers v4 (λ id. true) even false fleet service).1
sync_watchers-WatchIsOn_example =
    sync_watchers-WatchIsOn v4 (λ id. true) even false fleet service fleet-IsValid

abbrev message : Message
message = record { title = []; body = []; severity = []; vps_id = []; vps_name = []; alert = [] }

deliver-no_watcher_iff_example :
    ((deliver v4 (λ id. true) even false (λ m v. answered 500 none []) message fleet service).2
      ≡ inl no_watcher)
    ↔ ((no_taker (λ v. answered 500 none []) (elected v4 (λ id. true) even fleet service).primary
          && no_taker
              (λ v. answered 500 none [])
              (elected v4 (λ id. true) even fleet service).secondary)
        ≡ true)
deliver-no_watcher_iff_example =
    deliver-no_watcher_iff v4 (λ id. true) even false (λ m v. answered 500 none []) message fleet
      service refl

elects_two_example :
    (a : Vps) × (b : Vps) × (elect_watchers v4 (a1 ∷ c3 ∷ []) even [] (codes "c3")
      ≡ record { primary = some a; secondary = some b })
    × Memᴰ a (a1 ∷ c3 ∷ [])
    × Memᴰ b (a1 ∷ c3 ∷ [])
    × (text_eq b.id a.id ≡ false)
unfolding text_eq
elects_two_example =
    elects_two v4 (a1 ∷ c3 ∷ []) even [] (codes "c3") a1 c3 (Memᴰ.head refl)
      (Memᴰ.tail (Memᴰ.head refl)) refl
