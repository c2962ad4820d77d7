-- ===== src/Register.antt =====
-- Which server an agent is let in as when it connects (backend/agent_register.go). The state is
-- the store, the queue of waiting agents and what was sent to the panel; `Around` is what the code
-- asks of Go's library and of the rest of the backend. The map coordinates that a new public
-- address is looked up for are left out, and the hub of the panel is taken to be there.
pub mod Strangers
pub mod Pinned
mod Tests
use beacle.Prelude.{
  ℕ, ◌+◌, ◌==◌, Text, codes, Time, Bool, true, false, not, ◌&&◌, ◌||◌, List, [], ◌∷◌, ◌++◌, Option,
  none, some, if◌then◌else◌, is_empty,
}
use beacle.Models.{Vps, ActionLog, online, is_wireguard, transport_wireguard}
use beacle.Registry.{Store, Entry}
use beacle.Registry.Servers.{
  get_vps, update_vps, update_vps_now, adopt_vps, find_pending_by_tailscale, find_by_tailscale,
}
use beacle.Registry.AlertRows.{add_action}
use beacle.Rejoin.{Queue, knock, list}
use beacle.Rejoin

-- `RegisterRequest`, less its operating system
pub record Request : Type 0 where
  pub vps_id : Text
  pub hostname : Text
  pub tailscale_name : Text
  pub tailscale_ip : Text
  pub public_ip : Text
  pub lan_ip : Text
  pub agent_version : Text
  pub agent_digest : Text
  pub arch : Text
  pub agent_port : ℕ

-- Is this address a loopback one (`net.ParseIP`), the name Tailscale gives an address, is a
-- server's agent connected, a text without the white space around it, and the address of an
-- endpoint with a port (`netip.ParseAddrPort`).
pub record Around : Type 0 where
  pub is_loopback : Text → Bool
  pub tailnet_name : Text → Text
  pub is_connected : Text → Bool
  pub trim_space : Text → Text
  pub endpoint_host : Text → Option Text

pub data Refusal : Type 0 where
  over_wireguard not_listed no_match unknown_token : Refusal

-- How a registration ends; the acknowledgement has the entry's identifier and token. A token whose
-- server was deleted meanwhile is a nil entry, which the source does not expect.
pub data Outcome : Type 0 where
  accepted : Entry → Outcome
  turned_down : Refusal → Outcome
  crashed : Outcome

pub data Notice : Type 0 where
  action_logged : ActionLog → Notice
  rejoins_listed : List Rejoin.Request → Notice

pub record Panel (Snapshot : Type 0) : Type 0 where
  pub store : Store Snapshot
  pub rejoins : Queue
  pub sent : List Notice

or_else : Text → Text → Text
or_else a b = if is_empty a then b else a

-- `applyAgentOnline`, with `applyPublicIPGeo`
unfoldable pub apply_online : Around → Time → Request → Text → Text → Entry → Entry
unfolding or_else
apply_online around now req host ts_name e = record e {
  restart = none;
  vps = record (e.vps) {
    status = online;
    last_seen = now;
    agent_ver = req.agent_version;
    agent_digest = req.agent_digest;
    arch = or_else req.arch e.vps.arch;
    agent_port = if req.agent_port == 0 then e.vps.agent_port else req.agent_port;
    tailscale_name = or_else ts_name e.vps.tailscale_name;
    host = or_else host e.vps.host;
    lan_ip = or_else req.lan_ip e.vps.lan_ip;
    public_ip = or_else (around.trim_space req.public_ip) e.vps.public_ip;
  };
}

-- What a registration through the tunnel makes of the entry.
unfoldable pub pin : Around → Text → Time → Request → Entry → Entry
pin around new_token now req e =
    let secured = record e {
      agent_token = if is_empty e.agent_token then new_token else e.agent_token;
      wg_agent_key = [];
    } in
    let live = apply_online around now req [] [] secured in
    let transport = if is_wireguard live.vps then live.vps.transport else transport_wireguard in
    let host : Text = elim (around.endpoint_host live.vps.wg_endpoint) [
      | some h ↦ h
      | none ↦ live.vps.host
    ] in
    record live { vps = record (live.vps) { transport = transport; host = host } }

-- Its private key or its transport changes: the first time the agent is heard in the tunnel.
is_first : Option Entry → Bool
is_first none = false
is_first (some e) = not (is_empty e.wg_agent_key) || not (is_wireguard e.vps)

-- Two random identifiers, two random tokens, and the clock: `new_id` names a server that is
-- adopted without one, `log_id` the logged action.
module _ {Snapshot : Type 0} (around : Around) (new_id log_id new_token : Text) (now : Time) where
  -- `logAction`
  log_action : Entry → Text → Text → Panel Snapshot → Panel Snapshot
  log_action e action detail p =
      let (a, store) =
        add_action log_id now
          (record {
            id = [];
            vps_id = e.vps.id;
            vps_name = e.vps.name;
            action = action;
            detail = detail;
            succeeded = true;
            created_at = 0;
          })
          p.store in
      record p { store = store; sent = p.sent ++ (action_logged a ∷ []) }

  -- The end of a registration that updated an entry, if it was there.
  logged : Text → Text → Option Entry × Store Snapshot → Panel Snapshot → Outcome × Panel Snapshot
  logged action detail (some e, store) p =
      (accepted e, log_action e action detail (record p { store = store }))
  logged action detail (none, store) p = (crashed, record p { store = store })

  -- An agent that presented the token of a server.
  with_token : Request → Text → Text → Entry → Panel Snapshot → Outcome × Panel Snapshot
  with_token req host ts_name te p =
      let apply =
        if is_wireguard te.vps
        then apply_online around now req [] []
        else apply_online around now req host ts_name in
      let (found, store) = update_vps te.vps.id apply p.store in
      (elim found [ some e ↦ accepted e | none ↦ crashed ], record p { store = store })

  -- An agent that matched a server: one that waits for it, or one that it reclaims.
  let_in : Request → Text → Text → Bool → Entry → Panel Snapshot → Outcome × Panel Snapshot
  let_in req host ts_name reclaim pending p =
      let renew = λ (e : Entry).
        apply_online around now req host ts_name
          (if is_empty e.agent_token || reclaim then record e { agent_token = new_token } else e) in
      logged (codes "vps_register") (codes "Agent connected via WebSocket")
        (update_vps pending.vps.id renew p.store) p

  -- An agent on this computer with credentials that the registry does not know.
  adopt : Request → Text → Text → Text → Panel Snapshot → Outcome × Panel Snapshot
  adopt req raw_token host ts_name p =
      let (e, store) =
        adopt_vps new_id new_token now req.vps_id raw_token req.hostname host ts_name
          req.agent_version p.store in
      logged (codes "vps_adopt") (codes "Agent re-adopted with existing credentials")
        (update_vps e.vps.id (apply_online around now req host ts_name) store) p

  -- One from elsewhere waits for the person at the panel.
  ask_to_rejoin : Request → Text → Text → Panel Snapshot → Panel Snapshot
  ask_to_rejoin req remote_ip raw_token p =
      let (is_new, q) =
        knock now
          (record {
            ip = remote_ip;
            tailnet_name = around.tailnet_name remote_ip;
            vps_id = req.vps_id;
            hostname = req.hostname;
            agent_version = req.agent_version;
            first_seen = 0;
            last_seen = 0;
            token = [];
          })
          raw_token p.rejoins in
      let (requests, listed) = list now q in
      if is_new
      then record p { rejoins = listed; sent = p.sent ++ (rejoins_listed requests ∷ []) }
      else record p { rejoins = q }

  -- An agent that matched nothing.
  unmatched : Request → Text → Text → Text → Text → Panel Snapshot → Outcome × Panel Snapshot
  unmatched req remote_ip raw_token host ts_name p =
      if is_empty raw_token && is_empty req.vps_id
      then (turned_down no_match, p)
      else if around.is_loopback remote_ip
      then adopt req raw_token host ts_name p
      else (turned_down not_listed, ask_to_rejoin req remote_ip raw_token p)

  -- The server that waits for this agent.
  pub find_waiting : Text → Text → Text → Store Snapshot → Option Entry
  find_waiting remote_ip host ts_name s =
      if around.is_loopback remote_ip
      then find_pending_by_tailscale ts_name host s
      else find_pending_by_tailscale (around.tailnet_name remote_ip) remote_ip s

  -- The server that this agent may reclaim: its address, while its agent is not connected.
  pub find_lost : Text → Store Snapshot → Option Entry
  find_lost remote_ip s = elim (find_by_tailscale [] remote_ip s) [
    | some e ↦ if around.is_connected e.vps.id then none else some e
    | none ↦ none
  ]

  -- An agent without a token; `known` is the server that it says it is, if there is one.
  matched :
      Request
      → Text
      → Text
      → Text
      → Text
      → Bool
      → Option Entry
      → Option Entry
      → Panel Snapshot
      → Outcome × Panel Snapshot
  matched req remote_ip raw_token host ts_name known (some e) lost p =
      let_in req host ts_name false e p
  matched req remote_ip raw_token host ts_name known none (some e) p =
      let_in req host ts_name true e p
  matched req remote_ip raw_token host ts_name true none none p = (turned_down unknown_token, p)
  matched req remote_ip raw_token host ts_name false none none p =
      unmatched req remote_ip raw_token host ts_name p

  known_server : Text → Store Snapshot → Option Entry
  known_server vps_id s = if is_empty vps_id then none else get_vps vps_id s

  without_token :
      Request → Text → Text → Text → Text → Option Entry → Panel Snapshot → Outcome × Panel Snapshot
  without_token req remote_ip raw_token host ts_name (some k) p =
      if is_wireguard k.vps
      then (turned_down over_wireguard, p)
      else matched req remote_ip raw_token host ts_name true
          (find_waiting remote_ip host ts_name p.store) (find_lost remote_ip p.store) p
  without_token req remote_ip raw_token host ts_name none p =
      matched req remote_ip raw_token host ts_name false
        (find_waiting remote_ip host ts_name p.store) (find_lost remote_ip p.store) p

  -- `registerAgent`
  pub register_agent :
      Request → Text → Text → Option Entry → Panel Snapshot → Outcome × Panel Snapshot
  unfolding or_else
  register_agent req remote_ip raw_token token_entry p =
      let host = or_else req.tailscale_ip remote_ip in
      let ts_name = or_else req.tailscale_name req.hostname in
      elim token_entry [
        | some te ↦ with_token req host ts_name te p
        | none ↦
            without_token req remote_ip raw_token host ts_name (known_server req.vps_id p.store) p
      ]

  pinned : Bool → Option Entry × Store Snapshot → Panel Snapshot → Outcome × Panel Snapshot
  pinned first (none, store) p = (turned_down no_match, record p { store = store })
  pinned first (some e, store) p =
      let q = record p { store = store } in
      (
        accepted e,
        if first
            then log_action e (codes "vps_register") (codes "Agent connected via WireGuard") q
            else q,
      )

  -- `registerPinnedAgent`
  pub register_pinned_agent : Request → Text → Panel Snapshot → Outcome × Panel Snapshot
  register_pinned_agent req vps_id p =
      pinned (is_first (get_vps vps_id p.store))
        (update_vps_now vps_id (pin around new_token now req) p.store) p
