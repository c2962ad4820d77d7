-- ===== src/Watchdog.antt =====
-- The watcher that an agent becomes while it is elected (agent/watchdog.go): its state, its
-- settings and the way it sends a message. Its children are the checks of an alert and the ticks.
pub mod Sending
pub mod Verify
pub mod Ticks
pub mod Streak
mod Due
pub mod Silence
mod Tests
use beacle.Prelude.{
  ℕ, suc, Text, codes, Map, lookup, Time, Duration, Bool, true, false, not, List, [], ◌∷◌, any,
  is_nil, Option, none, some, ◌==◌, if◌then◌else◌, text_eq,
}
use beacle.Alerts.{Message}

-- `WebhookTarget`
pub record Target : Type 0 where
  pub id : Text
  pub kind : Text
  pub url : Text
  pub chat_id : Text

-- `WatchdogPeer`
pub record Peer : Type 0 where
  pub id : Text
  pub name : Text
  pub host : Text
  pub agent_port : ℕ

-- `WatchdogConfig`. A delay at or below 0 is 0.
pub record Config : Type 0 where
  pub enabled : Bool
  pub role : Text
  pub self_id : Text
  pub primary_id : Text
  pub webhooks : List Target
  pub peers : List Peer
  pub panel_quiet_min : ℕ

-- `watchdog`, with the file of its settings.
pub record Watchdog : Type 0 where
  pub cfg : Config
  pub down : Map ℕ
  pub announced : Map Bool
  pub is_isolated : Bool
  pub panel_lost : Time
  pub panel_noticed : Bool
  pub file : Option Config

-- What the network answers while one check or one tick runs: an agent asked once, and asked once
-- more; SSH and ping of a host; this machine's internet line; whether a peer's agent has a tunnel
-- to the panel; and the error, if any, of a message posted to a target. `rounded` prints a
-- duration to the minute.
pub record Network : Type 0 where
  pub agent : Peer → Bool
  pub agent_again : Peer → Bool
  pub host : Text → Bool
  pub line : Bool
  pub panel : Peer → Bool
  pub post : Target → Message → Option Text
  pub rounded : Duration → Text

-- The errors of `sendAll` and `verify`.
pub data Failure : Type 0 where
  no_webhooks : Failure
  post_failed : Text → Failure
  cannot_vouch : Failure

-- A key that a Go map lacks reads as 0, or as false.
unfoldable pub count : Text → Map ℕ → ℕ
count k m = elim (lookup k m) [ some n ↦ n | none ↦ 0 ]

unfoldable pub flag : Text → Map Bool → Bool
flag k m = elim (lookup k m) [ some b ↦ b | none ↦ false ]

-- Settings that are not there, or that cannot be read.
abbrev pub no_config : Config
no_config = record {
  enabled = false;
  role = [];
  self_id = [];
  primary_id = [];
  webhooks = [];
  peers = [];
  panel_quiet_min = 0;
}

-- `loadWatchdogConfig`
unfoldable pub load_config : Option Config → Config
load_config none = no_config
load_config (some wc) = wc

-- What `runWatchdog` starts from.
unfoldable pub start : Watchdog → Watchdog
start w = record w { cfg = load_config w.file }

-- `setConfig`; `written` says whether the file takes the settings.
unfoldable pub set_config : Bool → Config → Watchdog → Bool × Watchdog
set_config written wc w = if not written then (false, w) else (
  true,
  if text_eq wc.role w.cfg.role
      then record w { cfg = wc; file = some wc }
      else record w { cfg = wc; file = some wc; down = []; announced = [] },
)

-- The loop of `sendAll`: the first error and the number of targets that took the message.
send_round : Network → Message → List Target → Option Text → ℕ → Option Text × ℕ
send_round net m [] first sent = (first, sent)
send_round net m (t ∷ ts) first sent = elim (net.post t m) [
  | none ↦ send_round net m ts first (suc sent)
  | some e ↦ send_round net m ts (elim first [ none ↦ some e | some f ↦ some f ]) sent
]

-- `sendAll`: the error that it returns
unfoldable pub send_all : Network → List Target → Message → Option Failure
unfolding send_round
send_all net targets m =
    let r = send_round net m targets none 0 in
    if is_nil targets
    then some no_webhooks
    else if r.1 == 0
    then elim r.0 [ some e ↦ some (post_failed e) | none ↦ none ]
    else none

-- `peerReachable`, with `peerUp`: a host that is blank is down.
unfoldable pub host_up : Network → Text → Bool
host_up net [] = false
host_up net (c ∷ cs) = net.host (c ∷ cs)

unfoldable pub reachable : Network → Peer → Bool
reachable net p = if net.agent p then true else host_up net p.host

-- `cutOff`
unfoldable pub cut_off : Network → List Bool → Bool
cut_off net witnesses = if is_nil witnesses then not net.line else not (any (λ up. up) witnesses)

-- A message that is not about an alert.
unfoldable pub plain_message : Text → Text → Text → Message
plain_message title body severity = record {
  title = title;
  body = body;
  severity = severity;
  vps_id = [];
  vps_name = [];
  alert = [];
}
