-- ===== src/Watchdog/Verify.antt =====
-- What a watcher does with a message that the panel asks it to send (agent/watchdog.go, lines
-- 206-305): an alert about a server's reachability is checked again from the watcher.
pub mod Vouch
use beacle.Prelude.{
  Text, codes, Bool, true, false, not, ◌&&◌, ◌||◌, List, [], ◌∷◌, ◌++◌, map, Option, none, some,
  if◌then◌else◌, text_eq, is_empty,
}
use beacle.Alerts.{Message, agent_offline, agent_down}
use beacle.Alerts.Offline.{msg_agent_down, msg_agent_offline}
use beacle.Watchdog.{
  Peer, Config, Network, Failure, cannot_vouch, send_all, host_up, reachable, cut_off,
}

-- The results of `verify`: a message to send, the reason not to send one, or its error.
pub data Verdict : Type 0 where
  sends : Message → Verdict
  suppresses : Text → Verdict
  declines : Failure → Verdict

-- `WatchdogSendResult`, or the error of `deliver`
pub data Delivery : Type 0 where
  was_sent : Delivery
  not_sent : Text → Delivery
  failed : Failure → Delivery

-- What the loop over the peers finds: the watcher's name, the peer the message is about, and the
-- others.
pub record Seen : Type 0 where
  pub self : Text
  pub peer : Option Peer
  pub witnesses : List Peer

unfoldable pub look_at : Text → Text → Peer → Seen → Seen
look_at self_id id p s =
    if text_eq p.id self_id
    then record s { self = p.name }
    else if text_eq p.id id
    then record s { peer = some p }
    else record s { witnesses = s.witnesses ++ (p ∷ []) }

unfoldable pub look : Text → Text → List Peer → Seen → Seen
look self_id id [] s = s
look self_id id (p ∷ ps) s = look self_id id ps (look_at self_id id p s)

-- An alert that the panel makes from its own view.
unfoldable pub is_reachability : Message → Bool
is_reachability m =
    not (is_empty m.vps_id) && (text_eq m.alert agent_down || text_eq m.alert agent_offline)

or_default : Text → Text → Text
or_default [] d = d
or_default (c ∷ cs) d = c ∷ cs

-- The message as this watcher sees it.
unfoldable pub confirmed : Network → Text → Peer → Message → Message
unfolding or_default
confirmed net self p m =
    let head =
      codes "["
      ++ (or_default m.severity (codes "critical") ++ codes "] ")
      ++ or_default m.vps_name p.name in
    let tail = codes " (confirmed by " ++ (self ++ codes ")") in
    if host_up net p.host
    then record m {
      alert = agent_down;
      title = head ++ codes ": agent down";
      body = msg_agent_down ++ tail;
    }
    else record m {
      alert = agent_offline;
      title = head ++ codes ": VPS offline";
      body = msg_agent_offline ++ tail;
    }

-- The agent answers, at the first or at the second try.
unfoldable pub is_alive : Network → Peer → Bool
is_alive net p = if net.agent p then true else net.agent_again p

-- The rest of `verify`, once the peer is found.
unfoldable pub check_peer : Network → Text → List Peer → Message → Peer → Verdict
check_peer net self witnesses m p =
    if is_alive net p
    then suppresses (p.name ++ (codes "'s agent answers " ++ self))
    else if cut_off net (map (reachable net) witnesses)
    then declines cannot_vouch
    else sends (confirmed net self p m)

-- `verify`
unfoldable pub verify : Network → Config → Message → Verdict
verify net wc m =
    let seen =
      look wc.self_id m.vps_id wc.peers
        (record { self = wc.self_id; peer = none; witnesses = [] }) in
    if not (is_reachability m)
    then sends m
    else if text_eq m.vps_id wc.self_id
    then suppresses (codes "the alert is about this watcher, and it is running")
    else elim seen.peer [ none ↦ sends m | some p ↦ check_peer net seen.self seen.witnesses m p ]

-- What `deliver` does with the verdict.
unfoldable pub pass_on : Network → Config → Verdict → Delivery
pass_on net wc (declines e) = failed e
pass_on net wc (suppresses reason) = not_sent reason
pass_on net wc (sends out) = elim (send_all net wc.webhooks out) [
  | some e ↦ failed e
  | none ↦ was_sent
]

-- `deliver`
unfoldable pub deliver : Network → Config → Message → Delivery
deliver net wc m = pass_on net wc (verify net wc m)
