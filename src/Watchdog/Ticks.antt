-- ===== src/Watchdog/Ticks.antt =====
-- The minute tick of a watcher (agent/watchdog.go, lines 320-496): it probes the peers, counts the
-- failures in a row, and sends notices while the panel's tunnel is down. One tick reads the clock
-- and the network once. A notice is listed when it is handed to `sendAll`, whether or not a
-- webhook takes it.
use beacle.Prelude.{
  ℕ, suc, ◌*◌, Text, codes, Map, insert, Time, Duration, since, minute, ltb, leb, ◌==◌, Bool, true,
  false, not, ◌&&◌, ◌||◌, List, [], ◌∷◌, ◌++◌, map, filter, any, length, is_nil, none, some,
  if◌then◌else◌, text_eq, is_empty, number_text,
}
use beacle.Alerts.{Message}
use beacle.Alerts.Offline.{dash}
use beacle.Watchdog.{
  Peer, Config, Watchdog, Network, count, flag, send_all, reachable, cut_off, plain_message,
}

-- `watchdogDownAfter`
abbrev pub down_after : ℕ
down_after = 3

-- The four notices of a watcher.
pub data Notice : Type 0 where
  unreachable : Peer → ℕ → Notice
  again : Peer → Notice
  panel_gone : Duration → Notice
  panel_here : Duration → Notice

-- The peers that are not the watcher itself.
unfoldable pub others : Config → List Peer
others wc = filter (λ p. not (text_eq p.id wc.self_id)) wc.peers

name_of : Text → List Peer → Text
name_of id [] = codes "a watcher"
name_of id (p ∷ ps) = if text_eq p.id id then p.name else name_of id ps

-- `selfName`
unfoldable pub self_name : Config → Text
unfolding name_of
self_name wc = name_of wc.self_id wc.peers

-- The text of a notice.
unfoldable pub notice_message : Network → Config → Notice → Message
notice_message net wc (unreachable p n) =
    plain_message (codes "[critical] " ++ (p.name ++ codes " unreachable"))
      (codes "No answer on "
        ++ (p.host
            ++ (codes " for "
                ++ (number_text n
                    ++ (codes " minutes (backend tunnel down "
                        ++ (dash ++ codes " reported by fleet watcher)."))))))
      (codes "critical")
notice_message net wc (again p) =
    plain_message (codes "[info] " ++ (p.name ++ codes " reachable again"))
      (codes "Peer answers probes.") (codes "info")
notice_message net wc (panel_gone d) =
    plain_message (codes "[warning] Beacle panel is not answering")
      (codes "No server has heard from the panel for "
        ++ (net.rounded d
            ++ (codes
                  ": the computer it runs on is off or asleep, or lost its internet. The servers are still watched, by "
                ++ (self_name wc ++ codes "."))))
      (codes "warning")
notice_message net wc (panel_here d) =
    plain_message (codes "[info] Beacle panel is back")
      (codes "The panel answers again after " ++ (net.rounded d ++ codes ".")) (codes "info")

-- `sendAll` of a notice returned no error.
unfoldable pub is_taken : Network → Config → Notice → Bool
is_taken net wc n = elim (send_all net wc.webhooks (notice_message net wc n)) [
  | none ↦ true
  | some e ↦ false
]

-- `allowedToSendLocked`
unfoldable pub allowed : Config → Map Bool → Bool
allowed wc announced =
    if not (text_eq wc.role (codes "secondary"))
      || (is_empty wc.primary_id || text_eq wc.primary_id wc.self_id)
    then true
    else flag wc.primary_id announced

module _ (net : Network) (wc : Config) (announce : Bool) where
  -- The loop body of `probePeers` for a peer that answers
  unfoldable pub visit_up : Peer → Watchdog → Watchdog × List Notice
  visit_up p w =
      let announced = insert p.id false w.announced in
      (
        record w { down = insert p.id 0 w.down; announced = announced },
        if flag p.id w.announced && (announce && allowed wc announced) then again p ∷ [] else [],
      )

  -- and for one that does not.
  unfoldable pub visit_down : Peer → Watchdog → Watchdog × List Notice
  visit_down p w =
      let failures = suc (count p.id w.down) in
      let counted = record w { down = insert p.id failures w.down } in
      if announce
        && (not (flag p.id w.announced) && (leb down_after failures && allowed wc w.announced))
      then (
        if is_taken net wc (unreachable p failures)
            then record counted { announced = insert p.id true w.announced }
            else counted,
        unreachable p failures ∷ [],
      )
      else (counted, [])

  unfoldable pub visit : Peer → Watchdog → Watchdog × List Notice
  visit p w = if reachable net p then visit_up p w else visit_down p w

  unfoldable pub visit_all : List Peer → Watchdog → Watchdog × List Notice
  visit_all [] w = (w, [])
  visit_all (p ∷ ps) w =
      let one = visit p w in let rest = visit_all ps one.0 in (rest.0, one.1 ++ rest.1)

-- The witnesses of a tick: each peer is one for the others, a lone peer has none.
unfoldable pub witnesses : Network → Config → List Bool
witnesses net wc = if ltb (length (others wc)) 2 then [] else map (reachable net) (others wc)

-- `probePeers`
unfoldable pub probe_peers : Network → Config → Bool → Watchdog → Watchdog × List Notice
probe_peers net wc announce w =
    if cut_off net (witnesses net wc)
    then (record w { is_isolated = true; down = [] }, [])
    else visit_all net wc announce (others wc) (record w { is_isolated = false })

-- `panelBack`
unfoldable pub panel_back : Time → Watchdog → Watchdog × List Notice
panel_back now w = (
  record w { panel_lost = 0; panel_noticed = false },
  if w.panel_noticed then panel_here (since now w.panel_lost) ∷ [] else [],
)

-- `panelQuiet`
unfoldable pub panel_quiet : Network → Config → Time → Watchdog → Watchdog × List Notice
panel_quiet net wc now w =
    let lost = if w.panel_lost == 0 then now else w.panel_lost in
    let quiet = since now lost in
    let marked = record w { panel_lost = lost } in
    let skip =
      wc.panel_quiet_min == 0
      || (w.panel_noticed
          || (w.is_isolated
              || (not (allowed wc w.announced) || ltb quiet (wc.panel_quiet_min * minute)))) in
    if skip || any net.panel (others wc) then (marked, []) else (
      if is_taken net wc (panel_gone quiet) then record marked { panel_noticed = true } else marked,
      panel_gone quiet ∷ [],
    )

-- `watchdogTickOnce`; `connected` says whether the tunnel to the panel is up.
unfoldable pub tick : Network → Bool → Time → Watchdog → Watchdog × List Notice
tick net connected now w =
    let probed = probe_peers net w.cfg (not connected) w in
    let told = if connected then panel_back now probed.0 else panel_quiet net w.cfg now probed.0 in
    if not w.cfg.enabled || is_nil w.cfg.webhooks then (w, []) else (told.0, probed.1 ++ told.1)
