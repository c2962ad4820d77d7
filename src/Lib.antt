-- ===== src/Lib.antt =====
-- beacle: a panel for a fleet of servers. A backend (backend/) keeps a registry of servers, an
-- agent (agent/) runs on each of them, and both share records and constants (shared/).
--
-- What is modelled, with the file that models it:
--   * Models            the records of shared/models.go and shared/webhooks.go
--   * Levels            shared/thresholds.go: the alert thresholds of one server
--   * Registry          backend/store.go and backend/wg_peers.go: the state, its files and writes
--     Registry/Servers    CreateVPS, CreateWireGuardVPS, AutoRegisterVPS, AdoptVPS, UpdateVPS,
--                         UpdateVPSNow, MarkRestart, ClearRestart, DeleteVPS and the searches
--     Registry/Links      CreateLink, UpdateLink, DeleteLink, ListLinks
--     Registry/AlertRows  AddAlert, ResolveAlertsFor, PurgeResolvedAlerts, ResolveAlert, AddAction
--     Registry/Loading    NewStore with restoreWGPeers
--   * Alerts            backend/alerts.go: the engine's state, fire, clear, clearReachability
--     Alerts/Evaluate     EvaluateSnapshot, sustained, evaluateCerts
--     Alerts/Startup      NewAlertEngine, which takes on the open alerts of the store
--     Alerts/Offline      sweepOffline, WatchOffline, hostReachable; backend/localnet.go
--   * History           backend/history.go: Record, Backfill, Query, Span, Trim, Forget and load
--   * Rejoin            backend/rejoin.go: knock, list, take, refuse
--   * Register          backend/agent_register.go: registerAgent, registerPinnedAgent
--   * Watchdog          agent/watchdog.go: setConfig, sendAll, cutOff
--     Watchdog/Verify     verify, deliver
--     Watchdog/Ticks      probePeers, panelQuiet, panelBack, watchdogTickOnce
--   * Webhooks          backend/webhooks.go: SetTargets, SetPanelQuiet, SetPins, Enqueue
--     Webhooks/Election   Elect, electWatchers, networkKey
--     Webhooks/Delivery   SyncWatchers, deliver, watchdogHost
--   * Spool             agent/offline_buffer.go, agent/spike_buffer.go; the hand-over of
--                       agent/ws_client.go
--   * Spikes            agent/spike_detect.go, with topProcesses and checkSpikes
--   * Gate              agent/collect_gate.go: do, with Gate/Steps the callers in any order
--   * Uptime            backend/uptime_log.go: the runs of the panel and DownFrom
--   * Caddyfile         agent/caddyfile_parse.go: parseCaddyfile, replaceBlock and the readers of a block
--     Caddyfile/Saving    agent/proxy_caddy.go: UpdateSiteRaw on the main file, writeChecked, Reload
--   * Plugins           shared/plugin: LookupMetric (manifest.go) and allowedPath (host.go)
--     Plugins/Checks      shared/plugin/manifest.go: Validate, CallTimeout
--   * SpikeRecords      backend/spikes.go: what was running when a metric jumped (Record, Query, Nearest,
--                       Forget, Trim, load)
--   * Merge             backend/snapshot_merge.go: a frame of an agent becomes part of a snapshot, through
--                       the store, the alert engine and the history; shared/sample.go: SampleFrom
-- The other files hold proofs, named for what they prove, and the modules Tests and Samples hold
-- concrete runs. The backend's election works on the store and pushes the settings that the watchers
-- of the agents run on; an onset of a spike is appended to one of the agent's buffers. The alert
-- engine works on the store: its state has a `Store`, and each of its operations calls the store's
-- in the order in which the source does. A frame of an agent passes through the registry, the
-- engine and the history (Merge).
--
-- How it is modelled:
--   * Stateful code passes its state. A mutex makes each operation one step. The files that the
--     store writes are fields of its state, as decoded contents with a flag that says whether a
--     write succeeds; decoding is taken to give back what was encoded.
--   * A time is a number of nanoseconds since the year 1, 0 the zero time of Go. `Sub` stops at 0,
--     which gives the same answer in every comparison with a positive duration; SpikeRecords, which
--     compares absolute values, has both ends of its range. An operation reads the clock once, as an
--     argument, and random identifiers and tokens are arguments too.
--   * A percentage or another float64 is a signed number of hundredths. A text is its list of
--     bytes. A Go map is an association list: where the source walks a map, whose order Go leaves
--     open, the model walks the list. A port at or below 0 is 0.
--   * A Caddyfile is the list of its code points, since it is UTF-8 and white space is Unicode's. The
--     functions of the package strings that the parsers use are in Prelude/Words, and the two of
--     path/filepath that allowedPath uses are in Plugins, for Linux.
--   * What the network answers during a sweep (sockets, pings, handshakes, Tailscale, the line of
--     this computer) is a record of functions that the sweep takes; broadcasts, plugin events and
--     webhook messages are a list of events in the order in which they are sent.
--   * Loops are structural recursion. One is on fuel, the cut into chunks (Spool), which takes the
--     number of records: each round takes one of them at least.
--   * A watcher's tick, an election and a hand-over take what the network, the panel or the disk
--     answers as functions or flags, one answer for each question of that run.
--   * The gate is the one part that runs in several goroutines at a time: a stretch of `do` under the
--     lock is one step of a relation (Gate/Steps), and a channel is the number of its collection.
--
-- What is not modelled: the plugin metrics of the alert engine (the field that turns them on is
-- nil), HTTP and websocket handling, the WireGuard network stack, Docker, systemd and the other
-- collectors of the agent, the Lua interpreter of the plugins and the host functions around it, the
-- sites of Caddy that the panel writes itself, the forecast of when a disk is full (it fits a line
-- in floating point), and the app in app/.
pub mod Prelude
pub mod Models
pub mod Registry
pub mod Levels
pub mod Alerts
pub mod Caddyfile
pub mod Gate
pub mod History
pub mod Merge
pub mod Plugins
pub mod Register
pub mod Rejoin
pub mod SpikeRecords
pub mod Spikes
pub mod Spool
pub mod Uptime
pub mod Watchdog
pub mod Webhooks
