-- ===== src/Alerts/Evaluate.antt =====
-- What one snapshot of a server does to its alerts (backend/alerts.go, lines 292-388 and 445-497).
-- `date_text` prints a day, as `Format("2006-01-02")` does.
pub mod Keeps
pub mod Sustained
pub mod Certs
pub mod Untouched
use beacle.Prelude.{
  ℕ, ◌*◌, ◌+◌, Text, codes, Map, lookup, insert, erase, has, Time, since, second, hour, ltb, leb,
  Bool, true, false, not, ◌&&◌, ◌||◌, List, [], ◌∷◌, ◌++◌, Option, none, some, if◌then◌else◌,
  text_eq, is_empty, percent_text, int_text, number_text,
}
use beacle.Prelude.Ints.{ℤ, pos, ltb_ℤ, leb_ℤ}
use beacle.Models.{Vps, Alert}
use beacle.Levels.{Level, Levels, effective}
use beacle.Registry.AlertRows.{resolve_alerts_for}
use beacle.Alerts.{
  Engine, Snapshot, Disk, Container, Site, Event, alert_sent, fire, clear, cpu_high, mem_high,
  disk_high, service_down, docker_crash, proxy_error, cert_expiring, warning, critical,
}

-- `SustainedSeconds`
abbrev pub sustained_seconds : ℕ
sustained_seconds = 10

pub since_key : Text → Text → Text
since_key vps_id metric = vps_id ++ (b'|' ∷ metric)

-- `sustained`
unfoldable pub sustained : Time → Text → Text → Bool → Engine → Bool × Engine
unfolding since_key
sustained now vps_id metric over e =
    let key = since_key vps_id metric in
    let watched : Bool × Engine = elim (lookup key e.since) [
      | some start ↦ (leb (sustained_seconds * second) (since now start), e)
      | none ↦ (false, record e { since = insert key now e.since })
    ] in
    if over then watched else (false, record e { since = erase key e.since })

-- The severity of a certificate that ends at the first time, seen at the second; `none` is good.
pub data CertLevel : Type 0 where
  good warn crit expired : CertLevel

abbrev pub day : ℕ
day = 24 * hour

unfoldable pub cert_level : Time → Time → CertLevel
cert_level end now =
    if leb end now
    then expired
    else if leb (since end now) (3 * day)
    then crit
    else if leb (since end now) (14 * day)
    then warn
    else good

abbrev pub level_name : CertLevel → Text
level_name good = []
level_name warn = codes "warn"
level_name crit = codes "crit"
level_name expired = codes "expired"

unfoldable pub cert_key : Text → CertLevel → Text
cert_key domain level = domain ++ (b'|' ∷ level_name level)

-- The loop over `certLevels` that clears every level but one; `good` clears all.
unfoldable pub clear_levels : Text → Text → CertLevel → Engine → Engine
clear_levels vps_id domain level e =
    let others = λ (l : CertLevel) (f : Engine).
      if text_eq (level_name l) (level_name level)
      then f
      else clear vps_id cert_expiring (cert_key domain l) f in
    others expired (others crit (others warn e))

sent_rows : List Alert → List Event
sent_rows [] = []
sent_rows (a ∷ as') = alert_sent a ∷ sent_rows as'

module _ (new_id : ℕ → Text) (date_text : Time → Text) (now : Time) where
  -- The test of one metric: CPU and RAM differ in names only.
  check_metric : Text → Text → Text → Level → ℤ → Vps → Engine → Engine
  check_metric metric kind label level value vps e =
      let (held, f) = sustained now vps.id metric (leb_ℤ level.high value) e in
      let msg =
        label
        ++ (codes " above "
            ++ (percent_text level.high
                ++ (codes "% for "
                    ++ (number_text sustained_seconds
                        ++ (codes "s (now " ++ (percent_text value ++ codes "%)")))))) in
      if held
      then fire new_id now vps kind warning [] msg f
      else if ltb_ℤ value level.clear
      then clear vps.id kind [] f
      else f

  check_disks : Level → Vps → List Disk → Engine → Engine
  check_disks level vps [] e = e
  check_disks level vps (d ∷ disks) e =
      let msg =
        codes "Disk "
        ++ (d.mount ++ (codes " at " ++ (percent_text d.used_percent ++ codes "%"))) in
      check_disks level vps disks (
        if leb_ℤ level.high d.used_percent
        then fire new_id now vps disk_high warning d.mount msg e
        else if ltb_ℤ d.used_percent level.clear
        then clear vps.id disk_high d.mount e
        else e)

  restart_key : Text → Text
  restart_key id = id ++ codes "-restart"

  -- One container that the last snapshot had too, as `p`.
  compare_container : Vps → Container → Container → Engine → Engine
  compare_container vps p c e =
      let crash_msg =
        codes "Container "
        ++ (c.name ++ (codes " crashed (exit " ++ (int_text c.exit_code ++ codes ")"))) in
      let restart_msg =
        codes "Container "
        ++ (c.name ++ (codes " restarted (count " ++ (number_text c.restart_count ++ codes ")"))) in
      let running = text_eq c.state (codes "running") in
      let crashed =
        text_eq p.state (codes "running")
        && text_eq c.state (codes "exited")
        && not (leb_ℤ c.exit_code (pos 0) && leb_ℤ (pos 0) c.exit_code) in
      let e1 = if crashed then fire new_id now vps docker_crash critical c.id crash_msg e else e in
      let e2 =
        if ltb p.restart_count c.restart_count
        then fire new_id now vps docker_crash warning (restart_key c.id) restart_msg e1
        else e1 in
      if running
      then clear vps.id docker_crash (restart_key c.id) (clear vps.id docker_crash c.id e2)
      else e2

  check_container : Vps → Option (Map Container) → Container → Engine → Engine
  check_container vps none c e = e
  check_container vps (some prev) c e = elim (lookup c.id prev) [
    | some p ↦ compare_container vps p c e
    | none ↦ e
  ]

  -- The loop over the containers; the map is `cur`.
  check_containers : Vps → Option (Map Container) → List Container → Map Container → Engine → Engine
  check_containers vps prev [] cur e = record e {
    prev_containers = insert vps.id cur e.prev_containers;
  }
  check_containers vps prev (c ∷ cs) cur e =
      check_containers vps prev cs (insert c.id c cur) (check_container vps prev c e)

  -- systemd units raise nothing; alerts that an older build left are resolved, unheard by plugins.
  drop_service_alerts : Vps → Engine → Engine
  drop_service_alerts vps e =
      let (rows, store) = resolve_alerts_for vps.id service_down [] e.store in
      record e { store = store; sent = e.sent ++ sent_rows rows }

  check_proxy : Vps → Text → Text → Engine → Engine
  check_proxy vps provider last_error e =
      let f = clear vps.id proxy_error (codes "down") e in
      if text_eq provider (codes "none")
      then e
      else if is_empty last_error
      then clear vps.id proxy_error (codes "err") f
      else fire new_id now vps proxy_error warning (codes "err") last_error f

  cert_severity : CertLevel → Text
  cert_severity good = warning
  cert_severity warn = warning
  cert_severity crit = critical
  cert_severity expired = critical

  cert_message : Text → Time → CertLevel → Text
  cert_message domain end expired =
      codes "Certificate for " ++ (domain ++ (codes " expired on " ++ date_text end))
  cert_message domain end level =
      codes "Certificate for " ++ (domain ++ (codes " expires on " ++ date_text end))

  -- The level of one certificate is raised, and its other levels are resolved.
  unfoldable pub settle_cert : Vps → Text → Time → CertLevel → Engine → Engine
  unfolding cert_severity cert_message
  settle_cert vps domain end level e =
      let f = clear_levels vps.id domain level e in
      let raised =
        fire new_id now vps cert_expiring (cert_severity level) (cert_key domain level)
          (cert_message domain end level) f in
      if is_empty (level_name level) then f else raised

  unfoldable pub check_cert : Vps → Text → Time → Engine → Engine
  check_cert vps domain end e = settle_cert vps domain end (cert_level end now) e

  -- The loop over the sites; the map is `seen`. A site with no certificate or no domain is passed
  -- over.
  check_sites : Vps → List Site → Map Bool → Engine → Map Bool × Engine
  check_sites vps [] seen e = (seen, e)
  check_sites vps (s ∷ sites) seen e =
      let usable : Option Time = if is_empty s.domain then none else s.cert_not_after in
      let seen' : Map Bool = elim usable [ some end ↦ insert s.domain true seen | none ↦ seen ] in
      let e' : Engine = elim usable [ some end ↦ check_cert vps s.domain end e | none ↦ e ] in
      check_sites vps sites seen' e'

  -- The loop over the domains of the last snapshot: one that is gone has its alerts resolved.
  drop_certs : Text → Map Bool → Map Bool → Engine → Engine
  drop_certs vps_id seen [] e = e
  drop_certs vps_id seen ((d, b) ∷ hosts) e =
      drop_certs vps_id seen hosts (if has d seen then e else clear_levels vps_id d good e)

  known_hosts : Text → Engine → Map Bool
  known_hosts vps_id e = elim (lookup vps_id e.cert_hosts) [ some m ↦ m | none ↦ [] ]

  -- `evaluateCerts`
  evaluate_certs : Vps → List Site → Engine → Engine
  evaluate_certs vps sites e =
      let (seen, f) = check_sites vps sites [] e in
      let g = drop_certs vps.id seen (known_hosts vps.id f) f in
      record g { cert_hosts = insert vps.id seen g.cert_hosts }

  -- `EvaluateSnapshot`
  pub evaluate_snapshot : Vps → Snapshot → Engine → Engine
  evaluate_snapshot vps snap e0 =
      let levels = effective vps in
      let e1 =
        check_metric (codes "cpu") cpu_high (codes "CPU") levels.cpu snap.cpu_percent vps e0 in
      let e2 =
        check_metric (codes "mem") mem_high (codes "RAM") levels.mem snap.mem_percent vps e1 in
      let e3 = check_disks levels.disk vps snap.disks e2 in
      let e4 = check_containers vps (lookup vps.id e3.prev_containers) snap.containers [] e3 in
      let e5 = drop_service_alerts vps e4 in
      let e6 = check_proxy vps snap.provider snap.last_error e5 in evaluate_certs vps snap.sites e6
