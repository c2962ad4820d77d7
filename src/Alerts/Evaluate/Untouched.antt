-- ===== src/Alerts/Evaluate/Untouched.antt =====
-- The evaluation of a snapshot reads the servers and the snapshots of the store, and changes neither
-- (backend/alerts.go, `EvaluateSnapshot`).
use beacle.Prelude.{
  ℕ, Text, codes, Map, lookup, has, Time, Bool, true, false, List, [], ◌∷◌, Option, none, some,
  if◌then◌else◌, text_eq, is_empty, arith, Option-cases, Bool-cases, inl, inr, is_nil, ◌≡◌, ◌∙◌,
}
use beacle.Prelude.Ints.{ℤ, leb_ℤ}
use beacle.Models.{Vps}
use beacle.Levels.{Level, effective}
use beacle.Registry.{Store, persist}
use beacle.Registry.AlertRows.{add_alert, resolve_alerts_for, set_alerts, resolve_rows, open_for}
use beacle.Alerts.{
  Engine, Snapshot, Disk, Container, Site, fire, clear, is_active, active_key, cpu_high, mem_high,
  disk_high, docker_crash, proxy_error, cert_expiring, service_down, critical,
}
use beacle.Alerts.Evaluate.{
  since_key, sustained, clear_levels, cert_key, cert_level, CertLevel, good, warn, crit, expired,
  level_name, check_metric, check_disks, compare_container, check_container, check_containers,
  drop_service_alerts, check_proxy, check_cert, settle_cert, check_sites, drop_certs,
  evaluate_certs, evaluate_snapshot,
}

-- The store of the engine has the servers and the snapshots of `s`.
pub record SameServers (s : Store Snapshot) (e : Engine) : Type 0 where
  pub servers : e.store.state.servers ≡ s.state.servers
  pub snapshots : e.store.snapshots ≡ s.snapshots

module _ (s : Store Snapshot) where
  -- What holds of an engine, for the store that it started with.
  abbrev Same : Engine → Type 0
  Same e = SameServers s e

  if-Same : (b : Bool) {e f : Engine} → Same e → Same f → Same (if b then e else f)
  if-Same true t u = t
  if-Same false t u = u

  servers-persist : (t : Store Snapshot) → (persist t).state.servers ≡ t.state.servers
  unfolding persist
  servers-persist t = ground arith

  snapshots-persist : (t : Store Snapshot) → (persist t).snapshots ≡ t.snapshots
  unfolding persist
  snapshots-persist t = ground arith

  -- A conditional between the store and one that differs from it in its rows.
  resolve-Same :
      (vps_id kind key : Text) (e : Engine)
      → Same e
      → Same (record e { store = (resolve_alerts_for vps_id kind key e.store).1 })
  unfolding resolve_alerts_for set_alerts
  resolve-Same vps_id kind key e h =
      elim (Bool-cases (is_nil (resolve_rows (open_for vps_id kind key) e.store.state.alerts))) [
        | inl idle ↦
            rw (idle, resolve_alerts_for) (record { servers = h.servers; snapshots = h.snapshots })
        | inr busy ↦
            rw (busy, resolve_alerts_for)
              (record {
                servers = servers-persist _ ∙ h.servers;
                snapshots = snapshots-persist _ ∙ h.snapshots;
              })
      ]

  clear-Same : (vps_id kind key : Text) (e : Engine) → Same e → Same (clear vps_id kind key e)
  unfolding clear
  clear-Same vps_id kind key e h =
      let r = resolve-Same vps_id kind key e h in
      if-Same (is_active (active_key vps_id kind key) e.active)
        (record { servers = r.servers; snapshots = r.snapshots }) h

  sustained-Same :
      (now : Time) (vps_id metric : Text) (over : Bool) (e : Engine)
      → Same e
      → Same (sustained now vps_id metric over e).1
  unfolding sustained
  sustained-Same now vps_id metric false e h = record {
    servers = h.servers;
    snapshots = h.snapshots;
  }
  sustained-Same now vps_id metric true e h =
      elim (Option-cases (lookup (since_key vps_id metric) e.since)) [
        | inl new ↦ rw (new, sustained) (record { servers = h.servers; snapshots = h.snapshots })
        | inr (start, old) ↦ rw (old, sustained) h
      ]

  clear_levels-Same :
      (vps_id domain : Text) (level : CertLevel) (e : Engine)
      → Same e
      → Same (clear_levels vps_id domain level e)
  unfolding clear_levels
  clear_levels-Same vps_id domain level e h =
      let pick = λ (name : Text) (l : CertLevel) (f : Engine) (u : Same f).
        if-Same (text_eq name (level_name level)) u
          (clear-Same vps_id cert_expiring (cert_key domain l) f u) in
      pick (level_name expired) expired _
        (pick (level_name crit) crit _ (pick (level_name warn) warn e h))

  module _ (new_id : ℕ → Text) (date_text : Time → Text) (now : Time) (vps : Vps) where
    fire-Same :
        (kind severity key msg : Text) (e : Engine)
        → Same e
        → Same (fire new_id now vps kind severity key msg e)
    unfolding fire add_alert set_alerts
    fire-Same kind severity key msg e h =
        if-Same (is_active (active_key vps.id kind key) e.active) h (record {
          servers = servers-persist _ ∙ h.servers;
          snapshots = snapshots-persist _ ∙ h.snapshots;
        })

    check_metric-Same :
        (metric kind label : Text) (level : Level) (value : ℤ) (e : Engine)
        → Same e
        → Same (check_metric new_id date_text now metric kind label level value vps e)
    unfolding check_metric
    check_metric-Same metric kind label level value e h =
        let held = sustained-Same now vps.id metric (leb_ℤ level.high value) e h in
        if-Same _ (fire-Same kind _ _ _ _ held) (if-Same _ (clear-Same vps.id kind [] _ held) held)

    check_disks-Same :
        (level : Level) (disks : List Disk) (e : Engine)
        → Same e
        → Same (check_disks new_id date_text now level vps disks e)
    unfolding check_disks
    check_disks-Same level [] e h = h
    check_disks-Same level (d ∷ disks) e h = check_disks-Same level disks _ (
        if-Same _ (fire-Same disk_high _ _ _ e h)
          (if-Same _ (clear-Same vps.id disk_high d.mount e h) h))

    compare_container-Same :
        (old c : Container) (e : Engine)
        → Same e
        → Same (compare_container new_id date_text now vps old c e)
    unfolding compare_container
    compare_container-Same old c e h =
        let h1 = if-Same _ (fire-Same docker_crash critical c.id _ e h) h in
        let h2 = if-Same _ (fire-Same docker_crash _ _ _ _ h1) h1 in
        if-Same _ (clear-Same vps.id docker_crash _ _ (clear-Same vps.id docker_crash c.id _ h2)) h2

    check_containers-Same :
        (prev : Option (Map Container)) (cs : List Container) (cur : Map Container) (e : Engine)
        → Same e
        → Same (check_containers new_id date_text now vps prev cs cur e)
    unfolding check_containers check_container
    check_containers-Same prev [] cur e h = record { servers = h.servers; snapshots = h.snapshots }
    check_containers-Same none (c ∷ cs) cur e h = check_containers-Same none cs _ e h
    check_containers-Same (some m) (c ∷ cs) cur e h = elim (Option-cases (lookup c.id m)) [
      | inl new ↦
          rw (new, check_containers, check_container) (check_containers-Same (some m) cs _ e h)
      | inr (old, seen) ↦
          rw (seen, check_containers, check_container)
            (check_containers-Same (some m) cs _ _ (compare_container-Same old c e h))
    ]

    check_proxy-Same :
        (provider last_error : Text) (e : Engine)
        → Same e
        → Same (check_proxy new_id date_text now vps provider last_error e)
    unfolding check_proxy
    check_proxy-Same provider last_error e h =
        let f = clear-Same vps.id proxy_error (codes "down") e h in
        if-Same _ h
          (if-Same _ (clear-Same vps.id proxy_error _ _ f) (fire-Same proxy_error _ _ _ _ f))

    check_cert-Same :
        (domain : Text) (end : Time) (e : Engine)
        → Same e
        → Same (check_cert new_id date_text now vps domain end e)
    unfolding check_cert settle_cert
    check_cert-Same domain end e h =
        let f = clear_levels-Same vps.id domain (cert_level end now) e h in
        if-Same _ f (fire-Same cert_expiring _ _ _ _ f)

    check_sites-Same :
        (sites : List Site) (seen : Map Bool) (e : Engine)
        → Same e
        → Same (check_sites new_id date_text now vps sites seen e).1
    unfolding check_sites
    check_sites-Same [] seen e h = h
    check_sites-Same (s ∷ sites) seen e h =
        elim (Option-cases (if is_empty s.domain then none else s.cert_not_after)) [
          | inl unusable ↦ rw (unusable, check_sites) (check_sites-Same sites seen e h)
          | inr (end, usable) ↦
              rw (usable, check_sites)
                (check_sites-Same sites _ _ (check_cert-Same s.domain end e h))
        ]

    drop_certs-Same :
        (seen hosts : Map Bool) (e : Engine)
        → Same e
        → Same (drop_certs new_id date_text now vps.id seen hosts e)
    unfolding drop_certs
    drop_certs-Same seen [] e h = h
    drop_certs-Same seen ((d, b) ∷ hosts) e h =
        drop_certs-Same seen hosts _ (if-Same (has d seen) h (clear_levels-Same vps.id d good e h))

    -- No alert of a snapshot changes the servers of the store, or the snapshots.
    pub evaluate_snapshot-SameServers :
        (snap : Snapshot) (e : Engine)
        → Same e
        → Same (evaluate_snapshot new_id date_text now vps snap e)
    unfolding evaluate_snapshot drop_service_alerts evaluate_certs
    evaluate_snapshot-SameServers snap e h =
        let h1 = check_metric-Same _ cpu_high _ (effective vps).cpu snap.cpu_percent e h in
        let h2 = check_metric-Same _ mem_high _ (effective vps).mem snap.mem_percent _ h1 in
        let h3 = check_disks-Same (effective vps).disk snap.disks _ h2 in
        let h4 = check_containers-Same (lookup vps.id _) snap.containers [] _ h3 in
        let h5 = resolve-Same vps.id service_down [] _ h4 in
        let h6 =
          check_proxy-Same snap.provider snap.last_error _
            (record { servers = h5.servers; snapshots = h5.snapshots }) in
        let h7 = drop_certs-Same _ _ _ (check_sites-Same snap.sites [] _ h6) in
        record { servers = h7.servers; snapshots = h7.snapshots }
