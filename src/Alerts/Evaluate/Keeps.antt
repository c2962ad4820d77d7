-- ===== src/Alerts/Evaluate/Keeps.antt =====
-- A snapshot keeps the open alerts tracked (backend/alerts.go, `EvaluateSnapshot`).
use beacle.Prelude.{
  ℕ, Text, codes, Map, lookup, has, Time, Bool, true, false, List, [], ◌∷◌, Option, none, some,
  if◌then◌else◌, text_eq, is_empty, arith, Option-cases, inl, inr, ltb, not, ◌&&◌,
}
use beacle.Prelude.Ints.{ℤ, pos, leb_ℤ}
use beacle.Models.{Vps}
use beacle.Levels.{Level, effective}
use beacle.Alerts.{
  Engine, Snapshot, Disk, Container, Site, clear, cpu_high, mem_high, disk_high, docker_crash,
  proxy_error, cert_expiring, service_down, critical,
}
use beacle.Alerts.Keys.{Plain}
use beacle.Alerts.Tracking.{
  IsTracked, fire-IsTracked, clear-IsTracked, drop_rows-IsTracked, if-IsTracked,
}
use beacle.Alerts.Evaluate.{
  since_key, sustained, clear_levels, cert_key, cert_level, CertLevel, good, warn, crit, expired,
  level_name, check_metric, check_disks, compare_container, check_container, check_containers,
  drop_service_alerts, check_proxy, check_cert, settle_cert, check_sites, drop_certs,
  evaluate_certs, evaluate_snapshot,
}

-- Two engines with the same active map and store are tracked alike.
sustained-IsTracked :
    (now : Time) (vps_id metric : Text) (over : Bool) (e : Engine)
    → IsTracked e
    → IsTracked (sustained now vps_id metric over e).1
unfolding sustained
sustained-IsTracked now vps_id metric false e t = record { rows = t.rows; unique = t.unique }
sustained-IsTracked now vps_id metric true e t =
    elim (Option-cases (lookup (since_key vps_id metric) e.since)) [
      | inl new ↦ rw (new, sustained) (record { rows = t.rows; unique = t.unique })
      | inr (start, old) ↦ rw (old, sustained) t
    ]

clear_levels-IsTracked :
    (vps_id domain : Text) (level : CertLevel) (e : Engine)
    → Plain vps_id
    → IsTracked e
    → IsTracked (clear_levels vps_id domain level e)
unfolding clear_levels
clear_levels-IsTracked vps_id domain level e p t =
    let t1 = pick (level_name warn) warn t in
    let t2 = pick (level_name crit) crit t1 in pick (level_name expired) expired t2
  where
    pick :
        (name : Text) (l : CertLevel) {f : Engine}
        → IsTracked f
        → IsTracked (
            if text_eq name (level_name level)
            then f
            else clear vps_id cert_expiring (cert_key domain l) f)
    pick name l {f} u =
        if-IsTracked _ u (clear-IsTracked vps_id cert_expiring _ f p (omega arith) u)

module _ (new_id : ℕ → Text) (date_text : Time → Text) (now : Time) (vps : Vps)
    (p : Plain vps.id) where
  check_metric-IsTracked :
      (metric kind label : Text) (level : Level) (value : ℤ) (e : Engine)
      → Plain kind
      → IsTracked e
      → IsTracked (check_metric new_id date_text now metric kind label level value vps e)
  unfolding check_metric
  check_metric-IsTracked metric kind label level value e k t =
      let held = sustained-IsTracked now vps.id metric (leb_ℤ level.high value) e t in
      if-IsTracked _ (fire-IsTracked new_id now vps kind _ _ _ _ p k held)
        (if-IsTracked _ (clear-IsTracked vps.id kind [] _ p k held) held)

  check_disks-IsTracked :
      (level : Level) (disks : List Disk) (e : Engine)
      → IsTracked e
      → IsTracked (check_disks new_id date_text now level vps disks e)
  unfolding check_disks
  check_disks-IsTracked level [] e t = t
  check_disks-IsTracked level (d ∷ disks) e t = check_disks-IsTracked level disks _ (
      if-IsTracked _ (fire-IsTracked new_id now vps disk_high _ _ _ e p (omega arith) t)
        (if-IsTracked _ (clear-IsTracked vps.id disk_high d.mount e p (omega arith) t) t))

  compare_container-IsTracked :
      (old c : Container) (e : Engine)
      → IsTracked e
      → IsTracked (compare_container new_id date_text now vps old c e)
  unfolding compare_container
  compare_container-IsTracked old c e t =
      let t1 =
        if-IsTracked
          (text_eq old.state (codes "running")
            && text_eq c.state (codes "exited")
            && not (leb_ℤ c.exit_code (pos 0) && leb_ℤ (pos 0) c.exit_code))
          (fire-IsTracked new_id now vps docker_crash critical c.id _ e p (omega arith) t) t in
      let t2 =
        if-IsTracked (ltb old.restart_count c.restart_count)
          (fire-IsTracked new_id now vps docker_crash _ _ _ _ p (omega arith) t1) t1 in
      if-IsTracked _
        (clear-IsTracked vps.id docker_crash _ _ p (omega arith)
          (clear-IsTracked vps.id docker_crash c.id _ p (omega arith) t2))
        t2

  check_container-IsTracked :
      (prev : Option (Map Container)) (c : Container) (e : Engine)
      → IsTracked e
      → IsTracked (check_container new_id date_text now vps prev c e)
  unfolding check_container
  check_container-IsTracked none c e t = t
  check_container-IsTracked (some m) c e t = elim (Option-cases (lookup c.id m)) [
    | inl new ↦ rw (new, check_container) t
    | inr (old, seen) ↦ rw (seen, check_container) (compare_container-IsTracked old c e t)
  ]

  check_containers-IsTracked :
      (prev : Option (Map Container)) (cs : List Container) (cur : Map Container) (e : Engine)
      → IsTracked e
      → IsTracked (check_containers new_id date_text now vps prev cs cur e)
  unfolding check_containers
  check_containers-IsTracked prev [] cur e t = record { rows = t.rows; unique = t.unique }
  check_containers-IsTracked prev (c ∷ cs) cur e t =
      check_containers-IsTracked prev cs _ _ (check_container-IsTracked prev c e t)

  check_proxy-IsTracked :
      (provider last_error : Text) (e : Engine)
      → IsTracked e
      → IsTracked (check_proxy new_id date_text now vps provider last_error e)
  unfolding check_proxy
  check_proxy-IsTracked provider last_error e t =
      let f = clear-IsTracked vps.id proxy_error (codes "down") e p (omega arith) t in
      if-IsTracked _ t (
        if-IsTracked _ (clear-IsTracked vps.id proxy_error _ _ p (omega arith) f)
          (fire-IsTracked new_id now vps proxy_error _ _ _ _ p (omega arith) f))

  check_cert-IsTracked :
      (domain : Text) (end : Time) (e : Engine)
      → IsTracked e
      → IsTracked (check_cert new_id date_text now vps domain end e)
  unfolding check_cert settle_cert
  check_cert-IsTracked domain end e t =
      let f = clear_levels-IsTracked vps.id domain (cert_level end now) e p t in
      if-IsTracked _ f (fire-IsTracked new_id now vps cert_expiring _ _ _ _ p (omega arith) f)

  check_sites-IsTracked :
      (sites : List Site) (seen : Map Bool) (e : Engine)
      → IsTracked e
      → IsTracked (check_sites new_id date_text now vps sites seen e).1
  unfolding check_sites
  check_sites-IsTracked [] seen e t = t
  check_sites-IsTracked (s ∷ sites) seen e t =
      elim (Option-cases (if is_empty s.domain then none else s.cert_not_after)) [
        | inl unusable ↦ rw (unusable, check_sites) (check_sites-IsTracked sites seen e t)
        | inr (end, usable) ↦
            rw (usable, check_sites)
              (check_sites-IsTracked sites _ _ (check_cert-IsTracked s.domain end e t))
      ]

  drop_certs-IsTracked :
      (seen hosts : Map Bool) (e : Engine)
      → IsTracked e
      → IsTracked (drop_certs new_id date_text now vps.id seen hosts e)
  unfolding drop_certs
  drop_certs-IsTracked seen [] e t = t
  drop_certs-IsTracked seen ((d, b) ∷ hosts) e t =
      drop_certs-IsTracked seen hosts _
        (if-IsTracked (has d seen) t (clear_levels-IsTracked vps.id d good e p t))

  -- A snapshot, whatever it holds, keeps the alerts tracked: every open row belongs to an active
  -- condition, and no condition has two open rows. The server's identifier has no "|".
  pub evaluate_snapshot-IsTracked :
      (snap : Snapshot) (e : Engine)
      → IsTracked e
      → IsTracked (evaluate_snapshot new_id date_text now vps snap e)
  unfolding evaluate_snapshot drop_service_alerts evaluate_certs
  evaluate_snapshot-IsTracked snap e t =
      let t1 =
        check_metric-IsTracked _ cpu_high _ (effective vps).cpu snap.cpu_percent e (omega arith)
          t in
      let t2 =
        check_metric-IsTracked _ mem_high _ (effective vps).mem snap.mem_percent _ (omega arith)
          t1 in
      let t3 = check_disks-IsTracked (effective vps).disk snap.disks _ t2 in
      let t4 = check_containers-IsTracked (lookup vps.id _) snap.containers [] _ t3 in
      let t5 = drop_rows-IsTracked vps.id service_down [] _ t4 in
      let t6 =
        check_proxy-IsTracked snap.provider snap.last_error _
          (record { rows = t5.rows; unique = t5.unique }) in
      let t7 = check_sites-IsTracked snap.sites [] _ t6 in
      let t8 = drop_certs-IsTracked _ _ _ t7 in record { rows = t8.rows; unique = t8.unique }
