-- ===== src/Alerts/Tests.antt =====
-- Concrete engines on which the properties of the alerts apply, and runs of their operations.
use beacle.Prelude.{◌*◌, codes, lookup, insert, true, [], ◌∷◌, ◌≡◌, refl, arith, text_eq, second}
use beacle.Levels.{effective, HasHysteresis, effective_hysteresis}
use beacle.Alerts.Tracking.{IsTracked}
use beacle.Alerts.Evaluate.{
  sustained, warn, cert_level, level_name, check_cert, evaluate_snapshot, day,
}
use beacle.Alerts.Evaluate.Keeps.{evaluate_snapshot-IsTracked}
use beacle.Alerts.Evaluate.Sustained.{replay, is_sustained, sustained_iff_run}
use beacle.Alerts.Evaluate.Certs.{level_active, check_cert_exclusive}
use beacle.Alerts.{active_key}
use beacle.Alerts.Startup.{take_on, new_engine}
use beacle.Alerts.Startup.Tracked.{new_engine-IsTracked}
use beacle.Registry.AlertRows.{purge_resolved_alerts}
use beacle.Alerts.Samples.{store, vps, engine, ids, dates, hot, engine-IsTracked}

effective_hysteresis_example :
    let e = effective vps in HasHysteresis e.cpu × HasHysteresis e.mem × HasHysteresis e.disk
effective_hysteresis_example = effective_hysteresis vps

evaluate_snapshot-IsTracked_example :
    IsTracked (evaluate_snapshot ids dates (3 * day) vps hot engine)
evaluate_snapshot-IsTracked_example =
    evaluate_snapshot-IsTracked ids dates (3 * day) vps (ground arith) hot engine engine-IsTracked

sustained_iff_run_example :
    (sustained
      (14 * second)
      (codes "a1")
      (codes "cpu")
      true
      (replay (codes "a1") (codes "cpu") ((8 * second, true) ∷ (4 * second, true) ∷ []) engine)).0
    ≡ is_sustained (14 * second) true ((8 * second, true) ∷ (4 * second, true) ∷ [])
unfolding lookup
sustained_iff_run_example =
    sustained_iff_run (codes "a1") (codes "cpu") (14 * second) true
      ((8 * second, true) ∷ (4 * second, true) ∷ []) engine refl

check_cert_exclusive_example :
    level_active
      (codes "a1")
      (codes "x.io")
      warn
      (check_cert ids dates (3 * day) vps (codes "x.io") (10 * day) engine)
    ≡ text_eq (level_name (cert_level (10 * day) (3 * day))) (codes "warn")
check_cert_exclusive_example =
    check_cert_exclusive ids dates (3 * day) vps (codes "x.io") (10 * day) warn engine
      (λ same. ground arith)

new_engine-IsTracked_example : IsTracked (new_engine day engine.net store)
new_engine-IsTracked_example =
    new_engine-IsTracked day engine.net store ((ground arith, ground arith), tt) (tt, tt)
      (λ r. refl, tt)

adopted : (new_engine day engine.net store).active ≡ (codes "a1|cpu_high|", true) ∷ []
unfolding new_engine take_on purge_resolved_alerts insert text_eq active_key
adopted = refl
