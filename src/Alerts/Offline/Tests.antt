-- ===== src/Alerts/Offline/Tests.antt =====
-- Concrete engines on which the properties of the offline sweep apply.
use beacle.Prelude.{
  ◌<◌, ◌*◌, codes, lookup, true, false, sort, sort_insert, ◌≡◌, arith, text_eq, second, since,
}
use beacle.Models.{status_eq, online, pending}
use beacle.Registry.Servers.{list_vps, restart_marker, update_vps, clear_snapshot, get_vps}
use beacle.Alerts.{active_key, is_active, fire, clear}
use beacle.Alerts.Tracking.{IsTracked}
use beacle.Alerts.Offline.{
  is_live, sweep_one, sweep_offline, sweep_silent, holding_marker, raise_silent, set_status,
  host_reachable, reachable_from, probe_host, probe_entry, to_status, offline_after,
}
use beacle.Alerts.Offline.Keeps.{sweep_offline-IsTracked}
use beacle.Alerts.Offline.Held.{explained, sweep_one_raises}
use beacle.Alerts.Samples.{vps, store, engine, ids, dark, engine-IsTracked}

sweep_offline-IsTracked_example : IsTracked (sweep_offline ids (99 * second) dark engine)
unfolding list_vps sort sort_insert
sweep_offline-IsTracked_example =
    sweep_offline-IsTracked ids (99 * second) dark engine (ground arith) engine-IsTracked

sweep_one_raises_example :
    (true ≡ true)
    × (status_eq online pending ≡ false)
    × (is_live ids (99 * second) dark vps ≡ false)
    × (offline_after < since (99 * second) (10 * second))
    × (explained (99 * second) (restart_marker (codes "a1") store) ≡ false)
unfolding sweep_one sweep_silent holding_marker raise_silent set_status host_reachable
    reachable_from probe_host probe_entry to_status is_live restart_marker lookup text_eq status_eq
    update_vps clear_snapshot get_vps fire clear is_active active_key
sweep_one_raises_example =
    sweep_one_raises ids (99 * second) dark true vps engine (λ same. ground arith)
