-- ===== src/Merge.antt =====
-- A frame of an agent becomes part of its server's snapshot (backend/snapshot_merge.go; `SampleFrom`
-- of shared/sample.go; `statusFor` of backend/alerts.go). What a frame brings is a change of the
-- snapshot. The forecast of when a disk is full is left out, and nothing here reads it. A call reads
-- the clock once.
mod Keeps
mod Agree
mod Tests
use beacle.Prelude.{
  ℕ, ◌+◌, ◌-◌, ◌*◌, ◌/◌, ◌%◌, ◌^◌, suc, Text, is_empty, Map, insert, Time, ltb, ◌==◌, Bool, true,
  false, not, ◌||◌, List, [], ◌∷◌, ◌++◌, Option, none, some, if◌then◌else◌,
}
use beacle.Prelude.Ints.{ℤ, pos, negsuc, ltb_ℤ, leb_ℤ}
use beacle.Models.{Vps, Status, status_eq, online, high_load, pending}
use beacle.Registry.{Store, Entry, marker_status, marker_fresh}
use beacle.Registry.Servers.{update_vps, blank_vps, set_snapshot, get_snapshot}
use beacle.Alerts.{Snapshot, Disk, Interface, Engine}
use beacle.Alerts.Evaluate.{evaluate_snapshot}
use beacle.History.{Sample, History, record_sample}

-- The backend as a frame finds it, with the snapshots that it has broadcast.
pub record World : Type 0 where
  pub engine : Engine
  pub history : Option History
  pub updates : List Snapshot

-- `statusFor`, with `HighLoadCPUPercent` and `MemHighPercent`.
unfoldable pub status_for : Snapshot → Status
status_for s =
    if leb_ℤ (pos 7500) s.cpu_percent || leb_ℤ (pos 9000) s.mem_percent then high_load else online

-- The status that a snapshot shows: without metrics there is nothing to go by.
unfoldable pub status_of : Snapshot → Status
unfolding status_for
status_of s =
    if not (is_empty s.hostname) || ltb_ℤ (pos 0) s.cpu_percent then status_for s else online

-- The busiest disk.
worst_disk : ℤ → List Disk → ℤ
worst_disk worst [] = worst
worst_disk worst (d ∷ ds) =
    worst_disk (if ltb_ℤ worst d.used_percent then d.used_percent else worst) ds

-- `math.Round(x*10) / 10`, of hundredths: a half is rounded away from zero.
tenths : ℤ → ℤ
tenths (pos n) = pos ((n + 5) / 10 * 10)
tenths (negsuc n) = let m = (suc n + 5) / 10 * 10 in if m == 0 then pos 0 else negsuc (m - 1)

mounts_of : Map ℤ → List Disk → Map ℤ
unfolding tenths
mounts_of m [] = m
mounts_of m (d ∷ ds) = mounts_of (insert d.mount (tenths d.used_percent) m) ds

-- A sum of `uint64`.
total : (Interface → ℕ) → ℕ → List Interface → ℕ
total rate sum [] = sum
total rate sum (n ∷ ns) = total rate ((sum + rate n) % 2 ^ 64) ns

-- `SampleFrom`
unfoldable pub sample_from : Time → Snapshot → Sample
unfolding worst_disk mounts_of total
sample_from now s = record {
  at = if s.collected_at == 0 then now else s.collected_at;
  cpu = s.cpu_percent;
  mem = s.mem_percent;
  disk = worst_disk (pos 0) s.disks;
  rx_per_s = total (λ n. n.rx_per_sec) 0 s.network;
  tx_per_s = total (λ n. n.tx_per_sec) 0 s.network;
  load1 = s.load1;
  mounts = mounts_of [] s.disks;
  plugins = s.plugins;
}

-- `shared.VPSSnapshot{}`
unfoldable pub empty_snapshot : Snapshot
unfolding blank_vps
empty_snapshot = record {
  vps = record (blank_vps [] [] [] online 0 [] 0) { weight = 0 };
  cpu_percent = pos 0;
  mem_percent = pos 0;
  disks = [];
  containers = [];
  provider = [];
  last_error = [];
  sites = [];
  hostname = [];
  collected_at = 0;
  network = [];
  load1 = pos 0;
  plugins = [];
  updated = 0;
}

-- What the frame is merged into: the server's snapshot, or an empty one.
unfoldable pub base_snapshot : Text → Store Snapshot → Snapshot
unfolding get_snapshot empty_snapshot
base_snapshot id store = elim (get_snapshot id store) [ some snap ↦ snap | none ↦ empty_snapshot ]

-- What a frame makes of the entry of its server.
unfoldable pub frame_entry : Time → Text → Status → Entry → Entry
unfolding status_eq marker_fresh marker_status
frame_entry now agent_ver status e =
    let marked : Status = elim e.restart [
      | some m ↦ if marker_fresh now m then marker_status m else status
      | none ↦ status
    ] in
    record e {
      vps = record (e.vps) {
        last_seen = now;
        agent_ver = if is_empty agent_ver then e.vps.agent_ver else agent_ver;
        status = if status_eq e.vps.status pending then pending else marked;
      };
    }

unfoldable pub recorded : Time → Text → Snapshot → Option History → Option History
unfolding record_sample sample_from
recorded now vps_id s none = none
recorded now vps_id s (some h) =
    if s.collected_at == 0 then some h else some (record_sample vps_id (sample_from now s) h).1

-- The snapshot, as it is kept and shown.
unfoldable pub stamped : Time → Entry → Snapshot → Snapshot
stamped now e copy = record copy { vps = e.vps; updated = now }

module _ (new_id : ℕ → Text) (date_text : Time → Text) (now : Time) where
  -- What follows the update of the registry, of which `e` is the new entry.
  unfoldable pub merged_into : Entry → Snapshot → Store Snapshot → World → World
  unfolding set_snapshot recorded stamped
  merged_into e copy store w =
      let snap = stamped now e copy in
      let engine = record (w.engine) { store = set_snapshot e.vps.id snap store } in
      record {
        engine = evaluate_snapshot new_id date_text now e.vps snap engine;
        history = recorded now e.vps.id snap w.history;
        updates = w.updates ++ (snap ∷ []);
      }

  -- What comes of the update: nothing, when the server was deleted while the frame was in flight.
  unfoldable pub merge_updated : Snapshot → Option Entry × Store Snapshot → World → World
  merge_updated copy (some e, store) w = merged_into e copy store w
  merge_updated copy (none, store) w = w

  -- `mergeSnapshot`
  unfoldable pub merge_snapshot : Text → Text → (Snapshot → Snapshot) → World → World
  unfolding base_snapshot update_vps frame_entry status_of merge_updated
  merge_snapshot id agent_ver change w =
      let copy = change (base_snapshot id w.engine.store) in
      let status = status_of copy in
      merge_updated copy (update_vps id (frame_entry now agent_ver status) w.engine.store) w
