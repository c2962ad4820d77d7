-- ===== src/Merge/Keeps.antt =====
-- What a frame leaves in order, whatever it brings (`mergeSnapshot`, backend/snapshot_merge.go).
use beacle.Prelude.{
  ℕ, ◌==◌, Text, lookup, Time, Bool, true, false, Option, none, some, if◌then◌else◌, Option-cases,
  inl, inr, ◌≡◌, refl, sym, ap, subst,
}
use beacle.Models.{Status}
use beacle.Registry.{Store, Entry, touch}
use beacle.Registry.Servers.{update_vps, set_server, set_snapshot}
use beacle.Registry.Invariant.{IsValid, entry_id, lookup-Filed}
use beacle.Alerts.{Snapshot}
use beacle.Alerts.Keys.{Plain}
use beacle.Alerts.Tracking.{IsTracked}
use beacle.Alerts.Evaluate.Keeps.{evaluate_snapshot-IsTracked}
use beacle.History.{History}
use beacle.History.Invariant.{HistoryIsValid, record_sample-IsValid}
use beacle.Merge.{
  stamped, merge_updated, World, merge_snapshot, merged_into, frame_entry, status_of, base_snapshot,
  recorded, sample_from,
}

-- The history, where the backend keeps one.
abbrev pub RecordIsValid : Option History → Type 0
RecordIsValid none = Unit
RecordIsValid (some h) = HistoryIsValid h

if-valid :
    (b : Bool) (h g : Option History)
    → RecordIsValid h
    → RecordIsValid g
    → RecordIsValid (if b then h else g)
if-valid true h g v u = v
if-valid false h g v u = u

recorded-IsValid :
    (now : Time) (vps_id : Text) (s : Snapshot) (h : Option History)
    → RecordIsValid h
    → RecordIsValid (recorded now vps_id s h)
unfolding recorded
recorded-IsValid now vps_id s none v = tt
recorded-IsValid now vps_id s (some h) v =
    if-valid (s.collected_at == 0) _ _ v (record_sample-IsValid vps_id (sample_from now s) h v)

pub id-frame_entry :
    (now : Time) (ver : Text) (status : Status) (e : Entry)
    → entry_id (frame_entry now ver status e) ≡ entry_id e
unfolding frame_entry
id-frame_entry now ver status e = refl

update_vps-known :
    (id : Text) (f : Entry → Entry) (s : Store Snapshot) (e : Entry)
    → lookup id s.state.servers ≡ some e
    → update_vps id f s ≡ (some (f e), touch (set_server id (f e) s))
unfolding update_vps
update_vps-known id f s e here = rw (here, update_vps) refl

update_vps-gone :
    (id : Text) (f : Entry → Entry) (s : Store Snapshot)
    → lookup id s.state.servers ≡ none
    → update_vps id f s ≡ (none, s)
unfolding update_vps
update_vps-gone id f s gone = rw (gone, update_vps) refl

module _ (new_id : ℕ → Text) (date_text : Time → Text) (now : Time) where
  merged_into-IsTracked :
      (e : Entry) (copy : Snapshot) (store : Store Snapshot) (w : World)
      → Plain e.vps.id
      → store.state.alerts ≡ w.engine.store.state.alerts
      → IsTracked w.engine
      → IsTracked (merged_into new_id date_text now e copy store w).engine
  unfolding merged_into set_snapshot
  merged_into-IsTracked e copy store w p same t =
      evaluate_snapshot-IsTracked new_id date_text now e.vps p _ _
        (record { rows = rw same t.rows; unique = rw same t.unique })

  module _ (id ver : Text) (change : Snapshot → Snapshot) (w : World) where
    -- A frame of a server that was deleted meanwhile changes nothing.
    merge_snapshot-gone :
        lookup id w.engine.store.state.servers ≡ none
        → merge_snapshot new_id date_text now id ver change w ≡ w
    unfolding merge_snapshot merge_updated
    merge_snapshot-gone gone =
        ap (λ u. merge_updated new_id date_text now (change (base_snapshot id w.engine.store)) u w)
          (update_vps-gone id _ w.engine.store gone)

    -- What a frame of a known server leads to.
    pub merge_snapshot-known :
        (e : Entry)
        → lookup id w.engine.store.state.servers ≡ some e
        → let copy = change (base_snapshot id w.engine.store) in
          let after = frame_entry now ver (status_of copy) e in
          merge_snapshot new_id date_text now id ver change w
          ≡ merged_into new_id date_text now after copy
              (touch (set_server id after w.engine.store))
              w
    unfolding merge_snapshot merge_updated
    merge_snapshot-known e here =
        let copy = change (base_snapshot id w.engine.store) in
        ap (λ u. merge_updated new_id date_text now copy u w)
          (update_vps-known id (frame_entry now ver (status_of copy)) w.engine.store e here)

    -- Whatever a frame brings, the alerts stay tracked (every open row belongs to an active
    -- condition, and no condition has two open rows), and the history, where there is one, stays
    -- valid. The registry is valid, and the server's identifier has no "|".
    pub merge_snapshot-IsValid :
        Plain id
        → IsValid w.engine.store.state
        → IsTracked w.engine
        → RecordIsValid w.history
        → IsTracked (merge_snapshot new_id date_text now id ver change w).engine
          × RecordIsValid (merge_snapshot new_id date_text now id ver change w).history
    unfolding merged_into touch set_server frame_entry
    merge_snapshot-IsValid p v t h = elim (Option-cases (lookup id w.engine.store.state.servers)) [
      | inl gone ↦ rw (merge_snapshot-gone gone) (t, h)
      | inr (e, here) ↦
          let copy = change (base_snapshot id w.engine.store) in
          let after = frame_entry now ver (status_of copy) e in
          let own : entry_id e ≡ id = lookup-Filed entry_id id e _ v.servers_filed here in
          rw (merge_snapshot-known e here) (
            merged_into-IsTracked after copy (touch (set_server id after w.engine.store)) w
                (subst Plain (sym own) p) refl t,
            recorded-IsValid now e.vps.id (stamped now after copy) w.history h,
          )
    ]
