-- ===== src/Merge/Agree.antt =====
-- The registry and the snapshots say the same of a server (`mergeSnapshot`,
-- backend/snapshot_merge.go): they used to differ, and what the panel showed flickered between them.
use beacle.Prelude.{
  ℕ, Text, text_eq, text_eq_refl, lookup, insert, lookup-insert, Time, false, List, [], ◌∷◌, ◌++◌,
  some, ◌≡◌, refl, sym, ap, ◌∙◌, subst, arith,
}
use beacle.Registry.{Entry, touch}
use beacle.Registry.Servers.{set_server, set_snapshot}
use beacle.Registry.Invariant.{IsValid, entry_id, lookup-Filed}
use beacle.Alerts.{Snapshot}
use beacle.Alerts.Evaluate.Untouched.{evaluate_snapshot-SameServers}
use beacle.Merge.{
  World, merge_snapshot, merged_into, stamped, frame_entry, status_of, base_snapshot,
}
use beacle.Merge.Keeps.{merge_snapshot-known}

-- What a frame has made of the server `id`, and has left of the others.
pub record IsShown (now : Time) (id : Text) (w m : World) : Type 0 where
  pub entry : Entry
  pub snap : Snapshot
  pub filed : lookup id m.engine.store.state.servers ≡ some entry
  pub stored : lookup id m.engine.store.snapshots ≡ some snap
  pub agree : snap.vps ≡ entry.vps
  pub seen : entry.vps.last_seen ≡ now
  pub sent : m.updates ≡ w.updates ++ (snap ∷ [])
  pub other_servers :
      (v : Text)
      → text_eq id v ≡ false
      → lookup v m.engine.store.state.servers ≡ lookup v w.engine.store.state.servers
  pub other_snapshots :
      (v : Text)
      → text_eq id v ≡ false
      → lookup v m.engine.store.snapshots ≡ lookup v w.engine.store.snapshots

module _ {V : Type 0} where
  lookup-own : (k : Text) (v : V) (m : List (Text × V)) → lookup k (insert k v m) ≡ some v
  lookup-own k v m = ground (arith, lookup-insert k k v m, text_eq_refl k)

  lookup-other :
      (k j : Text) (v : V) (m : List (Text × V))
      → text_eq k j ≡ false
      → lookup j (insert k v m) ≡ lookup j m
  lookup-other k j v m other = ground (arith, lookup-insert k j v m)

module _ (new_id : ℕ → Text) (date_text : Time → Text) (now : Time) (id : Text) (w : World) where
  -- For the entry that the update has filed.
  merged_into-IsShown :
      (after : Entry) (copy : Snapshot)
      → entry_id after ≡ id
      → after.vps.last_seen ≡ now
      → IsShown now id w (
          merged_into new_id date_text now after copy
            (touch (set_server id after w.engine.store))
            w)
  unfolding merged_into set_server touch set_snapshot stamped
  merged_into-IsShown after copy own now_seen =
      let snap = stamped now after copy in
      let store = touch (set_server id after w.engine.store) in
      let stored = set_snapshot after.vps.id snap store in
      let same =
        evaluate_snapshot-SameServers stored new_id date_text now after.vps snap
          (record (w.engine) { store = stored }) (record { servers = refl; snapshots = refl }) in
      record {
        entry = after;
        snap = snap;
        filed = ap (lookup id) same.servers ∙ lookup-own id after w.engine.store.state.servers;
        stored =
            ap (lookup id) same.snapshots
            ∙ subst (λ k. lookup id (insert k snap w.engine.store.snapshots) ≡ some snap) (sym own)
                (lookup-own id snap w.engine.store.snapshots);
        agree = refl;
        seen = now_seen;
        sent = refl;
        other_servers = λ v h. ap (lookup v) same.servers ∙ lookup-other id v after _ h;
        other_snapshots = λ v h.
            ap (lookup v) same.snapshots
            ∙ subst
                (λ k.
                  lookup v (insert k snap w.engine.store.snapshots)
                  ≡ lookup v w.engine.store.snapshots)
                (sym own) (lookup-other id v snap _ h);
      }

  -- A frame of a known server, where the registry is valid: the server's entry and its snapshot show
  -- the same record, which was last seen now; of the snapshots, that one alone is broadcast, once;
  -- the other servers keep their entries and their snapshots.
  pub merge_snapshot-IsShown :
      (ver : Text) (change : Snapshot → Snapshot) (e : Entry)
      → IsValid w.engine.store.state
      → lookup id w.engine.store.state.servers ≡ some e
      → IsShown now id w (merge_snapshot new_id date_text now id ver change w)
  unfolding frame_entry
  merge_snapshot-IsShown ver change e v here =
      let copy = change (base_snapshot id w.engine.store) in
      subst (IsShown now id w)
        (sym (merge_snapshot-known new_id date_text now id ver change w e here))
        (merged_into-IsShown (frame_entry now ver (status_of copy) e) copy
          (lookup-Filed entry_id id e _ v.servers_filed here) refl)
