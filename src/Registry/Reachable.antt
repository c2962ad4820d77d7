-- ===== src/Registry/Reachable.antt =====
-- Every state that the store can reach is valid (backend/store.go). `Step` has one constructor for
-- each operation that changes the store; the premises on the functions that callers pass to
-- `UpdateVPS`, `UpdateVPSNow` and `UpdateLink` say that they leave the identifier alone.
use beacle.Prelude.{
  ℕ, Text, lookup, has, erase-Distinct, keep-Distinct, insert-Distinct, Time, Bool, [], ◌∷◌, ◌++◌,
  length, length-filter-le, Option, ◌≡◌, refl, sym, subst, ◌∙◌, arith, is_empty, is_nil, ltb,
  filter, not, ◌-◌, if◌then◌else◌, Bool-cases, Option-cases, inl, inr,
}
use native.Mathlib.Nat.{le_trans}
use beacle.Models.{Link, Alert, ActionLog}
use beacle.Registry.{Store, Entry, touch, flush}
use beacle.Registry.Servers.{
  find, same_machine, create_vps, create_wireguard_vps, auto_register_vps, adopt_vps, update_vps,
  update_vps_now, mark_restart, clear_restart, delete_vps, blank_vps, entry_of, clear_snapshot,
  set_snapshot,
}
use beacle.Registry.Links.{find_link, joins, create_link, update_link, delete_link}
use beacle.Registry.AlertRows.{
  max_alerts, max_actions, has_row, resolve_rows, open_for, add_alert, resolve_alerts_for,
  purge_resolved_alerts, resolve_alert, add_action,
}
use beacle.Registry.Invariant.{
  IsValid, entry_id, link_id, insert-Filed, erase-Filed, keep-Filed, lookup-Filed, length-newest,
  length-remove_first-le, persist-IsValid, set_server-IsValid, set_alerts-IsValid,
  set_links-IsValid,
}

module _ {Snapshot : Type 0} where
  create_vps-IsValid :
      (id : Text) (now : Time) (name ts ip : Text) (s : Store Snapshot)
      → IsValid s.state
      → IsValid (create_vps id now name ts ip s).1.state
  unfolding create_vps blank_vps entry_of
  create_vps-IsValid id now name ts ip s v =
      elim (Option-cases (find (same_machine ts ip) s.state.servers)) [
        | inl e ↦ rw (e, create_vps) (persist-IsValid _ (set_server-IsValid id _ s refl v))
        | inr (x, e) ↦ rw (e, create_vps) v
      ]

  adopt_vps-IsValid :
      (new_id new_token : Text) (now : Time) (id token name host ts version : Text)
      (s : Store Snapshot)
      → IsValid s.state
      → IsValid (adopt_vps new_id new_token now id token name host ts version s).1.state
  unfolding adopt_vps blank_vps entry_of
  adopt_vps-IsValid new_id new_token now id token name host ts version s v =
      elim (Option-cases (lookup (if is_empty id then new_id else id) s.state.servers)) [
        | inl e ↦ rw (e, adopt_vps) (persist-IsValid _ (set_server-IsValid _ _ s refl v))
        | inr (x, e) ↦ rw (e, adopt_vps) v
      ]

  update_vps-IsValid :
      (id : Text) (f : Entry → Entry) (s : Store Snapshot)
      → ((e : Entry) → entry_id (f e) ≡ entry_id e)
      → IsValid s.state
      → IsValid (update_vps id f s).1.state
  unfolding update_vps touch
  update_vps-IsValid id f s same v = elim (Option-cases (lookup id s.state.servers)) [
    | inl e ↦ rw (e, update_vps) v
    | inr (x, e) ↦
        rw (e, update_vps)
          (set_server-IsValid id (f x) s (same x ∙ lookup-Filed entry_id id x _ v.servers_filed e)
            v)
  ]

  update_vps_now-IsValid :
      (id : Text) (f : Entry → Entry) (s : Store Snapshot)
      → ((e : Entry) → entry_id (f e) ≡ entry_id e)
      → IsValid s.state
      → IsValid (update_vps_now id f s).1.state
  unfolding update_vps_now
  update_vps_now-IsValid id f s same v = elim (Option-cases (lookup id s.state.servers)) [
    | inl e ↦ rw (e, update_vps_now) v
    | inr (x, e) ↦
        rw (e, update_vps_now)
          (persist-IsValid _ (
            set_server-IsValid id (f x) s (same x ∙ lookup-Filed entry_id id x _ v.servers_filed e)
              v))
  ]

  mark_restart-IsValid :
      (now : Time) (id reason : Text) (restore : Bool) (s : Store Snapshot)
      → IsValid s.state
      → IsValid (mark_restart now id reason restore s).state
  unfolding mark_restart
  mark_restart-IsValid now id reason restore s v = elim (Option-cases (lookup id s.state.servers)) [
    | inl e ↦ rw (e, mark_restart) v
    | inr (x, e) ↦
        rw (e, mark_restart)
          (persist-IsValid _
            (set_server-IsValid id _ s (lookup-Filed entry_id id x _ v.servers_filed e) v))
  ]

  clear_restart-IsValid :
      (id : Text) (s : Store Snapshot) → IsValid s.state → IsValid (clear_restart id s).state
  unfolding clear_restart touch
  clear_restart-IsValid id s v = elim (Option-cases (lookup id s.state.servers)) [
    | inl e ↦ rw (e, clear_restart) v
    | inr (x, e) ↦
        rw (e, clear_restart)
          (set_server-IsValid id _ s (lookup-Filed entry_id id x _ v.servers_filed e) v)
  ]

  delete_vps-IsValid :
      (id : Text) (s : Store Snapshot) → IsValid s.state → IsValid (delete_vps id s).1.state
  unfolding delete_vps
  delete_vps-IsValid id s v = elim (Bool-cases (has id s.state.servers)) [
    | inl e ↦ rw e (
        persist-IsValid _ (record {
          servers_distinct = erase-Distinct id s.state.servers v.servers_distinct;
          servers_filed = erase-Filed entry_id id s.state.servers v.servers_filed;
          links_distinct = keep-Distinct _ s.state.links v.links_distinct;
          links_filed = keep-Filed link_id _ s.state.links v.links_filed;
          alerts_bounded = v.alerts_bounded;
          actions_bounded = v.actions_bounded;
        }))
    | inr e ↦ rw e v
  ]

  create_link-IsValid :
      (id a b : Text) (s : Store Snapshot)
      → IsValid s.state
      → IsValid (create_link id a b s).1.state
  unfolding create_link
  create_link-IsValid id a b s v = elim (Option-cases (find_link (joins a b) s.state.links)) [
    | inl e ↦
        rw (e, create_link)
          (persist-IsValid _ (
            set_links-IsValid _ s (insert-Distinct id _ _ v.links_distinct)
              (insert-Filed link_id id _ _ refl v.links_filed) v))
    | inr (x, e) ↦ rw (e, create_link) v
  ]

  update_link-IsValid :
      (id : Text) (f : Link → Link) (s : Store Snapshot)
      → ((l : Link) → link_id (f l) ≡ link_id l)
      → IsValid s.state
      → IsValid (update_link id f s).1.state
  unfolding update_link
  update_link-IsValid id f s same v = elim (Option-cases (lookup id s.state.links)) [
    | inl e ↦ rw (e, update_link) v
    | inr (x, e) ↦
        rw (e, update_link)
          (persist-IsValid _ (
            set_links-IsValid _ s (insert-Distinct id _ _ v.links_distinct)
              (insert-Filed link_id id _ _ (same x ∙ lookup-Filed link_id id x _ v.links_filed e)
                v.links_filed)
              v))
  ]

  delete_link-IsValid :
      (id : Text) (s : Store Snapshot) → IsValid s.state → IsValid (delete_link id s).1.state
  unfolding delete_link
  delete_link-IsValid id s v = elim (Bool-cases (has id s.state.links)) [
    | inl e ↦ rw e (
        persist-IsValid _ (
          set_links-IsValid _ s (erase-Distinct id _ v.links_distinct)
            (erase-Filed link_id id _ v.links_filed) v))
    | inr e ↦ rw e v
  ]

  add_alert-IsValid :
      (id : Text) (now : Time) (a : Alert) (s : Store Snapshot)
      → IsValid s.state
      → IsValid (add_alert id now a s).1.state
  unfolding add_alert
  add_alert-IsValid id now a s v = persist-IsValid _ (
      set_alerts-IsValid _ s
        (length-newest max_alerts (s.state.alerts ++ record a { id = id; created_at = now } ∷ []))
        v)

  resolve_alerts_for-IsValid :
      (id kind key : Text) (s : Store Snapshot)
      → IsValid s.state
      → IsValid (resolve_alerts_for id kind key s).1.state
  unfolding resolve_alerts_for
  resolve_alerts_for-IsValid id kind key s v =
      elim (Bool-cases (is_nil (resolve_rows (open_for id kind key) s.state.alerts))) [
        | inl e ↦ rw e v
        | inr e ↦ rw e (
            persist-IsValid _ (
              set_alerts-IsValid _ s (le_trans (length-filter-le _ s.state.alerts) v.alerts_bounded)
                v))
      ]

  purge_resolved_alerts-IsValid :
      (s : Store Snapshot) → IsValid s.state → IsValid (purge_resolved_alerts s).1.state
  unfolding purge_resolved_alerts
  purge_resolved_alerts-IsValid s v =
      elim (Bool-cases
        (ltb 0 (length s.state.alerts - length (filter (λ a. not a.resolved) s.state.alerts)))) [
          | inl e ↦ rw e (
              persist-IsValid _ (
                set_alerts-IsValid _ s
                  (le_trans (length-filter-le _ s.state.alerts) v.alerts_bounded) v))
          | inr e ↦ rw e v
        ]

  resolve_alert-IsValid :
      (id : Text) (s : Store Snapshot) → IsValid s.state → IsValid (resolve_alert id s).1.state
  unfolding resolve_alert
  resolve_alert-IsValid id s v = elim (Bool-cases (has_row id s.state.alerts)) [
    | inl e ↦ rw e (
        persist-IsValid _ (
          set_alerts-IsValid _ s
            (le_trans (length-remove_first-le id s.state.alerts) v.alerts_bounded) v))
    | inr e ↦ rw e v
  ]

  add_action-IsValid :
      (id : Text) (now : Time) (a : ActionLog) (s : Store Snapshot)
      → IsValid s.state
      → IsValid (add_action id now a s).1.state
  unfolding add_action
  add_action-IsValid id now a s v = persist-IsValid _ (record {
    servers_distinct = v.servers_distinct;
    servers_filed = v.servers_filed;
    links_distinct = v.links_distinct;
    links_filed = v.links_filed;
    alerts_bounded = v.alerts_bounded;
    actions_bounded =
        length-newest max_actions (s.state.actions ++ record a { id = id; created_at = now } ∷ []);
  })

-- One change of the store: an operation with any arguments, or the flush of a deferred write.
pub data Step {Snapshot : Type 0} : Store Snapshot → Store Snapshot → Type 0 where
  creates :
      (id : Text) (now : Time) (name ts ip : Text) (s : Store Snapshot)
      → Step s (create_vps id now name ts ip s).1
  creates_wireguard :
      (hosts : Text → Option Text) (id : Text) (now : Time)
      (name endpoint ip pub_key priv psk : Text) (s : Store Snapshot)
      → Step s (create_wireguard_vps hosts id now name endpoint ip pub_key priv psk s).1
  registers :
      (id token : Text) (now : Time) (hostname host : Text) (port : ℕ) (version : Text)
      (s : Store Snapshot)
      → Step s (auto_register_vps id token now hostname host port version s).1
  adopts :
      (new_id new_token : Text) (now : Time) (id token name host ts version : Text)
      (s : Store Snapshot)
      → Step s (adopt_vps new_id new_token now id token name host ts version s).1
  updates :
      (id : Text) (f : Entry → Entry) (s : Store Snapshot)
      → ((e : Entry) → entry_id (f e) ≡ entry_id e)
      → Step s (update_vps id f s).1
  updates_now :
      (id : Text) (f : Entry → Entry) (s : Store Snapshot)
      → ((e : Entry) → entry_id (f e) ≡ entry_id e)
      → Step s (update_vps_now id f s).1
  marks_restart :
      (now : Time) (id reason : Text) (restore : Bool) (s : Store Snapshot)
      → Step s (mark_restart now id reason restore s)
  clears_restart : (id : Text) (s : Store Snapshot) → Step s (clear_restart id s)
  deletes : (id : Text) (s : Store Snapshot) → Step s (delete_vps id s).1
  clears_snapshot : (id : Text) (s : Store Snapshot) → Step s (clear_snapshot id s)
  sets_snapshot :
      (id : Text) (snap : Snapshot) (s : Store Snapshot) → Step s (set_snapshot id snap s)
  creates_link : (id a b : Text) (s : Store Snapshot) → Step s (create_link id a b s).1
  updates_link :
      (id : Text) (f : Link → Link) (s : Store Snapshot)
      → ((l : Link) → link_id (f l) ≡ link_id l)
      → Step s (update_link id f s).1
  deletes_link : (id : Text) (s : Store Snapshot) → Step s (delete_link id s).1
  adds_alert :
      (id : Text) (now : Time) (a : Alert) (s : Store Snapshot) → Step s (add_alert id now a s).1
  resolves_alerts :
      (id kind key : Text) (s : Store Snapshot) → Step s (resolve_alerts_for id kind key s).1
  purges : (s : Store Snapshot) → Step s (purge_resolved_alerts s).1
  resolves_alert : (id : Text) (s : Store Snapshot) → Step s (resolve_alert id s).1
  adds_action :
      (id : Text) (now : Time) (a : ActionLog) (s : Store Snapshot)
      → Step s (add_action id now a s).1
  flushes : (s : Store Snapshot) → Step s (flush s)

-- The stores that a sequence of operations leads to.
pub data Reach {Snapshot : Type 0} (s : Store Snapshot) : Store Snapshot → Type 0 where
  here : Reach s s
  next : {t u : Store Snapshot} → Reach s t → Step t u → Reach s u

module _ {Snapshot : Type 0} where
  flush-state : (s : Store Snapshot) → (flush s).state ≡ s.state
  unfolding flush
  flush-state s = ground arith

  pub Step-IsValid : {s t : Store Snapshot} → Step s t → IsValid s.state → IsValid t.state
  unfolding create_wireguard_vps auto_register_vps clear_snapshot set_snapshot blank_vps entry_of
  Step-IsValid (creates id now name ts ip s) v = create_vps-IsValid id now name ts ip s v
  Step-IsValid (creates_wireguard hosts id now name endpoint ip k l psk s) v =
      persist-IsValid _ (set_server-IsValid id _ s refl v)
  Step-IsValid (registers id token now hostname host port version s) v =
      persist-IsValid _ (set_server-IsValid id _ s refl v)
  Step-IsValid (adopts new_id new_token now id token name host ts version s) v =
      adopt_vps-IsValid new_id new_token now id token name host ts version s v
  Step-IsValid (updates id f s same) v = update_vps-IsValid id f s same v
  Step-IsValid (updates_now id f s same) v = update_vps_now-IsValid id f s same v
  Step-IsValid (marks_restart now id reason restore s) v =
      mark_restart-IsValid now id reason restore s v
  Step-IsValid (clears_restart id s) v = clear_restart-IsValid id s v
  Step-IsValid (deletes id s) v = delete_vps-IsValid id s v
  Step-IsValid (clears_snapshot id s) v = v
  Step-IsValid (sets_snapshot id snap s) v = v
  Step-IsValid (creates_link id a b s) v = create_link-IsValid id a b s v
  Step-IsValid (updates_link id f s same) v = update_link-IsValid id f s same v
  Step-IsValid (deletes_link id s) v = delete_link-IsValid id s v
  Step-IsValid (adds_alert id now a s) v = add_alert-IsValid id now a s v
  Step-IsValid (resolves_alerts id kind key s) v = resolve_alerts_for-IsValid id kind key s v
  Step-IsValid (purges s) v = purge_resolved_alerts-IsValid s v
  Step-IsValid (resolves_alert id s) v = resolve_alert-IsValid id s v
  Step-IsValid (adds_action id now a s) v = add_action-IsValid id now a s v
  Step-IsValid (flushes s) v = subst IsValid (sym (flush-state s)) v

  -- From a valid store, every sequence of operations leads to a valid one: each server and each
  -- link is filed under its own identifier and only once, and there are at most 500 alert rows and
  -- 300 logged actions.
  pub Reach-IsValid : {s t : Store Snapshot} → Reach s t → IsValid s.state → IsValid t.state
  Reach-IsValid here v = v
  Reach-IsValid (next r st) v = Step-IsValid st (Reach-IsValid r v)
