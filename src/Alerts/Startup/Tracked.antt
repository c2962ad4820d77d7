-- ===== src/Alerts/Startup/Tracked.antt =====
-- Every open alert of the store is an active condition of a new engine (`NewAlertEngine`,
-- backend/alerts.go, lines 128-147).
use beacle.Prelude.{
  text_eq, text_eq_refl, Map, insert, Time, Bool, true, not, ◌&&◌, List, [], ◌∷◌, All, All-filter,
  filter, length, ltb, ◌-◌, ◌≡◌, ◌⊎◌, sym, ap, subst, arith, Bool-cases, inl, inr,
}
use mathlib.Core.List.Memᴰ
use mathlib.Core.List.{Memᴰ}
use beacle.Models.{Alert}
use beacle.Registry.{Store, state-persist}
use beacle.Registry.AlertRows.{remove_first, resolve_alert, purge_resolved_alerts, set_alerts}
use beacle.Alerts.{Snapshot, LocalNet, active_key, service_down}
use beacle.Alerts.Keys.{Plain, is_active-insert}
use beacle.Alerts.Tracking.{RowIsTracked, RowIsTracked-insert, Unique, Unique-filter, IsTracked}
use beacle.Alerts.Startup.{take_on, new_engine}
use beacle.Alerts.Startup.Rows.{
  OwnIds, Unique-remove_first, OwnIds-remove_first, OwnIds-filter, alerts-resolve_alert,
  others_left, member_left, of_member, from_members,
}

-- Each row of the store is tracked, or still to be looked at.
abbrev InHand : Map Bool → List Alert → List Alert → Type 0
InHand active coming rows = (r : Alert) → Memᴰ r rows → RowIsTracked active r ⊎ Memᴰ r coming

abbrev pub PlainRow : Alert → Type 0
PlainRow a = Plain a.vps_id × Plain a.kind

-- A row that is passed over is resolved, or is gone from the store.
pass :
    (active : Map Bool) (a : Alert) (coming rows : List Alert)
    → ((r : Alert) → Memᴰ r rows → r ≡ a → RowIsTracked active r)
    → InHand active (a ∷ coming) rows
    → InHand active coming rows
pass active a coming rows f h r m = elim (h r m) [
  | inl t ↦ inl t
  | inr (Memᴰ.head e) ↦ inl (f r m e)
  | inr (Memᴰ.tail n) ↦ inr n
]

drop_stale :
    (active : Map Bool) (a : Alert) (coming rows : List Alert)
    → OwnIds rows
    → InHand active (a ∷ coming) rows
    → InHand active coming (remove_first a.id rows)
drop_stale active a coming rows u h =
    pass active a coming (remove_first a.id rows) (λ r m e. absurd (clash r m e))
      (λ r m. h r (member_left a.id r rows m))
  where
    clash : (r : Alert) → Memᴰ r (remove_first a.id rows) → r ≡ a → ⊥
    clash r m e =
        let other = of_member _ r (remove_first a.id rows) (others_left a.id rows u) m in
        let same = ap (λ (q : Alert). text_eq q.id a.id) e in
        ground (arith, text_eq_refl a.id, other, same)

keep_open :
    (active : Map Bool) (a : Alert) (coming rows : List Alert)
    → PlainRow a
    → InHand active (a ∷ coming) rows
    → InHand (insert (active_key a.vps_id a.kind a.key) true active) coming rows
keep_open active a coming rows p h =
    let id = active_key a.vps_id a.kind a.key in
    pass (insert id true active) a coming rows
      (λ r m e. subst (RowIsTracked (insert id true active)) (sym e) (record {
        plain_vps = p.0;
        plain_kind = p.1;
        tracked = λ q. ground (arith, is_active-insert id id active, text_eq_refl id);
      }))
      (λ r m. elim (h r m) [
        | inl t ↦ inl ((RowIsTracked-insert id active (r ∷ []) (t, tt)).0)
        | inr n ↦ inr n
      ])

take_on-tracked :
    (rows : List Alert) (s : Store Snapshot) (active : Map Bool)
    → All PlainRow rows
    → OwnIds s.state.alerts
    → InHand active rows s.state.alerts
    → (r : Alert) → Memᴰ r (take_on rows s active).0.state.alerts
    → RowIsTracked (take_on rows s active).1 r
unfolding take_on
take_on-tracked [] s active p u h =
    λ r m. elim (h r m) [ inl t ↦ t | inr n ↦ absurd (Memᴰ.not-nil n) ]
take_on-tracked (a ∷ rows) s active p u h =
    elim (Bool-cases (text_eq a.kind service_down && not a.resolved)) [
      | inl stale ↦
          let left = alerts-resolve_alert a.id s in
          rw (stale, take_on)
            (take_on-tracked rows (resolve_alert a.id s).1 active p.1
              (subst OwnIds (sym left) (OwnIds-remove_first a.id s.state.alerts u))
              (subst (InHand active rows) (sym left) (drop_stale active a rows s.state.alerts u h)))
      | inr fresh ↦ elim (Bool-cases a.resolved) [
        | inl over ↦
            rw (fresh, over, take_on)
              (take_on-tracked rows s active p.1 u (
                pass active a rows s.state.alerts
                  (λ r m e. subst (RowIsTracked active) (sym e) (record {
                    plain_vps = p.0.0;
                    plain_kind = p.0.1;
                    tracked = λ q. ground (arith, q, over);
                  }))
                  h))
        | inr still ↦
            rw (fresh, still, take_on)
              (take_on-tracked rows s _ p.1 u (keep_open active a rows s.state.alerts p.0 h))
      ]
    ]

take_on-Unique :
    (rows : List Alert) (s : Store Snapshot) (active : Map Bool)
    → Unique s.state.alerts
    → Unique (take_on rows s active).0.state.alerts
unfolding take_on
take_on-Unique [] s active u = u
take_on-Unique (a ∷ rows) s active u =
    elim (Bool-cases (text_eq a.kind service_down && not a.resolved)) [
      | inl stale ↦
          rw (stale, take_on)
            (take_on-Unique rows (resolve_alert a.id s).1 active (
              subst Unique (sym (alerts-resolve_alert a.id s))
                (Unique-remove_first a.id s.state.alerts u)))
      | inr fresh ↦ rw (fresh, take_on) (take_on-Unique rows s _ u)
    ]

-- What holds of the rows and of any part of them holds after the purge.
purged :
    (P : List Alert → Type 0) (s : Store Snapshot)
    → P s.state.alerts
    → P (filter (λ a. not a.resolved) s.state.alerts)
    → P (purge_resolved_alerts s).1.state.alerts
unfolding purge_resolved_alerts set_alerts
purged P s h k =
    elim (Bool-cases (
      ltb 0
        (length s.state.alerts - length (filter (λ (a : Alert). not a.resolved) s.state.alerts)))) [
          | inl some_gone ↦
              rw (some_gone, purge_resolved_alerts)
                (subst P (sym (ap (λ st. st.alerts) (state-persist _))) k)
          | inr none_gone ↦ rw (none_gone, purge_resolved_alerts) h
        ]

-- An engine that starts on a store tracks every alert that is open there: each belongs to an active
-- condition, and no condition has two. The rows of the store have identifiers of their own, no two
-- open ones are of one condition, and no server's identifier and no type has a "|".
pub new_engine-IsTracked :
    (now : Time) (net : LocalNet) (s : Store Snapshot)
    → All PlainRow s.state.alerts
    → OwnIds s.state.alerts
    → Unique s.state.alerts
    → IsTracked (new_engine now net s)
unfolding new_engine
new_engine-IsTracked now net s p o u =
    let start = (purge_resolved_alerts s).1 in
    let plain = purged (All PlainRow) s p (All-filter PlainRow _ s.state.alerts p) in
    let own = purged OwnIds s o (OwnIds-filter _ s.state.alerts o) in
    record {
      rows =
          from_members _ _ (take_on-tracked start.state.alerts start [] plain own (λ r m. inr m));
      unique =
          take_on-Unique start.state.alerts start []
            (purged Unique s u (Unique-filter _ s.state.alerts u));
    }
