-- ===== src/Registry/AlertRows.antt =====
-- The operations of the store on the alert rows and the action log (backend/store.go, lines
-- 625-738). The slice filtered in place is a fresh list here: no other slice shares its array.
use beacle.Prelude.{
  ℕ, ◌-◌, Text, Time, ltb, Bool, true, false, not, ◌||◌, List, [], ◌∷◌, ◌++◌, length, drop, filter,
  if◌then◌else◌, text_eq, is_nil,
}
use beacle.Models.{Alert, ActionLog}
use beacle.Registry.{Store, persist}

abbrev pub max_alerts : ℕ
max_alerts = 500

abbrev pub max_actions : ℕ
max_actions = 300

-- `xs[len(xs)-n:]` where the list is longer than `n`.
unfoldable pub newest {ℓ} : {A : Type ℓ} → ℕ → List A → List A
newest n xs = if ltb n (length xs) then drop (length xs - n) xs else xs

-- The row is open and belongs to the condition.
unfoldable pub open_for : Text → Text → Text → Alert → Bool
open_for vps_id kind key a = not (
    a.resolved
    || not (text_eq a.vps_id vps_id)
    || not (text_eq a.kind kind)
    || not (text_eq a.key key))

-- The rows that the loop of `ResolveAlertsFor` collects, flagged as resolved.
unfoldable pub resolve_rows : (Alert → Bool) → List Alert → List Alert
resolve_rows p [] = []
resolve_rows p (a ∷ as') =
    if p a then record a { resolved = true } ∷ resolve_rows p as' else resolve_rows p as'

-- The list less its first row with this identifier, if it has one.
unfoldable pub remove_first : Text → List Alert → List Alert
remove_first id [] = []
remove_first id (a ∷ as') = if text_eq a.id id then as' else a ∷ remove_first id as'

unfoldable pub has_row : Text → List Alert → Bool
has_row id [] = false
has_row id (a ∷ as') = text_eq a.id id || has_row id as'

module _ {Snapshot : Type 0} where
  unfoldable pub set_alerts : List Alert → Store Snapshot → Store Snapshot
  set_alerts rows s = record s { state = record (s.state) { alerts = rows } }

  -- `AddAlert`
  unfoldable pub add_alert : Text → Time → Alert → Store Snapshot → Alert × Store Snapshot
  unfolding set_alerts newest
  add_alert id now a s =
      let row = record a { id = id; created_at = now } in
      (row, persist (set_alerts (newest max_alerts (s.state.alerts ++ (row ∷ []))) s))

  -- `ResolveAlertsFor`
  unfoldable pub resolve_alerts_for :
      Text → Text → Text → Store Snapshot → List Alert × Store Snapshot
  unfolding set_alerts
  resolve_alerts_for vps_id kind key s =
      let changed = resolve_rows (open_for vps_id kind key) s.state.alerts in
      let kept = filter (λ a. not (open_for vps_id kind key a)) s.state.alerts in
      (changed, if is_nil changed then s else persist (set_alerts kept s))

  -- `PurgeResolvedAlerts`
  unfoldable pub purge_resolved_alerts : Store Snapshot → ℕ × Store Snapshot
  unfolding set_alerts
  purge_resolved_alerts s =
      let kept = filter (λ a. not a.resolved) s.state.alerts in
      let removed = length s.state.alerts - length kept in
      (removed, if ltb 0 removed then persist (set_alerts kept s) else s)

  -- `ResolveAlert`
  unfoldable pub resolve_alert : Text → Store Snapshot → Bool × Store Snapshot
  unfolding set_alerts remove_first has_row
  resolve_alert id s =
      if has_row id s.state.alerts
      then (true, persist (set_alerts (remove_first id s.state.alerts) s))
      else (false, s)

  -- `ListAlerts`
  unfoldable pub list_alerts : Store Snapshot → List Alert
  list_alerts s = s.state.alerts

  -- `AddAction`
  unfoldable pub add_action : Text → Time → ActionLog → Store Snapshot → ActionLog × Store Snapshot
  unfolding newest
  add_action id now a s =
      let row = record a { id = id; created_at = now } in
      let state = record (s.state) {
        actions = newest max_actions (s.state.actions ++ (row ∷ []));
      } in
      (row, persist (record s { state = state }))

  -- `ListActions`
  unfoldable pub list_actions : Store Snapshot → List ActionLog
  list_actions s = s.state.actions
