-- ===== src/Alerts/Tracking.antt =====
-- The open rows of the store and the engine's map of active conditions (backend/alerts.go).
use beacle.Prelude.{
  ℕ, zero, suc, ◌-◌, Text, Map, insert, erase, Time, Bool, true, false, not, List, [], ◌∷◌, ◌++◌,
  All, All-append, All-drop, All-filter, drop, filter, any, length, ltb, if◌then◌else◌, text_eq_iff,
  text_ne, text_eq_refl, arith, ◌≡◌, ◌≢◌, refl, sym, Bool-cases, inl, inr,
}
use beacle.Models.{Vps, Alert}
use beacle.Registry.{state-persist}
use beacle.Registry.AlertRows.{
  newest, max_alerts, open_for, set_alerts, add_alert, resolve_alerts_for,
}
use beacle.Registry.Laws.{alerts-resolve_alerts_for}
use beacle.Alerts.{
  Engine, active_key, is_active, new_row, fire, clear, clear_always, clear_reachability, agent_down,
  agent_offline,
}
use beacle.Alerts.Keys.{Plain, active_key_injective, is_active-insert, is_active-erase}

-- An open row's condition is active; its identifier and type have no "|".
pub record RowIsTracked (active : Map Bool) (a : Alert) : Type 0 where
  pub plain_vps : Plain a.vps_id
  pub plain_kind : Plain a.kind
  pub tracked : a.resolved ≡ false → is_active (active_key a.vps_id a.kind a.key) active ≡ true

-- No condition has two open rows.
abbrev pub Unique : List Alert → Type 0
Unique [] = Unit
Unique (a ∷ rows) =
    (a.resolved ≡ false → any (open_for a.vps_id a.kind a.key) rows ≡ false) × Unique rows

pub record IsTracked (e : Engine) : Type 0 where
  pub rows : All (RowIsTracked e.active) e.store.state.alerts
  pub unique : Unique e.store.state.alerts

open_for_iff :
    (v k x : Text) (a : Alert)
    → open_for v k x a ≡ true
    → (a.resolved ≡ false) × (a.vps_id ≡ v) × (a.kind ≡ k) × (a.key ≡ x)
unfolding open_for
open_for_iff v k x a h =
    ground (arith, text_eq_iff a.vps_id v, text_eq_iff a.kind k, text_eq_iff a.key x)

open_for_of :
    (v k x : Text) (a : Alert)
    → a.resolved ≡ false
    → a.vps_id ≡ v
    → a.kind ≡ k
    → a.key ≡ x
    → open_for v k x a ≡ true
unfolding open_for
open_for_of v k x a r p q s =
    ground (arith, text_eq_iff a.vps_id v, text_eq_iff a.kind k, text_eq_iff a.key x)

-- A condition that is not active has no open row.
pub none_open_of_inactive :
    (v k x : Text) (active : Map Bool) (rows : List Alert)
    → All (RowIsTracked active) rows
    → is_active (active_key v k x) active ≡ false
    → any (open_for v k x) rows ≡ false
none_open_of_inactive v k x active [] t h = refl
none_open_of_inactive v k x active (a ∷ rows) t h = elim (Bool-cases (open_for v k x a)) [
  | inl opened ↦
      let parts = open_for_iff v k x a opened in
      absurd (clash (t.0.tracked parts.0) parts.1 parts.2 parts.3)
  | inr shut ↦ rw shut (none_open_of_inactive v k x active rows t.1 h)
]
  where
    clash :
        is_active (active_key a.vps_id a.kind a.key) active ≡ true
        → a.vps_id ≡ v
        → a.kind ≡ k
        → a.key ≡ x
        → ⊥
    clash on p q s = cc

pub RowIsTracked-insert :
    (id : Text) (active : Map Bool) (rows : List Alert)
    → All (RowIsTracked active) rows
    → All (RowIsTracked (insert id true active)) rows
RowIsTracked-insert id active [] t = tt
RowIsTracked-insert id active (a ∷ rows) t = (
  record {
    plain_vps = t.0.plain_vps;
    plain_kind = t.0.plain_kind;
    tracked = λ r.
        ground
          (arith, t.0.tracked r, is_active-insert id (active_key a.vps_id a.kind a.key) active);
  },
  RowIsTracked-insert id active rows t.1,
)

-- Erasing a condition keeps the rows of every other condition tracked.
RowIsTracked-erase :
    (v k x : Text) (active : Map Bool) (rows : List Alert)
    → Plain v
    → Plain k
    → All (RowIsTracked active) rows
    → All
        (RowIsTracked (erase (active_key v k x) active))
        (filter (λ a. not (open_for v k x a)) rows)
RowIsTracked-erase v k x active [] pv pk t = tt
RowIsTracked-erase v k x active (a ∷ rows) pv pk t = elim (Bool-cases (open_for v k x a)) [
  | inl opened ↦ rw opened (RowIsTracked-erase v k x active rows pv pk t.1)
  | inr shut ↦ rw shut (
    record { plain_vps = t.0.plain_vps; plain_kind = t.0.plain_kind; tracked = λ r. still r shut },
    RowIsTracked-erase v k x active rows pv pk t.1,
  )
]
  where
    other :
        a.resolved ≡ false
        → open_for v k x a ≡ false
        → active_key v k x ≢ active_key a.vps_id a.kind a.key
    other r shut same =
        let parts =
          active_key_injective v a.vps_id k a.kind x a.key pv t.0.plain_vps pk t.0.plain_kind
            same in
        cc (open_for_of v k x a r (sym parts.0) (sym parts.1) (sym parts.2), shut)

    still :
        a.resolved ≡ false
        → open_for v k x a ≡ false
        → is_active (active_key a.vps_id a.kind a.key) (erase (active_key v k x) active) ≡ true
    still r shut = rw (is_active-erase, text_ne _ _ (other r shut)) (t.0.tracked r)

any-append :
    (p : Alert → Bool) (xs ys : List Alert)
    → any p xs ≡ false
    → any p ys ≡ false
    → any p (xs ++ ys) ≡ false
any-append p [] ys h k = k
any-append p (x ∷ xs) ys h k = ground (arith, any-append p xs ys)

any-drop :
    (p : Alert → Bool) (n : ℕ) (xs : List Alert) → any p xs ≡ false → any p (drop n xs) ≡ false
any-drop p zero xs h = h
any-drop p (suc n) [] h = h
any-drop p (suc n) (x ∷ xs) h = any-drop p n xs (ground arith)

any-filter : (p q : Alert → Bool) (xs : List Alert) → any p xs ≡ false → any p (filter q xs) ≡ false
any-filter p q [] h = h
any-filter p q (x ∷ xs) h = ground (arith, any-filter p q xs)

Unique-append :
    (rows : List Alert) (a : Alert)
    → Unique rows
    → any (open_for a.vps_id a.kind a.key) rows ≡ false
    → Unique (rows ++ (a ∷ []))
Unique-append [] a u h = (λ r. refl, tt)
Unique-append (b ∷ rows) a u h = (
  λ r. any-append _ rows (a ∷ []) (u.0 r) (ground (arith, apart r)),
  Unique-append rows a u.1 (ground arith),
)
  where
    apart : b.resolved ≡ false → open_for b.vps_id b.kind b.key a ≡ false
    apart r = elim (Bool-cases (open_for b.vps_id b.kind b.key a)) [
      | inl opened ↦
          let parts = open_for_iff b.vps_id b.kind b.key a opened in
          absurd (
            cc (open_for_of a.vps_id a.kind a.key b r (sym parts.1) (sym parts.2) (sym parts.3), h))
      | inr shut ↦ shut
    ]

Unique-drop : (n : ℕ) (rows : List Alert) → Unique rows → Unique (drop n rows)
Unique-drop zero rows u = u
Unique-drop (suc n) [] u = u
Unique-drop (suc n) (a ∷ rows) u = Unique-drop n rows u.1

pub Unique-filter : (p : Alert → Bool) (rows : List Alert) → Unique rows → Unique (filter p rows)
Unique-filter p [] u = u
Unique-filter p (a ∷ rows) u = elim (Bool-cases (p a)) [
  | inl kept ↦ rw kept (λ r. any-filter _ p rows (u.0 r), Unique-filter p rows u.1)
  | inr gone ↦ rw gone (Unique-filter p rows u.1)
]

RowIsTracked-newest :
    (active : Map Bool) (n : ℕ) (rows : List Alert)
    → All (RowIsTracked active) rows
    → All (RowIsTracked active) (newest n rows)
unfolding newest
RowIsTracked-newest active n rows t = elim (Bool-cases (ltb n (length rows))) [
  | inl long ↦ rw long (All-drop (RowIsTracked active) (length rows - n) rows t)
  | inr short ↦ rw short t
]

Unique-newest : (n : ℕ) (rows : List Alert) → Unique rows → Unique (newest n rows)
unfolding newest
Unique-newest n rows u = elim (Bool-cases (ltb n (length rows))) [
  | inl long ↦ rw long (Unique-drop (length rows - n) rows u)
  | inr short ↦ rw short u
]

module _ (new_id : ℕ → Text) (now : Time) where
  -- Raising an alert keeps every open row tracked and every condition at one open row.
  pub fire-IsTracked :
      (vps : Vps) (kind severity key msg : Text) (e : Engine)
      → Plain vps.id
      → Plain kind
      → IsTracked e
      → IsTracked (fire new_id now vps kind severity key msg e)
  unfolding fire add_alert set_alerts new_row
  fire-IsTracked vps kind severity key msg e pv pk t = elim (Bool-cases (is_active id e.active)) [
    | inl on ↦ rw on t
    | inr off ↦ rw off (record {
      rows = rw state-persist (
          RowIsTracked-newest _ max_alerts _ (
            All-append _ e.store.state.alerts (row ∷ [])
              (RowIsTracked-insert id e.active e.store.state.alerts t.rows)
              (
                record {
                  plain_vps = pv;
                  plain_kind = pk;
                  tracked = λ r. rw (is_active-insert, text_eq_refl);
                },
                tt,
              )));
      unique = rw state-persist (
          Unique-newest max_alerts _ (
            Unique-append e.store.state.alerts row t.unique
              (none_open_of_inactive vps.id kind key e.active e.store.state.alerts t.rows off)));
    })
  ]
    where
      id : Text
      id = active_key vps.id kind key

      row : Alert
      row = record (new_row vps kind severity key msg) { id = new_id e.drawn; created_at = now }

  -- An active condition raises nothing again: the engine is left as it is.
  pub fire-active :
      (vps : Vps) (kind severity key msg : Text) (e : Engine)
      → is_active (active_key vps.id kind key) e.active ≡ true
      → fire new_id now vps kind severity key msg e ≡ e
  unfolding fire
  fire-active vps kind severity key msg e on = rw on

-- Resolving a condition keeps every open row tracked and every condition at one open row.
pub clear-IsTracked :
    (vps_id kind key : Text) (e : Engine)
    → Plain vps_id
    → Plain kind
    → IsTracked e
    → IsTracked (clear vps_id kind key e)
unfolding clear
clear-IsTracked vps_id kind key e pv pk t =
    elim (Bool-cases (is_active (active_key vps_id kind key) e.active)) [
      | inl on ↦ rw on (record {
        rows =
            rw alerts-resolve_alerts_for
              (RowIsTracked-erase vps_id kind key e.active e.store.state.alerts pv pk t.rows);
        unique = rw alerts-resolve_alerts_for (Unique-filter _ e.store.state.alerts t.unique);
      })
      | inr off ↦ rw off t
    ]

clear_always-IsTracked :
    (vps_id kind : Text) (e : Engine)
    → Plain vps_id
    → Plain kind
    → IsTracked e
    → IsTracked (clear_always vps_id kind e)
unfolding clear_always
clear_always-IsTracked vps_id kind e pv pk t = record {
  rows =
      rw alerts-resolve_alerts_for
        (RowIsTracked-erase vps_id kind [] e.active e.store.state.alerts pv pk t.rows);
  unique = rw alerts-resolve_alerts_for (Unique-filter _ e.store.state.alerts t.unique);
}

pub clear_reachability-IsTracked :
    (vps_id : Text) (e : Engine)
    → Plain vps_id
    → IsTracked e
    → IsTracked (clear_reachability vps_id e)
unfolding clear_reachability
clear_reachability-IsTracked vps_id e pv t = record { rows = both.rows; unique = both.unique }
  where
    both : IsTracked (clear_always vps_id agent_down (clear_always vps_id agent_offline e))
    both =
        clear_always-IsTracked vps_id agent_down _ pv (omega arith)
          (clear_always-IsTracked vps_id agent_offline e pv (omega arith) t)

-- Resolving rows that were never tracked by a key keeps the rest tracked: what the snapshots do to
-- the alerts of an older build.
pub drop_rows-IsTracked :
    (vps_id kind key : Text) (e : Engine)
    → IsTracked e
    → IsTracked (record e { store = (resolve_alerts_for vps_id kind key e.store).1 })
drop_rows-IsTracked vps_id kind key e t = record {
  rows =
      rw alerts-resolve_alerts_for
        (All-filter (RowIsTracked e.active) _ e.store.state.alerts t.rows);
  unique = rw alerts-resolve_alerts_for (Unique-filter _ e.store.state.alerts t.unique);
}

-- A conditional between two tracked engines is tracked.
pub if-IsTracked :
    (b : Bool) {e f : Engine} → IsTracked e → IsTracked f → IsTracked (if b then e else f)
if-IsTracked true t u = t
if-IsTracked false t u = u
