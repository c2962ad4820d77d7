-- ===== src/Alerts/Startup/Rows.antt =====
-- The rows of alerts, of which one is removed or the resolved ones are (backend/store.go, `ResolveAlert`
-- and `PurgeResolvedAlerts`).
use beacle.Prelude.{
  Text, text_eq, text_eq_iff, Bool, false, List, [], ◌∷◌, All, All-filter, any, filter, ◌≡◌, refl,
  sym, ap, subst, arith, Bool-cases, inl, inr,
}
use mathlib.Core.List.Memᴰ
use mathlib.Core.List.{Memᴰ}
use beacle.Models.{Alert}
use beacle.Registry.{Store, state-persist}
use beacle.Registry.AlertRows.{remove_first, has_row, resolve_alert, set_alerts}
use beacle.Alerts.{Snapshot}
use beacle.Alerts.Tracking.{Unique}

-- No two rows share an identifier.
abbrev pub OwnIds : List Alert → Type 0
OwnIds [] = Unit
OwnIds (a ∷ rows) = All (λ r. text_eq r.id a.id ≡ false) rows × OwnIds rows

pub All-remove_first :
    (P : Alert → Type 0) (id : Text) (rows : List Alert) → All P rows → All P (remove_first id rows)
unfolding remove_first
All-remove_first P id [] h = tt
All-remove_first P id (a ∷ rows) h = elim (Bool-cases (text_eq a.id id)) [
  | inl own ↦ rw (own, remove_first) h.1
  | inr other ↦ rw (other, remove_first) (h.0, All-remove_first P id rows h.1)
]

pub any-remove_first :
    (p : Alert → Bool) (id : Text) (rows : List Alert)
    → any p rows ≡ false
    → any p (remove_first id rows) ≡ false
unfolding remove_first
any-remove_first p id [] h = refl
any-remove_first p id (a ∷ rows) h = ground (arith, any-remove_first p id rows)

pub Unique-remove_first :
    (id : Text) (rows : List Alert) → Unique rows → Unique (remove_first id rows)
unfolding remove_first
Unique-remove_first id [] u = tt
Unique-remove_first id (a ∷ rows) u = elim (Bool-cases (text_eq a.id id)) [
  | inl own ↦ rw (own, remove_first) u.1
  | inr other ↦
      rw (other, remove_first)
        (λ r. any-remove_first _ id rows (u.0 r), Unique-remove_first id rows u.1)
]

pub OwnIds-remove_first :
    (id : Text) (rows : List Alert) → OwnIds rows → OwnIds (remove_first id rows)
unfolding remove_first
OwnIds-remove_first id [] u = tt
OwnIds-remove_first id (a ∷ rows) u = elim (Bool-cases (text_eq a.id id)) [
  | inl own ↦ rw (own, remove_first) u.1
  | inr other ↦
      rw (other, remove_first) (All-remove_first _ id rows u.0, OwnIds-remove_first id rows u.1)
]

pub OwnIds-filter : (p : Alert → Bool) (rows : List Alert) → OwnIds rows → OwnIds (filter p rows)
OwnIds-filter p [] u = tt
OwnIds-filter p (a ∷ rows) u = elim (Bool-cases (p a)) [
  | inl kept ↦ rw kept (All-filter _ p rows u.0, OwnIds-filter p rows u.1)
  | inr gone ↦ rw gone (OwnIds-filter p rows u.1)
]

pub remove_first-absent :
    (id : Text) (rows : List Alert) → has_row id rows ≡ false → remove_first id rows ≡ rows
unfolding remove_first has_row
remove_first-absent id [] h = refl
remove_first-absent id (a ∷ rows) h = ground (arith, remove_first-absent id rows)

pub alerts-resolve_alert :
    (id : Text) (s : Store Snapshot)
    → (resolve_alert id s).1.state.alerts ≡ remove_first id s.state.alerts
unfolding resolve_alert set_alerts
alerts-resolve_alert id s = elim (Bool-cases (has_row id s.state.alerts)) [
  | inl here ↦ rw (here, resolve_alert) (ap (λ st. st.alerts) (state-persist _))
  | inr absent ↦ rw (absent, resolve_alert) (sym (remove_first-absent id s.state.alerts absent))
]

module _ {A : Type 0} where
  pub of_member : (P : A → Type 0) (x : A) (xs : List A) → All P xs → Memᴰ x xs → P x
  of_member P x [] h m = absurd (Memᴰ.not-nil m)
  of_member P x (y ∷ ys) h (Memᴰ.head e) = subst P (sym e) h.0
  of_member P x (y ∷ ys) h (Memᴰ.tail m) = of_member P x ys h.1 m

  pub from_members : (P : A → Type 0) (xs : List A) → ((x : A) → Memᴰ x xs → P x) → All P xs
  from_members P [] h = tt
  from_members P (x ∷ xs) h = (h x (Memᴰ.head refl), from_members P xs (λ y m. h y (Memᴰ.tail m)))

-- What is left has another identifier.
pub others_left :
    (id : Text) (rows : List Alert)
    → OwnIds rows
    → All (λ r. text_eq r.id id ≡ false) (remove_first id rows)
unfolding remove_first
others_left id [] u = tt
others_left id (a ∷ rows) u = elim (Bool-cases (text_eq a.id id)) [
  | inl own ↦
      rw (own, remove_first)
        (subst (λ j. All (λ r. text_eq r.id j ≡ false) rows) ((text_eq_iff a.id id).0 own) u.0)
  | inr other ↦ rw (other, remove_first) (other, others_left id rows u.1)
]

pub member_left :
    (id : Text) (r : Alert) (rows : List Alert) → Memᴰ r (remove_first id rows) → Memᴰ r rows
member_left id r rows m =
    of_member (λ q. Memᴰ q rows) r (remove_first id rows)
      (All-remove_first (λ q. Memᴰ q rows) id rows (from_members _ rows (λ q n. n))) m
