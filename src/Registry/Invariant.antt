-- ===== src/Registry/Invariant.antt =====
-- What every operation of the store keeps (backend/store.go): each server and each link is filed
-- under its own identifier, once, and the alert rows and the action log stay within their limits.
use beacle.Prelude.{
  ℕ, ◌-◌, ◌≤◌, Text, Map, lookup, insert, erase, keep, Distinct, insert-Distinct, Bool, List, [],
  ◌∷◌, length, length-drop, some, text_eq_iff, ◌≡◌, sym, subst, arith,
}
use beacle.Models.{Link, Alert}
use beacle.Registry.{State, Store, Entry, persist, state-persist}
use beacle.Registry.Servers.{set_server}
use beacle.Registry.Links.{set_links}
use beacle.Registry.AlertRows
use beacle.Registry.AlertRows.{
  newest, set_alerts, add_alert, resolve_alerts_for, purge_resolved_alerts, resolve_alert,
  add_action, max_alerts, max_actions,
}

-- Every entry of a map is filed under its own name.
abbrev pub Filed : {A : Type 0} → (A → Text) → Map A → Type 0
Filed name [] = Unit
Filed name ((k, a) ∷ m) = (name a ≡ k) × Filed name m

abbrev pub entry_id : Entry → Text
entry_id e = e.vps.id

abbrev pub link_id : Link → Text
link_id l = l.id

pub record IsValid (st : State) : Type 0 where
  pub servers_distinct : Distinct st.servers
  pub servers_filed : Filed entry_id st.servers
  pub links_distinct : Distinct st.links
  pub links_filed : Filed link_id st.links
  pub alerts_bounded : length st.alerts ≤ max_alerts
  pub actions_bounded : length st.actions ≤ max_actions

module _ {A : Type 0} (name : A → Text) where
  pub insert-Filed :
      (k : Text) (a : A) (m : Map A) → name a ≡ k → Filed name m → Filed name (insert k a m)
  unfolding insert
  insert-Filed k a [] e h = (e, tt)
  insert-Filed k a ((j, b) ∷ m) e h = ground (arith, insert-Filed k a m e h.1)

  pub erase-Filed : (k : Text) (m : Map A) → Filed name m → Filed name (erase k m)
  unfolding erase
  erase-Filed k [] h = tt
  erase-Filed k ((j, b) ∷ m) h = ground (arith, erase-Filed k m h.1)

  pub keep-Filed : (p : A → Bool) (m : Map A) → Filed name m → Filed name (keep p m)
  unfolding keep
  keep-Filed p [] h = tt
  keep-Filed p ((j, b) ∷ m) h = ground (arith, keep-Filed p m h.1)

  pub lookup-Filed :
      (k : Text) (a : A) (m : Map A) → Filed name m → lookup k m ≡ some a → name a ≡ k
  unfolding lookup
  lookup-Filed k a [] h e = cc
  lookup-Filed k a ((j, b) ∷ m) h e = ground (arith, text_eq_iff j k, lookup-Filed k a m h.1)

pub length-newest : {A : Type 0} (n : ℕ) (xs : List A) → length (newest n xs) ≤ n
unfolding newest
length-newest n xs = ground (arith, length-drop (length xs - n) xs)

pub length-remove_first-le :
    (id : Text) (rows : List Alert) → length (AlertRows.remove_first id rows) ≤ length rows
unfolding AlertRows.remove_first
length-remove_first-le id [] = omega arith
length-remove_first-le id (a ∷ rows) = ground (arith, length-remove_first-le id rows)

module _ {Snapshot : Type 0} where
  pub persist-IsValid : (s : Store Snapshot) → IsValid s.state → IsValid (persist s).state
  persist-IsValid s v = subst IsValid (sym (state-persist s)) v

  pub set_server-IsValid :
      (id : Text) (e : Entry) (s : Store Snapshot)
      → e.vps.id ≡ id
      → IsValid s.state
      → IsValid (set_server id e s).state
  unfolding set_server
  set_server-IsValid id e s h v = record {
    servers_distinct = insert-Distinct id e s.state.servers v.servers_distinct;
    servers_filed = insert-Filed entry_id id e s.state.servers h v.servers_filed;
    links_distinct = v.links_distinct;
    links_filed = v.links_filed;
    alerts_bounded = v.alerts_bounded;
    actions_bounded = v.actions_bounded;
  }

  pub set_alerts-IsValid :
      (rows : List Alert) (s : Store Snapshot)
      → length rows ≤ max_alerts
      → IsValid s.state
      → IsValid (set_alerts rows s).state
  unfolding set_alerts
  set_alerts-IsValid rows s h v = record {
    servers_distinct = v.servers_distinct;
    servers_filed = v.servers_filed;
    links_distinct = v.links_distinct;
    links_filed = v.links_filed;
    alerts_bounded = h;
    actions_bounded = v.actions_bounded;
  }

  pub set_links-IsValid :
      (m : Map Link) (s : Store Snapshot)
      → Distinct m
      → Filed link_id m
      → IsValid s.state
      → IsValid (set_links m s).state
  unfolding set_links
  set_links-IsValid m s d f v = record {
    servers_distinct = v.servers_distinct;
    servers_filed = v.servers_filed;
    links_distinct = d;
    links_filed = f;
    alerts_bounded = v.alerts_bounded;
    actions_bounded = v.actions_bounded;
  }
