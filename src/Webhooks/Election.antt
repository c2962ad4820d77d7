-- ===== src/Webhooks/Election.antt =====
-- The election of the two servers that send (backend/webhooks.go, lines 232-331). A pointer into
-- the candidates is the candidate itself, as the source compares identifiers only.
use beacle.Prelude.{
  ℕ, Text, ltb, ◌==◌, Bool, not, ◌&&◌, List, [], ◌∷◌, filter, sort, Option, none, some,
  if◌then◌else◌, text_eq, is_empty,
}
use beacle.Models.{Vps, is_wireguard, status_eq, pending}
use beacle.Registry.{Store}
use beacle.Registry.Servers.{list_vps, text_less}

-- What Go's libraries make of an address: the host of `host:port`; the address that a text is,
-- unmapped and printed; whether that is IPv6; and its /64, printed.
pub record Addresses : Type 0 where
  pub split_host : Text → Option Text
  pub parse : Text → Option Text
  pub is_v6 : Text → Bool
  pub prefix64 : Text → Option Text

-- The two seats.
pub record Pair : Type 0 where
  pub primary : Option Vps
  pub secondary : Option Vps

-- The order of the candidates: the largest coverage first, then the oldest.
unfoldable pub steadier : (Text → ℕ) → Vps → Vps → Bool
steadier coverage a b =
    if not (coverage a.id == coverage b.id)
    then ltb (coverage b.id) (coverage a.id)
    else if not (a.created_at == b.created_at)
    then ltb a.created_at b.created_at
    else text_less a.id b.id

-- `byID`
unfoldable pub by_id : Text → List Vps → Option Vps
by_id id [] = none
by_id id (c ∷ cs) = if not (is_empty id) && text_eq c.id id then some c else by_id id cs

-- `networkKey`
unfoldable pub network_key : Addresses → Vps → Text
network_key net v =
    let ip =
      if is_empty v.public_ip && is_wireguard v
      then elim (net.split_host v.wg_endpoint) [ some h ↦ h | none ↦ v.public_ip ]
      else v.public_ip in
    elim (net.parse ip) [
      | none ↦ []
      | some a ↦ if net.is_v6 a then elim (net.prefix64 a) [ some p ↦ p | none ↦ [] ] else a
    ]

-- `sameNetwork`
unfoldable pub same_network : Addresses → Vps → Vps → Bool
same_network net a b =
    let key = network_key net a in not (is_empty key) && text_eq key (network_key net b)

-- The second seat is left open if both pins name one server.
unfoldable pub unless_same : Option Vps → Option Vps → Option Vps
unless_same (some p) (some s) = if text_eq s.id p.id then none else some s
unless_same none s = s
unless_same (some p) none = none

-- The first of two fallbacks counts.
unfoldable pub keep_first : Option Vps → Vps → Option Vps
keep_first (some f) c = some f
keep_first none c = some c

module _ (net : Addresses) where
  -- The loop of `best` next to a server that has the other seat; `fallback` is the first candidate
  -- inside that server's network.
  unfoldable pub best_beside : Vps → List Vps → Option Vps → Option Vps
  best_beside t [] fallback = fallback
  best_beside t (c ∷ cs) fallback =
      if text_eq c.id t.id
      then best_beside t cs fallback
      else if not (same_network net c t)
      then some c
      else best_beside t cs (keep_first fallback c)

  -- `best`
  unfoldable pub best : Option Vps → List Vps → Option Vps
  best none [] = none
  best none (c ∷ cs) = some c
  best (some t) cs = best_beside t cs none

  unfoldable pub or_best : Option Vps → Option Vps → List Vps → Option Vps
  or_best (some v) other cs = some v
  or_best none other cs = best other cs

  -- The two seats, from the candidates in their order.
  unfoldable pub fill : List Vps → Text → Text → Pair
  unfolding or_best
  fill cs pin_p pin_s =
      let pinned = unless_same (by_id pin_p cs) (by_id pin_s cs) in
      let primary = or_best (by_id pin_p cs) pinned cs in
      record { primary = primary; secondary = or_best pinned primary cs }

  -- `electWatchers`
  unfoldable pub elect_watchers : List Vps → (Text → ℕ) → Text → Text → Pair
  elect_watchers [] coverage pin_p pin_s = record { primary = none; secondary = none }
  elect_watchers (c ∷ cs) coverage pin_p pin_s =
      fill (sort (steadier coverage) (c ∷ cs)) pin_p pin_s

-- The candidates of `Elect`.
unfoldable pub candidates : {Snapshot : Type 0} → (Text → Bool) → Store Snapshot → List Vps
candidates connected s =
    filter (λ v. not (status_eq v.status pending) && connected v.id) (list_vps s)

-- `Elect`; `coverage` counts the samples of the last day, `History.Query`.
unfoldable pub elect :
    {Snapshot : Type 0}
    → Addresses
    → (Text → Bool)
    → (Text → ℕ)
    → Text
    → Text
    → Store Snapshot
    → Pair
elect net connected coverage pin_p pin_s s =
    elect_watchers net (candidates connected s) coverage pin_p pin_s
