-- ===== src/Webhooks/Pushed.antt =====
-- What the elected servers are sent makes them watchers as agent/watchdog.go expects them, and a
-- message that no watcher takes is an error (backend/webhooks.go, `SyncWatchers`, `deliver`).
use beacle.Prelude.{
  ℕ, Text, Map, values, has, lookup, Distinct, Unique, is_named, filter-Unique, sort-Unique,
  map-Unique, Bool, true, false, ◌&&◌, List, [], ◌∷◌, map, is_nil, ltb, ◌||◌, All, Option, none,
  some, arith, ◌≡◌, ◌↔◌, refl, sym, subst, inl, ◌⊎◌,
}
use beacle.Models.{Vps}
use beacle.Alerts.{Message}
use beacle.Registry.{Store, Entry}
use beacle.Registry.Servers.{list_vps}
use beacle.Registry.Invariant.{IsValid, Filed, entry_id}
use beacle.Watchdog.{Peer}
use beacle.Watchdog.Ticks.{others}
use beacle.Watchdog.Streak.{WatchIsOn}
use beacle.Webhooks.{Service, Error, no_watcher}
use beacle.Webhooks.Election.{Addresses, Pair}
use beacle.Webhooks.Delivery.{
  Reply, Route, failed, answered, config_of, peer_of, peers_of, sync_watchers, deliver, elected,
  try_seats, seats, route_by,
}

is_named-values :
    (id : Text) (m : Map Entry) → Filed entry_id m → is_named entry_id id (values m) ≡ has id m
unfolding has lookup
is_named-values id [] h = refl
is_named-values id ((k, e) ∷ m) h = ground (arith, h.0, is_named-values id m h.1)

values-Unique : (m : Map Entry) → Distinct m → Filed entry_id m → Unique entry_id (values m)
values-Unique [] d h = tt
values-Unique ((k, e) ∷ m) d h =
    (ground (arith, h.0, d.0, is_named-values k m h.1), values-Unique m d.1 h.1)

All-image :
    {A B : Type 0} (P : B → Type 0) (f : A → B)
    → ((x : A) → P (f x))
    → (xs : List A) → All P (map f xs)
All-image P f h [] = tt
All-image P f h (x ∷ xs) = (h x, All-image P f h xs)

module _ (net : Addresses) (pair : Pair) (w : Service) (peers : List Peer) (v : Vps) where
  config_of-webhooks :
      (config_of net pair w peers v).enabled ≡ true
      → is_nil (config_of net pair w peers v).webhooks ≡ false
  unfolding config_of
  config_of-webhooks on = ground arith

  config_of-peers :
      (config_of net pair w peers v).enabled ≡ true → (config_of net pair w peers v).peers ≡ peers
  unfolding config_of
  config_of-peers on = ground arith

  config_of-Unique :
      Unique (λ p. p.id) peers
      → (config_of net pair w peers v).enabled ≡ true
      → Unique (λ p. p.id) (config_of net pair w peers v).peers
  config_of-Unique u on = subst (Unique (λ p. p.id)) (sym (config_of-peers on)) u

  config_of-WatchIsOn :
      Unique (λ p. p.id) peers
      → (config_of net pair w peers v).enabled ≡ true
      → WatchIsOn (config_of net pair w peers v)
  unfolding others
  config_of-WatchIsOn u on = record {
    enabled = on;
    webhooks = config_of-webhooks on;
    distinct =
        filter-Unique (λ p. p.id) _ (config_of net pair w peers v).peers (config_of-Unique u on);
  }

-- The request failed, or its answer has a code below 200 or above 299.
unfoldable pub is_refused : Reply → Bool
is_refused failed = true
is_refused (answered code sent reason) = ltb code 200 || ltb 299 code

-- A seat that is empty, or whose server did not take the message.
unfoldable pub no_taker : (Vps → Reply) → Option Vps → Bool
no_taker ask none = true
no_taker ask (some v) = is_refused (ask v)

route_by_iff :
    (role : Text) (v : Vps) (r : Reply) (rest : Error ⊎ Route)
    → (route_by role v r rest ≡ inl no_watcher) ↔ ((is_refused r ≡ true) × (rest ≡ inl no_watcher))
unfolding route_by is_refused
route_by_iff role v failed rest = ground arith
route_by_iff role v (answered code none reason) rest = ground arith
route_by_iff role v (answered code (some false) reason) rest = ground arith
route_by_iff role v (answered code (some true) reason) rest = ground arith

no_takers : (Vps → Reply) → List (Text × Option Vps) → Bool
no_takers ask [] = true
no_takers ask ((role, o) ∷ rest) = no_taker ask o && no_takers ask rest

try_seats_iff :
    (ask : Vps → Reply) (rows : List (Text × Option Vps))
    → (try_seats ask rows ≡ inl no_watcher) ↔ (no_takers ask rows ≡ true)
unfolding try_seats no_takers no_taker
try_seats_iff ask [] = ground arith
try_seats_iff ask ((role, none) ∷ rest) = try_seats_iff ask rest
try_seats_iff ask ((role, some v) ∷ rest) =
    ground (arith, route_by_iff role v (ask v) (try_seats ask rest), try_seats_iff ask rest)

module _ {Snapshot : Type 0} (net : Addresses) (connected : Text → Bool) (coverage : Text → ℕ) where
  peers_of-Unique :
      (s : Store Snapshot)
      → IsValid s.state
      → Unique (λ p. p.id) (peers_of net connected coverage s)
  unfolding peers_of peer_of list_vps
  peers_of-Unique s v =
      map-Unique (λ v. v.id) (λ p. p.id) (peer_of net) (λ v. refl) _
        (filter-Unique (λ v. v.id) _ _
          (sort-Unique (λ v. v.id) _ _
            (map-Unique entry_id (λ v. v.id) (λ e. e.vps) (λ e. refl) (values s.state.servers)
              (values-Unique s.state.servers v.servers_distinct v.servers_filed))))

  -- Whatever settings the backend pushes from a valid store, those that switch a watcher on give
  -- it webhooks and name no server twice, the watcher itself included: what the laws of the watcher
  -- ask for.
  pub sync_watchers-WatchIsOn :
      (busy : Bool) (s : Store Snapshot) (w : Service)
      → IsValid s.state
      → All
          (λ push. push.1.enabled ≡ true → WatchIsOn push.1 × Unique (λ p. p.id) push.1.peers)
          (sync_watchers net connected coverage busy s w).1
  unfolding sync_watchers
  sync_watchers-WatchIsOn true s w v = tt
  sync_watchers-WatchIsOn false s w v =
      let pair = elected net connected coverage s w in
      let peers = peers_of net connected coverage s in
      All-image (λ push. push.1.enabled ≡ true → WatchIsOn push.1 × Unique (λ p. p.id) push.1.peers)
        (λ v. (v.id, config_of net pair w peers v))
        (λ x on. (
          config_of-WatchIsOn net pair w peers x (peers_of-Unique s v) on,
          config_of-Unique net pair w peers x (peers_of-Unique s v) on,
        ))
        _

  -- With webhooks configured, a message ends in the error that no watcher was reached exactly if
  -- each of the two seats is empty, or the request to its server failed or came back with a code
  -- outside 200 to 299.
  pub deliver-no_watcher_iff :
      (busy : Bool) (ask : Message → Vps → Reply) (m : Message) (s : Store Snapshot) (w : Service)
      → is_nil w.settings.targets ≡ false
      → ((deliver net connected coverage busy ask m s w).2 ≡ inl no_watcher) ↔ (
          (no_taker (ask m) (elected net connected coverage s w).primary
            && no_taker (ask m) (elected net connected coverage s w).secondary)
          ≡ true)
  unfolding deliver seats no_takers
  deliver-no_watcher_iff busy ask m s w h =
      let pair = elected net connected coverage s w in
      rw h (ground (arith, try_seats_iff (ask m) (seats pair)))
