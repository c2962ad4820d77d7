-- ===== src/Registry/Startup.antt =====
-- What survives a restart of the backend, and the loss of its registry file (backend/store.go,
-- backend/wg_peers.go).
use beacle.Prelude.{
  Text, Map, lookup, has, lookup-insert, has-insert, values, Distinct, Time, Bool, true, false,
  List, [], ◌∷◌, Option, none, some, if◌then◌else◌, is_empty, text_eq, text_eq_iff, text_eq_refl,
  ◌≡◌, refl, subst, arith, ◌⊎◌, inl, inr, Bool-cases,
}
use beacle.Models.{Status, status_eq, online, offline, pending}
use beacle.Registry.{
  State, Store, Entry, PeerRecord, Marker, marker_status, marker_fresh, has_wireguard_peer,
  peer_record, peer_records, persist,
}
use beacle.Registry.Servers.{blank_vps, entry_of, get_vps}
use beacle.Registry.Invariant.{IsValid, Filed, entry_id}
use beacle.Registry.Loading.{
  restored_entry, restore_peers, settle_marked, settle, settle_all, restore_peer, new_store,
}

-- A settled server waits for its agent, is off, or is explained by a marker that still holds.
abbrev pub IsSettled : Time → Entry → Type 0
IsSettled now e =
    (e.vps.status ≡ pending)
    ⊎ ((e.vps.status ≡ offline) × (e.restart ≡ none))
    ⊎ ((m : Marker) × (e.restart ≡ some m)
        × (marker_fresh now m ≡ true)
        × (e.vps.status ≡ marker_status m))

status_eq_pending : (s : Status) → status_eq s pending ≡ true → s ≡ pending
unfolding status_eq
status_eq_pending pending h = refl
status_eq_pending online h = cc
status_eq_pending _ h = cc

-- The parts of a server that startup leaves as they were on disk.
abbrev pub SameIdentity : Entry → Entry → Type 0
SameIdentity e d =
    (e.vps.id ≡ d.vps.id)
    × (e.agent_token ≡ d.agent_token)
    × (e.vps.wg_public_key ≡ d.vps.wg_public_key)
    × (e.wg_preshared_key ≡ d.wg_preshared_key)

settle_marked-IsSettled :
    (now : Time) (e : Entry) (o : Option Marker)
    → e.restart ≡ o
    → IsSettled now (settle_marked now e o)
unfolding settle_marked
settle_marked-IsSettled now e none h = inr (inl (refl, refl))
settle_marked-IsSettled now e (some m) h = elim (Bool-cases (marker_fresh now m)) [
  | inl f ↦ rw f (inr (inr (m, h, f, refl)))
  | inr n ↦ rw n (inr (inl (refl, refl)))
]

settle-IsSettled : (now : Time) (e : Entry) → IsSettled now (settle now e)
unfolding settle
settle-IsSettled now e = elim (Bool-cases (status_eq e.vps.status pending)) [
  | inl p ↦ rw p (inl (status_eq_pending e.vps.status p))
  | inr n ↦ rw n (settle_marked-IsSettled now e e.restart refl)
]

settle-SameIdentity : (now : Time) (e : Entry) → SameIdentity (settle now e) e
unfolding settle settle_marked
settle-SameIdentity now e = ground arith

lookup-settle_all :
    (now : Time) (id : Text) (e : Entry) (m : Map Entry)
    → lookup id m ≡ some e
    → lookup id (settle_all now m) ≡ some (settle now e)
unfolding lookup settle_all
lookup-settle_all now id e [] h = cc
lookup-settle_all now id e ((k, d) ∷ m) h = ground (arith, lookup-settle_all now id e m)

-- A server that is already there is not replaced.
lookup-restore_peer :
    (now : Time) (id : Text) (e : Entry) (r : PeerRecord) (m : Map Entry)
    → lookup id m ≡ some e
    → lookup id (restore_peer now r m) ≡ some e
unfolding restore_peer has
lookup-restore_peer now id e r m h =
    ground (arith, text_eq_iff r.id id, lookup-insert r.id id (restored_entry now r) m)

lookup-restore_peers :
    (now : Time) (id : Text) (e : Entry) (rs : List PeerRecord) (m : Map Entry)
    → lookup id m ≡ some e
    → lookup id (restore_peers now rs m) ≡ some e
unfolding restore_peers
lookup-restore_peers now id e [] m h = h
lookup-restore_peers now id e (r ∷ rs) m h =
    lookup-restore_peers now id e rs (restore_peer now r m) (lookup-restore_peer now id e r m h)

-- A record of another server leaves the server missing.
has-restore_peer_ne :
    (now : Time) (id : Text) (r : PeerRecord) (m : Map Entry)
    → text_eq r.id id ≡ false
    → has id m ≡ false
    → has id (restore_peer now r m) ≡ false
unfolding restore_peer
has-restore_peer_ne now id r m ne h = ground (arith, has-insert r.id id (restored_entry now r) m)

restores_one :
    (now : Time) (id : Text) (e : Entry) (m : Map Entry)
    → e.vps.id ≡ id
    → is_empty id ≡ false
    → has_wireguard_peer e ≡ true
    → has id m ≡ false
    → lookup id (restore_peer now (peer_record e) m) ≡ some (restored_entry now (peer_record e))
unfolding restore_peer peer_record has_wireguard_peer
restores_one now id e m same ne w h =
    rw (same)
      (ground (arith, lookup-insert id id (restored_entry now (peer_record e)) m, text_eq_refl id))

head_is_found :
    (k id : Text) (x e : Entry) (m : Map Entry)
    → text_eq k id ≡ true
    → lookup id ((k, x) ∷ m) ≡ some e
    → e ≡ x
unfolding lookup
head_is_found k id x e m here h = ground arith

-- A server that is missing is put back from its record.
lookup-restore_peer_records :
    (now : Time) (id : Text) (e : Entry) (servers acc : Map Entry)
    → Distinct servers
    → Filed entry_id servers
    → is_empty id ≡ false
    → has_wireguard_peer e ≡ true
    → has id acc ≡ false
    → lookup id servers ≡ some e
    → lookup id (restore_peers now (peer_records (values servers)) acc)
      ≡ some (restored_entry now (peer_record e))
unfolding restore_peers peer_records lookup
lookup-restore_peer_records now id e [] acc d f ne w a h = cc
lookup-restore_peer_records now id e ((k, x) ∷ m) acc d f ne w a h =
    elim (Bool-cases (text_eq k id)) [
      | inl here ↦
          subst
            (λ z.
              lookup id (
                restore_peers now
                  (if has_wireguard_peer z
                    then peer_record z ∷ peer_records (values m)
                    else peer_records (values m))
                  acc)
              ≡ some (restored_entry now (peer_record e)))
            (head_is_found k id x e m here h)
            (rw w (
              lookup-restore_peers now id _ (peer_records (values m)) _ (
                restores_one now id e acc
                  (cc (head_is_found k id x e m here h, f.0, (text_eq_iff k id).0 here)) ne w a)))
      | inr other ↦
          let later : lookup id m ≡ some e = rw other at h in
          elim (Bool-cases (has_wireguard_peer x)) [
            | inl recorded ↦ rw recorded (
                lookup-restore_peer_records now id e m (restore_peer now (peer_record x) acc) d.1
                  f.1 ne w
                  (has-restore_peer_ne now id (peer_record x) acc
                    (unfold peer_record in rw f.0 other) a)
                  later)
            | inr bare ↦ rw bare (lookup-restore_peer_records now id e m acc d.1 f.1 ne w a later)
          ]
    ]

-- A server on disk survives a restart: it is there under its identifier with its token and its
-- WireGuard keys, and it is pending, or offline with no marker, or shown as restarting or powered
-- off by a marker that still holds.
pub new_store_settles :
    (Snapshot : Type 0) (now : Time) (w r pw : Bool) (peers : Option (List PeerRecord)) (st : State)
    (id : Text) (e : Entry)
    → lookup id st.servers ≡ some e
    → (e' : Entry) × (get_vps id (new_store Snapshot now w r pw (some st) peers) ≡ some e')
      × IsSettled now e'
      × SameIdentity e' e
unfolding get_vps new_store
new_store_settles Snapshot now w r pw none st id e h = (
  settle now e,
  lookup-settle_all now id e _ h,
  settle-IsSettled now e,
  settle-SameIdentity now e,
)
new_store_settles Snapshot now w r pw (some rs) st id e h = (
  settle now e,
  lookup-settle_all now id e _ (lookup-restore_peers now id e rs st.servers h),
  settle-IsSettled now e,
  settle-SameIdentity now e,
)

peers-persist :
    {Snapshot : Type 0} (s : Store Snapshot)
    → s.writable ≡ true
    → s.peers_writable ≡ true
    → (persist s).peers ≡ some (peer_records (values s.state.servers))
unfolding persist
peers-persist s w pw = ground arith

restored-SameIdentity :
    (now : Time) (e : Entry) → SameIdentity (settle now (restored_entry now (peer_record e))) e
unfolding settle settle_marked restored_entry peer_record blank_vps entry_of
restored-SameIdentity now e = ground arith

-- If the registry file is lost after a write that reached both files, the next start still has
-- every server with tunnel keys, under its identifier, with its token, its public key and its
-- preshared key.
pub restore_after_loss :
    {Snapshot : Type 0} (now : Time) (w r pw : Bool) (s : Store Snapshot) (id : Text) (e : Entry)
    → IsValid s.state
    → s.writable ≡ true
    → s.peers_writable ≡ true
    → is_empty id ≡ false
    → has_wireguard_peer e ≡ true
    → get_vps id s ≡ some e
    → (e' : Entry) × (get_vps id (new_store Snapshot now w r pw none (persist s).peers) ≡ some e')
      × SameIdentity e' e
unfolding get_vps new_store
restore_after_loss now w r pw s id e v wr pwr ne peer h = (
  settle now (restored_entry now (peer_record e)),
  rw (peers-persist s wr pwr) (
      lookup-settle_all now id _ _ (
        lookup-restore_peer_records now id e s.state.servers [] v.servers_distinct v.servers_filed
          ne peer (unfold has lookup in refl) h)),
  restored-SameIdentity now e,
)
