-- ===== src/Registry/Laws.antt =====
-- What single operations of the store do (backend/store.go).
use beacle.Prelude.{
  Text, Map, insert, keep, has, lookup-erase, values, Bool, true, false, not, ◌||◌, List, [], ◌∷◌,
  length, filter, any, codes, none, some, is_nil, text_eq, text_eq_iff, text_eq_refl, text_ne, ◌≡◌,
  ◌≢◌, refl, sym, ◌∙◌, arith, inl, inr, Bool-cases, Option-cases, All, ◌+◌,
}
use beacle.Models.{Link, Alert, is_wireguard}
use beacle.Registry.{Store, Entry, state-persist, snapshots-persist}
use beacle.Registry.Servers.{
  find, delete_vps, get_vps, get_snapshot, find_by_token, find_by_tailscale,
  find_pending_by_tailscale,
}
use beacle.Registry.Links.{joins, find_link, create_link, set_links, list_links}
use beacle.Registry.AlertRows.{open_for, resolve_rows, set_alerts, resolve_alerts_for}

-- What a search finds passes its test.
find_sound : (p : Entry → Bool) (m : Map Entry) (e : Entry) → find p m ≡ some e → p e ≡ true
unfolding find
find_sound p [] e h = cc
find_sound p ((k, x) ∷ m) e h = elim (Bool-cases (p x)) [
  | inl found ↦ rw (head_found found) found
  | inr passed ↦ find_sound p m e (rw passed at h)
]
  where
    head_found : p x ≡ true → e ≡ x
    head_found found = cc (rw found at h)

module _ {Snapshot : Type 0} where
  -- A token is accepted only for the server that holds it, and the empty token for none.
  pub find_by_token_sound :
      (token : Text) (s : Store Snapshot) (e : Entry)
      → find_by_token token s ≡ some e
      → (e.agent_token ≡ token) × (token ≢ [])
  unfolding find_by_token
  find_by_token_sound token s e h =
      let passed = find_sound _ s.state.servers e h in
      ground (arith, passed, text_eq_iff e.agent_token token)

  -- A search by Tailscale name or address never gives a WireGuard server.
  pub find_by_tailscale_sound :
      (name ip : Text) (s : Store Snapshot) (e : Entry)
      → find_by_tailscale name ip s ≡ some e
      → is_wireguard e.vps ≡ false
  unfolding find_by_tailscale
  find_by_tailscale_sound name ip s e h = ground (arith, find_sound _ s.state.servers e h)

  -- A search for a waiting server gives only one that has no token yet and is not on WireGuard.
  pub find_pending_sound :
      (name ip : Text) (s : Store Snapshot) (e : Entry)
      → find_pending_by_tailscale name ip s ≡ some e
      → (is_wireguard e.vps ≡ false) × (e.agent_token ≡ [])
  unfolding find_pending_by_tailscale
  find_pending_sound name ip s e h = ground (arith, find_sound _ s.state.servers e h)

abbrev pub touches : Text → Link → Bool
touches id l = text_eq l.from_vps id || text_eq l.to_vps id

keep-All :
    (id : Text) (m : Map Link)
    → All
        (λ l. touches id l ≡ false)
        (values (keep (λ l. not (text_eq l.from_vps id || text_eq l.to_vps id)) m))
unfolding keep
keep-All id [] = tt
keep-All id ((k, l) ∷ m) = ground (arith, keep-All id m)

module _ {Snapshot : Type 0} where
  -- Deleting a known server removes it, its snapshot and every link that touches it; any other
  -- server and its snapshot stay.
  pub delete_vps_lem :
      (id j : Text) (s : Store Snapshot)
      → has id s.state.servers ≡ true
      → j ≢ id
      → let (known, t) = delete_vps id s in
        (known ≡ true)
        × (get_vps id t ≡ none)
        × (get_snapshot id t ≡ none)
        × All (λ l. touches id l ≡ false) (list_links t)
        × (get_vps j t ≡ get_vps j s)
        × (get_snapshot j t ≡ get_snapshot j s)
  unfolding delete_vps get_vps get_snapshot list_links
  delete_vps_lem id j s known ne = rw known (
    refl,
    rw (state-persist, lookup-erase, text_eq_refl),
    rw (snapshots-persist, lookup-erase, text_eq_refl),
    rw state-persist (keep-All id s.state.links),
    rw (state-persist, lookup-erase, text_ne id j (λ e. ne (sym e))),
    rw (snapshots-persist, lookup-erase, text_ne id j (λ e. ne (sym e))),
  )

find_link-insert :
    (p : Link → Bool) (id : Text) (l : Link) (m : Map Link)
    → p l ≡ true
    → find_link p m ≡ none
    → find_link p (insert id l m) ≡ some l
unfolding find_link insert
find_link-insert p id l [] h k = ground arith
find_link-insert p id l ((j, x) ∷ m) h k = ground (arith, find_link-insert p id l m)

find_link-swap : (a b : Text) (m : Map Link) → find_link (joins b a) m ≡ find_link (joins a b) m
unfolding find_link joins
find_link-swap a b [] = refl
find_link-swap a b ((j, x) ∷ m) = ground (arith, find_link-swap a b m)

module _ {Snapshot : Type 0} where
  create_link-found :
      (id a b : Text) (s : Store Snapshot) (l : Link)
      → find_link (joins a b) s.state.links ≡ some l
      → create_link id a b s ≡ (l, s)
  unfolding create_link
  create_link-found id a b s l h = rw (h, create_link)

  find_link-create_link :
      (id a b : Text) (s : Store Snapshot)
      → let (l, t) = create_link id a b s in find_link (joins a b) t.state.links ≡ some l
  unfolding create_link set_links
  find_link-create_link id a b s = elim (Option-cases (find_link (joins a b) s.state.links)) [
    | inl new ↦
        rw (new, create_link)
          (rw state-persist
            (find_link-insert (joins a b) id _ s.state.links (joins-self id a b) new))
    | inr (l, old) ↦ rw (old, create_link) old
  ]
    where
      joins-self :
          (i x y : Text)
          → joins x y (record { id = i; from_vps = x; to_vps = y; status = codes "unknown" }) ≡ true
      joins-self i x y = unfold joins in simp text_eq_refl

  -- Two servers are joined by one link at most: a second request, in either direction and under
  -- any new identifier, answers with the link that is there and changes nothing.
  pub create_link_twice :
      (id id' a b : Text) (s : Store Snapshot)
      → let (l, t) = create_link id a b s in
        (create_link id' a b t ≡ (l, t)) × (create_link id' b a t ≡ (l, t))
  create_link_twice id id' a b s =
      let found = find_link-create_link id a b s in
      let (l, t) = create_link id a b s in
      (
        create_link-found id' a b t l found,
        create_link-found id' b a t l (find_link-swap a b t.state.links ∙ found),
      )

none_open :
    (p : Alert → Bool) (rows : List Alert)
    → is_nil (resolve_rows p rows) ≡ true
    → filter (λ a. not (p a)) rows ≡ rows
unfolding resolve_rows
none_open p [] h = refl
none_open p (a ∷ rows) h = ground (arith, none_open p rows)

pub any-filter-not :
    (p : Alert → Bool) (rows : List Alert) → any p (filter (λ a. not (p a)) rows) ≡ false
any-filter-not p [] = refl
any-filter-not p (a ∷ rows) = ground (arith, any-filter-not p rows)

resolve_rows-resolved :
    (p : Alert → Bool) (rows : List Alert) → All (λ a. a.resolved ≡ true) (resolve_rows p rows)
unfolding resolve_rows
resolve_rows-resolved p [] = tt
resolve_rows-resolved p (a ∷ rows) = ground (arith, resolve_rows-resolved p rows)

length-resolve_rows :
    (p : Alert → Bool) (rows : List Alert)
    → length (resolve_rows p rows) + length (filter (λ a. not (p a)) rows) ≡ length rows
unfolding resolve_rows
length-resolve_rows p [] = omega arith
length-resolve_rows p (a ∷ rows) = ground (arith, length-resolve_rows p rows)

module _ {Snapshot : Type 0} where
  pub alerts-resolve_alerts_for :
      (id kind key : Text) (s : Store Snapshot)
      → (resolve_alerts_for id kind key s).1.state.alerts
        ≡ filter (λ a. not (open_for id kind key a)) s.state.alerts
  unfolding resolve_alerts_for set_alerts
  alerts-resolve_alerts_for id kind key s =
      elim (Bool-cases (is_nil (resolve_rows (open_for id kind key) s.state.alerts))) [
        | inl e ↦ rw e (sym (none_open (open_for id kind key) s.state.alerts e))
        | inr e ↦ rw (e, state-persist)
      ]

  -- Resolving a condition takes its open rows out of the list and leaves every other row in its
  -- place: what is left has no open row of the condition, and the rows given back are flagged as
  -- resolved and are as many as went.
  pub resolve_alerts_for_lem :
      (id kind key : Text) (s : Store Snapshot)
      → let (changed, t) = resolve_alerts_for id kind key s in
        (t.state.alerts ≡ filter (λ a. not (open_for id kind key a)) s.state.alerts)
        × (any (open_for id kind key) t.state.alerts ≡ false)
        × All (λ a. a.resolved ≡ true) changed
        × (length changed + length t.state.alerts ≡ length s.state.alerts)
  unfolding resolve_alerts_for
  resolve_alerts_for_lem id kind key s =
      let left = alerts-resolve_alerts_for id kind key s in
      let p = open_for id kind key in
      (
        left,
        rw left (any-filter-not p s.state.alerts),
        resolve_rows-resolved p s.state.alerts,
        rw left (length-resolve_rows p s.state.alerts),
      )
