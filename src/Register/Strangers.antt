-- ===== src/Register/Strangers.antt =====
-- What an agent without a token gets (backend/agent_register.go, `registerAgent`).
use beacle.Prelude.{
  Text, Map, lookup, has, Distinct, Time, Bool, true, false, ◌&&◌, ◌||◌, [], ◌∷◌, Option, none,
  some, if◌then◌else◌, is_empty, text_eq, text_eq_iff, text_eq_refl, ◌≡◌, refl, ap, subst, ◌∙◌,
  Bool-cases, Option-cases, inl, inr,
}
use beacle.Models.{is_wireguard}
use beacle.Registry.{Store, Entry}
use beacle.Registry.Servers.{find, update_vps, find_pending_by_tailscale, find_by_tailscale}
use beacle.Registry.Invariant.{IsValid, Filed, entry_id}
use beacle.Registry.Laws.{find_pending_sound, find_by_tailscale_sound}
use beacle.Register.{
  Request, Around, accepted, turned_down, Refusal, Panel, apply_online, logged, let_in, unmatched,
  find_waiting, find_lost, matched, without_token, register_agent,
}

-- What a search finds is filed under its identifier.
lookup-find :
    (p : Entry → Bool) (m : Map Entry) (e : Entry)
    → Distinct m
    → Filed entry_id m
    → find p m ≡ some e
    → lookup e.vps.id m ≡ some e
unfolding find lookup has
lookup-find p [] e d f h = cc
lookup-find p ((k, x) ∷ m) e d f h = elim (Bool-cases (p x)) [
  | inl found ↦
      subst (λ z. lookup z.vps.id ((k, x) ∷ m) ≡ some z) (first found)
        (rw f.0 (rw text_eq_refl refl))
  | inr passed ↦
      let later = lookup-find p m e d.1 f.1 (rw passed at h) in
      elim (Bool-cases (text_eq k e.vps.id)) [
        | inl same ↦ absurd (twice later ((text_eq_iff k e.vps.id).0 same))
        | inr other ↦ rw other later
      ]
]
  where
    first : p x ≡ true → x ≡ e
    first found = cc (rw found at h)

    twice : lookup e.vps.id m ≡ some e → k ≡ e.vps.id → ⊥
    twice later same = cc (d.0, later, same)

nothing_found : (x : Entry) → none ≡ some x → ⊥
nothing_found x h = cc

refusal_accepted : (r : Refusal) (e : Entry) → turned_down r ≡ accepted e → ⊥
refusal_accepted r e h = cc

module _ {Snapshot : Type 0} (around : Around) (new_id log_id new_token : Text) (now : Time) where
  update_vps-found :
      (id : Text) (f : Entry → Entry) (s : Store Snapshot) (x : Entry)
      → lookup id s.state.servers ≡ some x
      → update_vps id f s ≡ (some (f x), (update_vps id f s).1)
  unfolding update_vps
  update_vps-found id f s x there = rw (there, update_vps) refl

  -- A server without a token, or one that is reclaimed, gets a new one.
  let_in-new :
      (req : Request) (host ts_name : Text) (reclaim : Bool) (x e : Entry) (p : Panel Snapshot)
      → lookup x.vps.id p.store.state.servers ≡ some x
      → (is_empty x.agent_token || reclaim) ≡ true
      → is_wireguard x.vps ≡ false
      → (let_in around new_id log_id new_token now req host ts_name reclaim x p).0 ≡ accepted e
      → (e.agent_token ≡ new_token) × (is_wireguard e.vps ≡ false)
  unfolding let_in logged apply_online is_wireguard
  let_in-new req host ts_name reclaim x e p there renewed w h =
      subst (λ z. (z.agent_token ≡ new_token) × (is_wireguard z.vps ≡ false))
        (made (rw (update_vps-found x.vps.id _ p.store x there) at h)) (rw renewed (refl, w))
    where
      made :
          accepted (
              apply_online around now req host ts_name (
                if is_empty x.agent_token || reclaim
                then record x { agent_token = new_token }
                else x))
            ≡ accepted e
          → apply_online around now req host ts_name (
              if is_empty x.agent_token || reclaim then record x { agent_token = new_token } else x)
            ≡ e
      made k = cc

  -- What waits for an agent has no token and is not on WireGuard; what may be reclaimed is not on
  -- WireGuard. Both are in the registry.
  pending_sound :
      (name ip : Text) (s : Store Snapshot) (x : Entry)
      → IsValid s.state
      → find_pending_by_tailscale name ip s ≡ some x
      → (lookup x.vps.id s.state.servers ≡ some x)
        × ((is_empty x.agent_token || false) ≡ true)
        × (is_wireguard x.vps ≡ false)
  pending_sound name ip s x v h =
      let sound = find_pending_sound name ip s x h in
      (
        unfold find_pending_by_tailscale in
            lookup-find _ s.state.servers x v.servers_distinct v.servers_filed h,
        rw sound.1 refl,
        sound.0,
      )

  waiting_sound :
      (remote_ip host ts_name : Text) (s : Store Snapshot) (x : Entry)
      → IsValid s.state
      → find_waiting around new_id log_id new_token now remote_ip host ts_name s ≡ some x
      → (lookup x.vps.id s.state.servers ≡ some x)
        × ((is_empty x.agent_token || false) ≡ true)
        × (is_wireguard x.vps ≡ false)
  unfolding find_waiting
  waiting_sound remote_ip host ts_name s x v h = elim (Bool-cases (around.is_loopback remote_ip)) [
    | inl here ↦ pending_sound ts_name host s x v (rw here at h)
    | inr remote ↦ pending_sound (around.tailnet_name remote_ip) remote_ip s x v (rw remote at h)
  ]

  lost_sound :
      (remote_ip : Text) (s : Store Snapshot) (x : Entry)
      → IsValid s.state
      → find_lost around new_id log_id new_token now remote_ip s ≡ some x
      → (lookup x.vps.id s.state.servers ≡ some x)
        × ((is_empty x.agent_token || true) ≡ true)
        × (is_wireguard x.vps ≡ false)
  unfolding find_lost
  lost_sound remote_ip s x v h = elim (Option-cases (find_by_tailscale [] remote_ip s)) [
    | inl nobody ↦ absurd (nothing_found x (rw (nobody, find_lost) at h))
    | inr (y, found) ↦ elim (Bool-cases (around.is_connected y.vps.id)) [
      | inl on ↦ absurd (nothing_found x (rw (found, find_lost, on) at h))
      | inr off ↦
          let same = that y (rw (found, find_lost, off) at h) in
          let found' = found ∙ ap some same in
          (
            unfold find_by_tailscale in
                lookup-find _ s.state.servers x v.servers_distinct v.servers_filed found',
            or_true (is_empty x.agent_token),
            find_by_tailscale_sound [] remote_ip s x found',
          )
    ]
  ]
    where
      that : (y : Entry) → some y ≡ some x → y ≡ x
      that y k = cc

      or_true : (b : Bool) → (b || true) ≡ true
      or_true true = refl
      or_true false = refl

  unmatched-new :
      (req : Request) (remote_ip raw_token host ts_name : Text) (e : Entry) (p : Panel Snapshot)
      → around.is_loopback remote_ip ≡ false
      → (unmatched around new_id log_id new_token now req remote_ip raw_token host ts_name p).0
        ≡ accepted e
      → ⊥
  unfolding unmatched
  unmatched-new req remote_ip raw_token host ts_name e p far h =
      elim (Bool-cases (is_empty raw_token && is_empty req.vps_id)) [
        | inl bare ↦ refusal_accepted _ e (rw bare at h)
        | inr named ↦ refusal_accepted _ e (rw (named, far) at h)
      ]

  matched-new :
      (req : Request) (remote_ip raw_token host ts_name : Text) (known : Bool) (w l : Option Entry)
      (e : Entry) (p : Panel Snapshot)
      → IsValid p.store.state
      → around.is_loopback remote_ip ≡ false
      → find_waiting around new_id log_id new_token now remote_ip host ts_name p.store ≡ w
      → find_lost around new_id log_id new_token now remote_ip p.store ≡ l
      → (matched around new_id log_id new_token now req remote_ip raw_token host ts_name known w l
          p).0
        ≡ accepted e
      → (e.agent_token ≡ new_token) × (is_wireguard e.vps ≡ false)
  unfolding matched
  matched-new req remote_ip raw_token host ts_name known (some x) l e p v far ew el h =
      let (there, renewed, w) = waiting_sound remote_ip host ts_name p.store x v ew in
      let_in-new req host ts_name false x e p there renewed w h
  matched-new req remote_ip raw_token host ts_name known none (some x) e p v far ew el h =
      let (there, renewed, w) = lost_sound remote_ip p.store x v el in
      let_in-new req host ts_name true x e p there renewed w h
  matched-new req remote_ip raw_token host ts_name true none none e p v far ew el h =
      absurd (refusal_accepted _ e h)
  matched-new req remote_ip raw_token host ts_name false none none e p v far ew el h =
      absurd (unmatched-new req remote_ip raw_token host ts_name e p far h)

  without_token-new :
      (req : Request) (remote_ip raw_token host ts_name : Text) (k : Option Entry) (e : Entry)
      (p : Panel Snapshot)
      → IsValid p.store.state
      → around.is_loopback remote_ip ≡ false
      → (without_token around new_id log_id new_token now req remote_ip raw_token host ts_name k
          p).0
        ≡ accepted e
      → (e.agent_token ≡ new_token) × (is_wireguard e.vps ≡ false)
  unfolding without_token
  without_token-new req remote_ip raw_token host ts_name none e p v far h =
      matched-new req remote_ip raw_token host ts_name false _ _ e p v far refl refl h
  without_token-new req remote_ip raw_token host ts_name (some k) e p v far h =
      elim (Bool-cases (is_wireguard k.vps)) [
        | inl tunnel ↦ absurd (refusal_accepted _ e (rw tunnel at h))
        | inr other ↦
            matched-new req remote_ip raw_token host ts_name true _ _ e p v far refl refl
              (rw other at h)
      ]

  -- An agent that presents no token and comes from another computer is let in, if at all, under a
  -- token that was drawn for it, and as a server that is not on WireGuard: it never learns a token
  -- that is in use. The store is valid.
  pub stranger_gets_new_token :
      (req : Request) (remote_ip raw_token : Text) (p : Panel Snapshot) (e : Entry)
      → IsValid p.store.state
      → around.is_loopback remote_ip ≡ false
      → (register_agent around new_id log_id new_token now req remote_ip raw_token none p).0
        ≡ accepted e
      → (e.agent_token ≡ new_token) × (is_wireguard e.vps ≡ false)
  unfolding register_agent
  stranger_gets_new_token req remote_ip raw_token p e v far h =
      without_token-new req remote_ip raw_token _ _ _ e p v far h
