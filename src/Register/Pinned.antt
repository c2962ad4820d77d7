-- ===== src/Register/Pinned.antt =====
-- What an agent that comes through the tunnel gets (backend/agent_register.go,
-- `registerPinnedAgent`).
use beacle.Prelude.{
  Text, Time, true, [], some, text_eq, text_eq_refl, ◌≡◌, refl, subst, Bool-cases, inl, inr,
}
use beacle.Models.{is_wireguard, transport_wireguard}
use beacle.Registry.{Entry, Store}
use beacle.Registry.Servers.{update_vps_now, get_vps}
use beacle.Register.{
  Request, Around, accepted, Panel, apply_online, pin, pinned, register_pinned_agent,
}

accepted_same : (x e : Entry) → accepted x ≡ accepted e → x ≡ e
accepted_same x e h = cc

pin-wireguard :
    (around : Around) (new_token : Text) (now : Time) (req : Request) (x : Entry)
    → is_wireguard (pin around new_token now req x).vps ≡ true
unfolding pin apply_online is_wireguard
pin-wireguard around new_token now req x =
    elim (Bool-cases (text_eq x.vps.transport transport_wireguard)) [
      | inl on ↦ rw on on
      | inr off ↦ rw off (text_eq_refl transport_wireguard)
    ]

pin-id :
    (around : Around) (new_token : Text) (now : Time) (req : Request) (x : Entry)
    → ((pin around new_token now req x).vps.id ≡ x.vps.id)
      × ((pin around new_token now req x).wg_agent_key ≡ [])
unfolding pin apply_online
pin-id around new_token now req x = (refl, refl)

module _ {Snapshot : Type 0} (around : Around) (new_id log_id new_token : Text) (now : Time) where
  update_vps_now-found :
      (id : Text) (f : Entry → Entry) (s : Store Snapshot) (x : Entry)
      → get_vps id s ≡ some x
      → update_vps_now id f s ≡ (some (f x), (update_vps_now id f s).1)
  unfolding update_vps_now get_vps
  update_vps_now-found id f s x there = rw (there, update_vps_now) refl

  -- The agent of a known server that is let in through the tunnel is let in as that server, which
  -- is on WireGuard from then on, and whose private key is forgotten.
  pub pinned_is_secured :
      (req : Request) (vps_id : Text) (p : Panel Snapshot) (x e : Entry)
      → get_vps vps_id p.store ≡ some x
      → (register_pinned_agent around new_id log_id new_token now req vps_id p).0 ≡ accepted e
      → (e.vps.id ≡ x.vps.id) × (e.wg_agent_key ≡ []) × (is_wireguard e.vps ≡ true)
  unfolding register_pinned_agent pinned
  pinned_is_secured req vps_id p x e there h =
      let made =
        accepted_same (pin around new_token now req x) e
          (rw (update_vps_now-found vps_id _ p.store x there) at h) in
      let (same, forgotten) = pin-id around new_token now req x in
      subst (λ z. (z.vps.id ≡ x.vps.id) × (z.wg_agent_key ≡ []) × (is_wireguard z.vps ≡ true)) made
        (same, forgotten, pin-wireguard around new_token now req x)
