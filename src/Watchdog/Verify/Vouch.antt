-- ===== src/Watchdog/Verify/Vouch.antt =====
-- When a watcher confirms an alert, and when it declines to (agent/watchdog.go, `verify`).
use beacle.Prelude.{
  Text, Bool, true, false, not, ◌&&◌, List, [], ◌∷◌, ◌++◌, map, filter, Option, none, some, arith,
  ◌≡◌, ◌↔◌, ◌∙◌, sym, text_eq_iff, ap, refl, text_eq, if◌then◌else◌, Bool-cases, inl, inr, any,
}
use beacle.Alerts.{Message, agent_offline, agent_down}
use beacle.Watchdog.{Peer, Config, Network, cannot_vouch, host_up, reachable, cut_off}
use beacle.Watchdog.Sending.{takes, send_all_iff}
use beacle.Watchdog.Verify.{
  Verdict, Seen, sends, declines, suppresses, look, look_at, is_reachability, is_alive, confirmed,
  check_peer, verify, deliver, pass_on, was_sent,
}
use mathlib.Core.List.{append_assoc, append-nil}

-- The peers that are neither the watcher nor what the alert is about.
abbrev pub bystanders : Config → Text → List Peer
bystanders wc id = filter (λ p. not (text_eq p.id wc.self_id) && not (text_eq p.id id)) wc.peers

-- The last peer listed under an identifier.
abbrev last_with : Text → List Peer → Option Peer → Option Peer
last_with id [] found = found
last_with id (p ∷ ps) found = last_with id ps (if text_eq p.id id then some p else found)

abbrev pub peer_of : Config → Text → Option Peer
peer_of wc id = last_with id wc.peers none

module _ (self_id id : Text) where
  is_bystander : Peer → Bool
  is_bystander p = not (text_eq p.id self_id) && not (text_eq p.id id)

  witnesses-look_at :
      (p : Peer) (s : Seen) (ps : List Peer)
      → (look_at self_id id p s).witnesses ++ filter is_bystander ps
        ≡ s.witnesses ++ filter is_bystander (p ∷ ps)
  unfolding look_at is_bystander
  witnesses-look_at p s ps =
      ground (arith, append_assoc s.witnesses (p ∷ []) (filter is_bystander ps))

  witnesses-look :
      (ps : List Peer) (s : Seen)
      → (look self_id id ps s).witnesses ≡ s.witnesses ++ filter is_bystander ps
  unfolding look
  witnesses-look [] s = sym (append-nil s.witnesses)
  witnesses-look (p ∷ ps) s = witnesses-look ps (look_at self_id id p s) ∙ witnesses-look_at p s ps

  peer-look_at :
      (p : Peer) (s : Seen)
      → text_eq id self_id ≡ false
      → (look_at self_id id p s).peer ≡ (if text_eq p.id id then some p else s.peer)
  unfolding look_at
  peer-look_at p s ne =
      ground (arith, text_eq_iff p.id self_id, text_eq_iff p.id id, text_eq_iff id self_id)

  peer-look :
      (ps : List Peer) (s : Seen)
      → text_eq id self_id ≡ false
      → (look self_id id ps s).peer ≡ last_with id ps s.peer
  unfolding look
  peer-look [] s ne = refl
  peer-look (p ∷ ps) s ne =
      peer-look ps (look_at self_id id p s) ne ∙ ap (last_with id ps) (peer-look_at p s ne)

-- What this watcher's view of the fleet says about an alert of `p`: it may not be judged from here.
abbrev pub is_cut_off : Network → Config → Text → Bool
is_cut_off net wc id = cut_off net (map (reachable net) (bystanders wc id))

module _ (net : Network) (wc : Config) (m : Message) where
  -- `verify` in terms of the peer and the bystanders.
  pub verify-known :
      (p : Peer)
      → is_reachability m ≡ true
      → text_eq m.vps_id wc.self_id ≡ false
      → peer_of wc m.vps_id ≡ some p
      → (self : Text) × (verify net wc m ≡ check_peer net self (bystanders wc m.vps_id) m p)
  unfolding verify is_bystander
  verify-known p h ne found =
      let seen =
        look wc.self_id m.vps_id wc.peers
          (record { self = wc.self_id; peer = none; witnesses = [] }) in
      let is_p =
        peer-look wc.self_id m.vps_id wc.peers
          (record { self = wc.self_id; peer = none; witnesses = [] }) ne
        ∙ found in
      (
        seen.self,
        rw
            (
              h,
              ne,
              is_p,
              witnesses-look wc.self_id m.vps_id wc.peers
                  (record { self = wc.self_id; peer = none; witnesses = [] }),
            )
            refl,
      )

  -- A watcher returns the error that it cannot vouch for an alert about another server's
  -- reachability exactly if that server's agent answers neither of the two tries and the watcher
  -- is cut off: none of the other listed servers answers it, or, if there is none, its own
  -- internet line does not.
  pub verify-declines_iff :
      (p : Peer)
      → is_reachability m ≡ true
      → text_eq m.vps_id wc.self_id ≡ false
      → peer_of wc m.vps_id ≡ some p
      → (verify net wc m ≡ declines cannot_vouch)
        ↔ ((is_alive net p ≡ false) × (is_cut_off net wc m.vps_id ≡ true))
  unfolding check_peer
  verify-declines_iff p h ne found =
      let known = verify-known p h ne found in rw known.1 (ground arith)

  alert-confirmed :
      (self : Text) (p : Peer)
      → (confirmed net self p m).alert ≡ (if host_up net p.host then agent_down else agent_offline)
  unfolding confirmed
  alert-confirmed self p = elim (Bool-cases (host_up net p.host)) [
    | inl e ↦ rw (e, confirmed) refl
    | inr e ↦ rw (e, confirmed) refl
  ]

  checked :
      (self : Text) (ws : List Peer) (p : Peer) (out : Message)
      → check_peer net self ws m p ≡ sends out
      → (is_alive net p ≡ false)
        × (cut_off net (map (reachable net) ws) ≡ false)
        × (out.alert ≡ (if host_up net p.host then agent_down else agent_offline))
  unfolding check_peer
  checked self ws p out e = ground (arith, alert-confirmed self p)

  taken :
      (v : Verdict)
      → (pass_on net wc v ≡ was_sent)
        ↔ ((out : Message) × (v ≡ sends out) × (any (takes net out) wc.webhooks ≡ true))
  unfolding pass_on
  taken (declines x) = ground arith
  taken (suppresses x) = ground arith
  taken (sends out) = (
    λ h. (out, refl, (send_all_iff net out wc.webhooks).0 (ground arith)),
    λ h. ground (arith, h.1, (send_all_iff net h.0 wc.webhooks).1 h.2),
  )

  -- What goes out under an alert about the reachability of a listed server is true as this watcher
  -- sees it: the agent answered neither try, the watcher is not cut off, and the alert says "agent
  -- down" exactly if the host answers and "offline" otherwise.
  pub verify-true :
      (p : Peer) (out : Message)
      → is_reachability m ≡ true
      → text_eq m.vps_id wc.self_id ≡ false
      → peer_of wc m.vps_id ≡ some p
      → verify net wc m ≡ sends out
      → (is_alive net p ≡ false)
        × (is_cut_off net wc m.vps_id ≡ false)
        × (out.alert ≡ (if host_up net p.host then agent_down else agent_offline))
  verify-true p out h ne found e =
      let known = verify-known p h ne found in
      checked known.0 (bystanders wc m.vps_id) p out (sym known.1 ∙ e)

  -- The panel is told that a message was sent exactly if the check lets a message through and one
  -- of the configured webhooks takes it.
  pub deliver-was_sent_iff :
      (deliver net wc m ≡ was_sent)
      ↔ ((out : Message) × (verify net wc m ≡ sends out) × (any (takes net out) wc.webhooks ≡ true))
  unfolding deliver
  deliver-was_sent_iff = taken (verify net wc m)
