-- ===== src/Watchdog/Streak.antt =====
-- How a watcher counts failures over a run of ticks (agent/watchdog.go, `probePeers`).
use beacle.Prelude.{
  is_named, Unique, ℕ, suc, Text, Time, lookup, lookup-insert, Bool, true, false, not, List, [],
  ◌∷◌, ◌++◌, any, is_nil, Option, none, some, if◌then◌else◌, text_eq, text_eq_refl, text_eq_iff,
  arith, ◌≡◌, ◌∙◌, refl, ap, sym, subst,
}
use beacle.Watchdog.{Peer, Config, Watchdog, Network, count, reachable, cut_off}
use beacle.Watchdog.Ticks.{
  others, witnesses, visit_up, visit_down, visit, visit_all, probe_peers, panel_back, panel_quiet,
  tick,
}
use mathlib.Core.List.{Memᴰ}
use mathlib.Core.List.Memᴰ

-- One tick's input.
pub record Minute : Type 0 where
  pub net : Network
  pub connected : Bool
  pub now : Time

-- The watcher after a run of ticks, the newest first.
unfoldable pub after : Watchdog → List Minute → Watchdog
after w [] = w
after w (t ∷ ts) = (tick t.net t.connected t.now (after w ts)).0

-- The ticks in a row, up to the newest, in which the peer did not answer a watcher that some
-- server answered.
unfoldable pub streak : Config → Peer → List Minute → ℕ
streak wc p [] = 0
streak wc p (t ∷ ts) =
    if cut_off t.net (witnesses t.net wc)
    then 0
    else if reachable t.net p
    then 0
    else suc (streak wc p ts)

abbrev pub is_listed : Text → List Peer → Bool
is_listed id ps = is_named (λ p. p.id) id ps

-- No identifier is listed twice.
abbrev pub DistinctIds : List Peer → Type 0
DistinctIds ps = Unique (λ p. p.id) ps

-- A watcher that is switched on, with webhooks and with its servers listed once.
pub record WatchIsOn (wc : Config) : Type 0 where
  pub enabled : wc.enabled ≡ true
  pub webhooks : is_nil wc.webhooks ≡ false
  pub distinct : DistinctIds (others wc)

pub count-insert :
    (k j : Text) (n : ℕ) (m : _)
    → count j (beacle.Prelude.insert k n m) ≡ (if text_eq k j then n else count j m)
unfolding count
count-insert k j n m = ground (arith, lookup-insert k j n m)

-- Another identifier than that of a listed server.
pub other_id :
    (p q : Peer) (ps : List Peer)
    → Memᴰ p ps
    → is_listed q.id ps ≡ false
    → text_eq q.id p.id ≡ false
other_id p q [] m h = absurd (Memᴰ.not-nil m)
other_id p q (x ∷ ps) (Memᴰ.head e) h =
    subst (λ y. text_eq q.id y.id ≡ false) (sym e)
      (ground (arith, text_eq_iff x.id q.id, text_eq_iff q.id x.id))
other_id p q (x ∷ ps) (Memᴰ.tail m) h = other_id p q ps m (ground arith)

module _ (net : Network) (wc : Config) (announce : Bool) where
  down-visit :
      (id : Text) (p : Peer) (w : Watchdog)
      → count id (visit net wc announce p w).0.down ≡ (
          if text_eq p.id id
          then (if reachable net p then 0 else suc (count p.id w.down))
          else count id w.down)
  unfolding visit visit_up visit_down
  down-visit id p w =
      ground (
        arith,
        count-insert p.id id 0 w.down,
        count-insert p.id id (suc (count p.id w.down)) w.down,
      )

  pub down-visit_other :
      (id : Text) (p : Peer) (w : Watchdog)
      → text_eq p.id id ≡ false
      → count id (visit net wc announce p w).0.down ≡ count id w.down
  down-visit_other id p w ne = down-visit id p w ∙ rw ne refl

  down-visit_same :
      (p : Peer) (w : Watchdog)
      → count p.id (visit net wc announce p w).0.down
        ≡ (if reachable net p then 0 else suc (count p.id w.down))
  down-visit_same p w = down-visit p.id p w ∙ rw (text_eq_refl p.id) refl

  down-visit_all_absent :
      (id : Text) (ps : List Peer) (w : Watchdog)
      → is_listed id ps ≡ false
      → count id (visit_all net wc announce ps w).0.down ≡ count id w.down
  unfolding visit_all
  down-visit_all_absent id [] w h = refl
  down-visit_all_absent id (p ∷ ps) w h =
      down-visit_all_absent id ps (visit net wc announce p w).0 (ground arith)
      ∙ down-visit_other id p w (ground arith)

  down-visit_all :
      (p : Peer) (ps : List Peer) (w : Watchdog)
      → Memᴰ p ps
      → DistinctIds ps
      → count p.id (visit_all net wc announce ps w).0.down
        ≡ (if reachable net p then 0 else suc (count p.id w.down))
  unfolding visit_all
  down-visit_all p [] w m d = absurd (Memᴰ.not-nil m)
  down-visit_all p (q ∷ ps) w (Memᴰ.head e) d =
      subst
        (λ x.
          count x.id (visit_all net wc announce (q ∷ ps) w).0.down
          ≡ (if reachable net x then 0 else suc (count x.id w.down)))
        (sym e)
        (down-visit_all_absent q.id ps (visit net wc announce q w).0 d.0 ∙ down-visit_same q w)
  down-visit_all p (q ∷ ps) w (Memᴰ.tail m) d =
      down-visit_all p ps (visit net wc announce q w).0 m d.1
      ∙ ap (λ n. if reachable net p then 0 else suc n)
          (down-visit_other p.id q w (other_id p q ps m d.0))

  cfg-visit : (p : Peer) (w : Watchdog) → (visit net wc announce p w).0.cfg ≡ w.cfg
  unfolding visit visit_up visit_down
  cfg-visit p w = ground arith

  cfg-visit_all : (ps : List Peer) (w : Watchdog) → (visit_all net wc announce ps w).0.cfg ≡ w.cfg
  unfolding visit_all
  cfg-visit_all [] w = refl
  cfg-visit_all (p ∷ ps) w = cfg-visit_all ps (visit net wc announce p w).0 ∙ cfg-visit p w

  down-probe_peers :
      (p : Peer) (w : Watchdog)
      → Memᴰ p (others wc)
      → DistinctIds (others wc)
      → count p.id (probe_peers net wc announce w).0.down ≡ (
          if cut_off net (witnesses net wc)
          then 0
          else if reachable net p
          then 0
          else suc (count p.id w.down))
  unfolding probe_peers count lookup
  down-probe_peers p w m d =
      ground (arith, down-visit_all p (others wc) (record w { is_isolated = false }) m d)

  cfg-probe_peers : (w : Watchdog) → (probe_peers net wc announce w).0.cfg ≡ w.cfg
  unfolding probe_peers
  cfg-probe_peers w = ground (arith, cfg-visit_all (others wc) (record w { is_isolated = false }))

-- What follows the probing keeps the counters and the settings.
down-panel_back : (now : Time) (w : Watchdog) → (panel_back now w).0.down ≡ w.down
unfolding panel_back
down-panel_back now w = refl

module _ (net : Network) where
  down-panel_quiet :
      (wc : Config) (now : Time) (w : Watchdog) → (panel_quiet net wc now w).0.down ≡ w.down
  unfolding panel_quiet
  down-panel_quiet wc now w = ground arith

  cfg-panel_quiet :
      (wc : Config) (now : Time) (w : Watchdog) → (panel_quiet net wc now w).0.cfg ≡ w.cfg
  unfolding panel_quiet
  cfg-panel_quiet wc now w = ground arith

  cfg-tick :
      (connected : Bool) (now : Time) (w : Watchdog) → (tick net connected now w).0.cfg ≡ w.cfg
  unfolding tick panel_back
  cfg-tick connected now w = ground (
    arith,
    cfg-probe_peers net w.cfg (not connected) w,
    cfg-panel_quiet w.cfg now (probe_peers net w.cfg (not connected) w).0,
  )

  down-tick :
      (connected : Bool) (now : Time) (w : Watchdog)
      → WatchIsOn w.cfg
      → (tick net connected now w).0.down ≡ (probe_peers net w.cfg (not connected) w).0.down
  unfolding tick panel_back
  down-tick connected now w on = ground (
    arith,
    on.enabled,
    on.webhooks,
    down-panel_quiet w.cfg now (probe_peers net w.cfg (not connected) w).0,
  )

pub cfg-after : (w : Watchdog) (ts : List Minute) → (after w ts).cfg ≡ w.cfg
unfolding after
cfg-after w [] = refl
cfg-after w (t ∷ ts) = cfg-tick t.net t.connected t.now (after w ts) ∙ cfg-after w ts

-- One tick continues a streak, or ends it.
count-tick :
    (p : Peer) (t : Minute) (w : Watchdog)
    → WatchIsOn w.cfg
    → Memᴰ p (others w.cfg)
    → count p.id (tick t.net t.connected t.now w).0.down ≡ (
        if cut_off t.net (witnesses t.net w.cfg)
        then 0
        else if reachable t.net p
        then 0
        else suc (count p.id w.down))
count-tick p t w on m =
    ap (count p.id) (down-tick t.net t.connected t.now w on)
    ∙ down-probe_peers t.net w.cfg (not t.connected) p w m on.distinct

-- For a watcher that is switched on, has webhooks and lists no server twice, the counter of a
-- listed server is, after every run of ticks that starts from a zero counter, the number of ticks
-- in a row up to the last in which that server was silent while the watcher was not cut off.
pub count-after :
    (p : Peer) (w : Watchdog) (ts : List Minute)
    → WatchIsOn w.cfg
    → Memᴰ p (others w.cfg)
    → count p.id w.down ≡ 0
    → count p.id (after w ts).down ≡ streak w.cfg p ts
unfolding after streak
count-after p w [] on m z = z
count-after p w (t ∷ ts) on m z =
    subst
      (λ c.
        WatchIsOn c
        → Memᴰ p (others c)
        → count p.id (tick t.net t.connected t.now (after w ts)).0.down ≡ (
            if cut_off t.net (witnesses t.net c)
            then 0
            else if reachable t.net p
            then 0
            else suc (count p.id (after w ts).down)))
      (cfg-after w ts) (count-tick p t (after w ts)) on m
    ∙ rw (count-after p w ts on m z) refl
