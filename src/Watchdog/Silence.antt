-- ===== src/Watchdog/Silence.antt =====
-- When a watcher says that a server is unreachable, and that it says so once (agent/watchdog.go,
-- `probePeers`).
use beacle.Prelude.{
  ℕ, suc, Time, Bool, true, false, not, List, [], ◌∷◌, ◌++◌, if◌then◌else◌, arith, ◌≡◌, ◌∙◌, ap,
  sym, subst, ◌≤◌, inl, inr,
}
use beacle.Watchdog.{Peer, Config, Watchdog, Network, count, flag, cut_off}
use beacle.Watchdog.Ticks.{
  Notice, unreachable, panel_gone, panel_here, others, witnesses, probe_peers, panel_back,
  panel_quiet, tick,
}
use beacle.Watchdog.Streak.{Minute, after, streak, WatchIsOn, cfg-after, count-after}
use beacle.Watchdog.Due.{PageIsDue, is_page, due-probe_peers}
use mathlib.Core.List.{Memᴰ}
use mathlib.Core.List.Memᴰ

-- Neither notice about the panel is one about a server.
no_panel_here :
    (b : Bool) (d : ℕ) (q : Peer) (n : ℕ)
    → Memᴰ (unreachable q n) (if b then panel_here d ∷ [] else [])
    → ⊥
no_panel_here true d q n (Memᴰ.head e) = ground (arith, ap is_page e)
no_panel_here true d q n (Memᴰ.tail m) = Memᴰ.not-nil m
no_panel_here false d q n m = Memᴰ.not-nil m

no_panel_gone :
    (c : Bool) (x y : Watchdog) (d : ℕ) (q : Peer) (n : ℕ)
    → Memᴰ
        (unreachable q n)
        (if◌then◌else◌ {A = Watchdog × List Notice} c (x, []) (y, panel_gone d ∷ [])).1
    → ⊥
no_panel_gone false x y d q n (Memᴰ.head e) = ground (arith, ap is_page e)
no_panel_gone false x y d q n (Memᴰ.tail m) = Memᴰ.not-nil m
no_panel_gone true x y d q n m = Memᴰ.not-nil m

module _ (net : Network) where
  no_told :
      (connected : Bool) (wc : Config) (now : Time) (w : Watchdog) (q : Peer) (n : ℕ)
      → Memᴰ (unreachable q n) (if connected then panel_back now w else panel_quiet net wc now w).1
      → ⊥
  unfolding panel_back panel_quiet
  no_told true wc now w q n m = no_panel_here _ _ q n m
  no_told false wc now w q n m = no_panel_gone _ _ _ _ q n m

  told : Bool → Time → Watchdog → Watchdog × List Notice
  told connected now w =
      let probed = probe_peers net w.cfg (not connected) w in
      if connected then panel_back now probed.0 else panel_quiet net w.cfg now probed.0

  notices-tick :
      (connected : Bool) (now : Time) (w : Watchdog)
      → WatchIsOn w.cfg
      → (tick net connected now w).1
        ≡ (probe_peers net w.cfg (not connected) w).1 ++ (told connected now w).1
  unfolding tick told
  notices-tick connected now w on = ground (arith, on.enabled, on.webhooks)

  due-tick :
      (connected : Bool) (now : Time) (w : Watchdog) (q : Peer) (n : ℕ)
      → WatchIsOn w.cfg
      → Memᴰ (unreachable q n) (tick net connected now w).1
      → PageIsDue net (not connected) (others w.cfg) w.down w.announced q n
        × (cut_off net (witnesses net w.cfg) ≡ false)
  unfolding told
  due-tick connected now w q n on m =
      let probed = probe_peers net w.cfg (not connected) w in
      elim (Memᴰ.append_cases probed.1
        (subst (Memᴰ (unreachable q n)) (notices-tick connected now w on) m)) [
          | inl page ↦ due-probe_peers net w.cfg (not connected) w q n on.distinct page
          | inr other ↦ absurd (no_told connected w.cfg now probed.0 q n other)
        ]

on-after : (w : Watchdog) (ts : List Minute) → WatchIsOn w.cfg → WatchIsOn (after w ts).cfg
on-after w ts on = subst WatchIsOn (sym (cfg-after w ts)) on

-- A watcher that is switched on and lists no server twice, and that starts with zero counters,
-- says after a run of ticks that a server is unreachable for `n` minutes only while its tunnel to
-- the panel is down, only if the server is listed and is not marked as reported, and only if the
-- server was silent in each of the last `n` ticks while the watcher was not cut off, with `n` at
-- least 3.
pub unreachable-streak :
    (t : Minute) (ts : List Minute) (w : Watchdog) (q : Peer) (n : ℕ)
    → WatchIsOn w.cfg
    → ((p : Peer) → count p.id w.down ≡ 0)
    → Memᴰ (unreachable q n) (tick t.net t.connected t.now (after w ts)).1
    → (t.connected ≡ false)
      × Memᴰ q (others w.cfg)
      × (flag q.id (after w ts).announced ≡ false)
      × (3 ≤ n)
      × (n ≡ streak w.cfg q (t ∷ ts))
unfolding streak
unreachable-streak t ts w q n on z m =
    let due = due-tick t.net t.connected t.now (after w ts) q n (on-after w ts on) m in
    let listed = subst (λ c. Memᴰ q (others c)) (cfg-after w ts) due.0.listed in
    let online = subst (λ c. cut_off t.net (witnesses t.net c) ≡ false) (cfg-after w ts) due.1 in
    (
      ground (arith, due.0.announcing),
      listed,
      due.0.unsaid,
      due.0.long,
      due.0.counted ∙ rw (online, due.0.silent) (ap suc (count-after q w ts on listed (z q))),
    )
