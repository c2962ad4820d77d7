-- ===== src/Watchdog/Due.antt =====
-- What it takes for one round of probes to report a server, and that a report stands until the
-- server answers (agent/watchdog.go, `probePeers`).
use beacle.Prelude.{
  ℕ, suc, Text, Map, insert, lookup-insert, Bool, true, false, List, [], ◌∷◌, if◌then◌else◌,
  text_eq, arith, ◌≡◌, ◌∙◌, refl, ap, sym, subst, ◌≤◌, Bool-cases, inl, inr,
}
use beacle.Watchdog.{Peer, Config, Watchdog, Network, count, flag, reachable, cut_off}
use beacle.Watchdog.Ticks.{
  Notice, unreachable, again, others, witnesses, visit_up, visit_down, visit, visit_all,
  probe_peers,
}
use beacle.Watchdog.Streak.{DistinctIds, is_listed, down-visit_other, other_id}
use mathlib.Core.List.{Memᴰ}
use mathlib.Core.List.Memᴰ

-- Why a watcher that has these counters and notices says that `q` is unreachable for `n` minutes.
pub record PageIsDue (net : Network) (announce : Bool) (ps : List Peer) (down : Map ℕ)
    (announced : Map Bool) (q : Peer) (n : ℕ) : Type 0 where
  pub listed : Memᴰ q ps
  pub silent : reachable net q ≡ false
  pub announcing : announce ≡ true
  pub long : 3 ≤ n
  pub counted : n ≡ suc (count q.id down)
  pub unsaid : flag q.id announced ≡ false

flag-insert :
    (k j : Text) (b : Bool) (m : Map Bool)
    → flag j (insert k b m) ≡ (if text_eq k j then b else flag j m)
unfolding flag
flag-insert k j b m = ground (arith, lookup-insert k j b m)

subject : Peer → Notice → Peer
subject d (unreachable p n) = p
subject d _ = d

abbrev pub is_page : Notice → Bool
is_page (unreachable p n) = true
is_page _ = false

minutes : Notice → ℕ
minutes (unreachable p n) = n
minutes _ = 0

no_again :
    (b : Bool) (p q : Peer) (n : ℕ) → Memᴰ (unreachable q n) (if b then again p ∷ [] else []) → ⊥
no_again true p q n (Memᴰ.head e) = ground (arith, ap is_page e)
no_again true p q n (Memᴰ.tail m) = Memᴰ.not-nil m
no_again false p q n m = Memᴰ.not-nil m

one_page :
    (c : Bool) (x y : Watchdog) (p q : Peer) (f n : ℕ)
    → Memᴰ
        (unreachable q n)
        (if◌then◌else◌ {A = Watchdog × List Notice} c (x, unreachable p f ∷ []) (y, [])).1
    → (c ≡ true) × (q ≡ p) × (n ≡ f)
unfolding subject minutes
one_page true x y p q f n (Memᴰ.head e) = (refl, ap (subject p) e, ap minutes e)
one_page true x y p q f n (Memᴰ.tail m) = absurd (Memᴰ.not-nil m)
one_page false x y p q f n m = absurd (Memᴰ.not-nil m)

module _ (net : Network) (wc : Config) (announce : Bool) where
  due-visit_down :
      (p : Peer) (w : Watchdog) (q : Peer) (n : ℕ)
      → reachable net p ≡ false
      → Memᴰ (unreachable q n) (visit_down net wc announce p w).1
      → PageIsDue net announce (p ∷ []) w.down w.announced q n
  unfolding visit_down
  due-visit_down p w q n silent m =
      let page = one_page _ _ _ p q (suc (count p.id w.down)) n m in
      record {
        listed = Memᴰ.head page.1;
        silent = ap (reachable net) page.1 ∙ silent;
        announcing = ground (arith, page.0);
        long = ground (arith, page.0, page.2);
        counted = page.2 ∙ ap (λ x. suc (count x.id w.down)) (sym page.1);
        unsaid = ap (λ x. flag x.id w.announced) page.1 ∙ ground (arith, page.0);
      }

  due-visit :
      (p : Peer) (w : Watchdog) (q : Peer) (n : ℕ)
      → Memᴰ (unreachable q n) (visit net wc announce p w).1
      → PageIsDue net announce (p ∷ []) w.down w.announced q n
  unfolding visit visit_up
  due-visit p w q n m = elim (Bool-cases (reachable net p)) [
    | inl e ↦ absurd (
        no_again _ p q n (
          subst
            (λ b.
              Memᴰ (unreachable q n)
                (if b then visit_up net wc announce p w else visit_down net wc announce p w).1)
            e m))
    | inr e ↦ due-visit_down p w q n e (
        subst
          (λ b.
            Memᴰ (unreachable q n)
              (if b then visit_up net wc announce p w else visit_down net wc announce p w).1)
          e m)
  ]

  flag-visit_other :
      (id : Text) (p : Peer) (w : Watchdog)
      → text_eq p.id id ≡ false
      → flag id (visit net wc announce p w).0.announced ≡ flag id w.announced
  unfolding visit visit_up visit_down
  flag-visit_other id p w ne =
      ground
        (arith, ne, flag-insert p.id id false w.announced, flag-insert p.id id true w.announced)

  due-visit_all :
      (ps : List Peer) (w : Watchdog) (q : Peer) (n : ℕ)
      → DistinctIds ps
      → Memᴰ (unreachable q n) (visit_all net wc announce ps w).1
      → PageIsDue net announce ps w.down w.announced q n
  unfolding visit_all
  due-visit_all [] w q n d m = absurd (Memᴰ.not-nil m)
  due-visit_all (p ∷ ps) w q n d m = elim (Memᴰ.append_cases (visit net wc announce p w).1 m) [
    | inl here ↦
        let due = due-visit p w q n here in
        record {
          listed = Memᴰ.append_left ps due.listed;
          silent = due.silent;
          announcing = due.announcing;
          long = due.long;
          counted = due.counted;
          unsaid = due.unsaid;
        }
    | inr later ↦
        let due = due-visit_all ps (visit net wc announce p w).0 q n d.1 later in
        let ne = other_id q p ps due.listed d.0 in
        record {
          listed = Memᴰ.tail due.listed;
          silent = due.silent;
          announcing = due.announcing;
          long = due.long;
          counted = due.counted ∙ ap suc (down-visit_other net wc announce q.id p w ne);
          unsaid = sym (flag-visit_other q.id p w ne) ∙ due.unsaid;
        }
  ]

  -- A notice that went out stands until the server answers.
  flag-visit :
      (p : Peer) (w : Watchdog)
      → reachable net p ≡ false
      → flag p.id w.announced ≡ true
      → flag p.id (visit net wc announce p w).0.announced ≡ true
  unfolding visit visit_down
  flag-visit p w silent said = ground (arith, silent, said)

  flag-visit_absent :
      (id : Text) (ps : List Peer) (w : Watchdog)
      → is_listed id ps ≡ false
      → flag id (visit_all net wc announce ps w).0.announced ≡ flag id w.announced
  unfolding visit_all
  flag-visit_absent id [] w h = refl
  flag-visit_absent id (p ∷ ps) w h =
      flag-visit_absent id ps (visit net wc announce p w).0 (ground arith)
      ∙ flag-visit_other id p w (ground arith)

  flag-visit_all :
      (p : Peer) (ps : List Peer) (w : Watchdog)
      → Memᴰ p ps
      → DistinctIds ps
      → reachable net p ≡ false
      → flag p.id w.announced ≡ true
      → flag p.id (visit_all net wc announce ps w).0.announced ≡ true
  unfolding visit_all
  flag-visit_all p [] w m d silent said = absurd (Memᴰ.not-nil m)
  flag-visit_all p (q ∷ ps) w (Memᴰ.head e) d silent said =
      subst (λ x. flag x.id (visit_all net wc announce (q ∷ ps) w).0.announced ≡ true) (sym e)
        (flag-visit_absent q.id ps (visit net wc announce q w).0 d.0
          ∙ flag-visit q w (sym (ap (reachable net) e) ∙ silent)
              (sym (ap (λ x. flag x.id w.announced) e) ∙ said))
  flag-visit_all p (q ∷ ps) w (Memᴰ.tail m) d silent said =
      flag-visit_all p ps (visit net wc announce q w).0 m d.1 silent
        (flag-visit_other p.id q w (other_id p q ps m d.0) ∙ said)

  pub flag-probe_peers :
      (p : Peer) (w : Watchdog)
      → Memᴰ p (others wc)
      → DistinctIds (others wc)
      → reachable net p ≡ false
      → flag p.id w.announced ≡ true
      → flag p.id (probe_peers net wc announce w).0.announced ≡ true
  unfolding probe_peers
  flag-probe_peers p w m d silent said =
      ground (
        arith,
        said,
        flag-visit_all p (others wc) (record w { is_isolated = false }) m d silent said,
      )

  notices-probe_peers :
      (w : Watchdog)
      → cut_off net (witnesses net wc) ≡ false
      → (probe_peers net wc announce w).1
        ≡ (visit_all net wc announce (others wc) (record w { is_isolated = false })).1
  unfolding probe_peers
  notices-probe_peers w e = ground (arith, e)

  -- A watcher that is cut off sends nothing.
  cut_off-silent :
      (w : Watchdog)
      → cut_off net (witnesses net wc) ≡ true
      → (probe_peers net wc announce w).1 ≡ []
  unfolding probe_peers
  cut_off-silent w e = ground (arith, e)

  pub due-probe_peers :
      (w : Watchdog) (q : Peer) (n : ℕ)
      → DistinctIds (others wc)
      → Memᴰ (unreachable q n) (probe_peers net wc announce w).1
      → PageIsDue net announce (others wc) w.down w.announced q n
        × (cut_off net (witnesses net wc) ≡ false)
  due-probe_peers w q n d m = elim (Bool-cases (cut_off net (witnesses net wc))) [
    | inl e ↦ absurd (Memᴰ.not-nil (subst (Memᴰ (unreachable q n)) (cut_off-silent w e) m))
    | inr e ↦ (
      due-visit_all (others wc) (record w { is_isolated = false }) q n d
          (subst (Memᴰ (unreachable q n)) (notices-probe_peers w e) m),
      e,
    )
  ]
