-- ===== src/Watchdog/Tests.antt =====
-- A watcher named earth, with the servers mars and venus, while venus is down.
use beacle.Prelude.{
  codes, lookup, minute, true, false, [], ◌∷◌, ◌≡◌, ◌↔◌, refl, sym, subst, any, insert, text_eq,
  some, none, ◌≤◌,
}
use beacle.Alerts.{Message, agent_offline}
use beacle.Watchdog.{
  Target, Peer, Config, Watchdog, Network, count, flag, send_all, reachable, cut_off,
}
use beacle.Watchdog.{host_up, cannot_vouch, send_round}
use beacle.Watchdog.Sending.{send_all_iff, takes}
use beacle.Watchdog.Verify.{verify, declines, is_reachability, is_alive}
use beacle.Watchdog.Verify.Vouch.{verify-declines_iff, is_cut_off}
use beacle.Watchdog.Ticks.{
  tick, unreachable, others, probe_peers, visit_all, visit, visit_up, visit_down, witnesses,
  is_taken, allowed, panel_quiet,
}
use beacle.Watchdog.Streak.{Minute, after, streak, WatchIsOn, count-after}
use beacle.Watchdog.Silence.{unreachable-streak}
use mathlib.Core.List.{Memᴰ}

abbrev earth : Peer
earth = record { id = codes "e"; name = codes "earth"; host = codes "10.0.0.1"; agent_port = 8931 }

abbrev mars : Peer
mars = record { id = codes "m"; name = codes "mars"; host = codes "10.0.0.2"; agent_port = 8931 }

abbrev venus : Peer
venus = record { id = codes "v"; name = codes "venus"; host = codes "10.0.0.3"; agent_port = 8931 }

abbrev target : Target
target = record { id = codes "t"; kind = codes "ntfy"; url = codes "u"; chat_id = [] }

abbrev settings : Config
settings = record {
  enabled = true;
  role = codes "primary";
  self_id = codes "e";
  primary_id = codes "e";
  webhooks = target ∷ [];
  peers = earth ∷ mars ∷ venus ∷ [];
  panel_quiet_min = 0;
}

abbrev watcher : Watchdog
watcher = record {
  cfg = settings;
  down = [];
  announced = [];
  is_isolated = false;
  panel_lost = 0;
  panel_noticed = false;
  file = none;
}

-- Only mars answers.
abbrev venus_down : Network
venus_down = record {
  agent = λ p. text_eq p.id (codes "m");
  agent_again = λ p. text_eq p.id (codes "m");
  host = λ h. false;
  line = true;
  panel = λ p. false;
  post = λ t m. none;
  rounded = λ d. [];
}

-- No server answers, and no webhook either.
abbrev all_down : Network
all_down = record venus_down {
  agent = λ p. false;
  agent_again = λ p. false;
  post = λ t m. some (codes "timeout");
}

abbrev minute_of : Network → Minute
minute_of net = record { net = net; connected = false; now = minute }

-- x
on : WatchIsOn settings
unfolding others text_eq
on = record { enabled = refl; webhooks = refl; distinct = (refl, (refl, tt)) }

venus_listed : Memᴰ venus (others settings)
unfolding others text_eq
venus_listed = Memᴰ.tail (Memᴰ.head refl)

abbrev bad : Minute
bad = minute_of venus_down

abbrev page : Message
page = record {
  title = [];
  body = [];
  severity = [];
  vps_id = codes "v";
  vps_name = [];
  alert = agent_offline;
}

-- Three silent minutes, and then no more notice.
third_tick :
    (tick venus_down false minute (after watcher (bad ∷ bad ∷ []))).1 ≡ unreachable venus 3 ∷ []
unfolding tick probe_peers visit_all visit visit_up visit_down others witnesses cut_off reachable
    host_up count flag lookup insert text_eq is_taken allowed send_all send_round panel_quiet after
third_tick = refl

count-after_example :
    count (codes "v") (after watcher (bad ∷ bad ∷ [])).down ≡ streak settings venus (bad ∷ bad ∷ [])
unfolding count lookup
count-after_example = count-after venus watcher (bad ∷ bad ∷ []) on venus_listed refl

unreachable-streak_example :
    (false ≡ false)
    × Memᴰ venus (others settings)
    × (flag (codes "v") (after watcher (bad ∷ bad ∷ [])).announced ≡ false)
    × (3 ≤ 3)
    × (3 ≡ streak settings venus (bad ∷ bad ∷ bad ∷ []))
unfolding count lookup
unreachable-streak_example =
    unreachable-streak bad (bad ∷ bad ∷ []) watcher venus 3 on (λ p. refl)
      (subst (Memᴰ (unreachable venus 3)) (sym third_tick) (Memᴰ.head refl))

-- The watcher has told about venus, and both minutes find it silent.
abbrev has_told : Watchdog
has_told = record watcher { announced = (codes "v", true) ∷ [] }

verify-declines_iff_example :
    (verify all_down settings page ≡ declines cannot_vouch)
    ↔ ((is_alive all_down venus ≡ false) × (is_cut_off all_down settings (codes "v") ≡ true))
unfolding is_reachability text_eq
verify-declines_iff_example = verify-declines_iff all_down settings page venus refl refl refl

-- The host answers and the agent does not.
abbrev agent_gone : Network
agent_gone = record venus_down { host = λ h. true }

send_all_iff_example :
    (send_all venus_down (target ∷ []) page ≡ none)
    ↔ (any (takes venus_down page) (target ∷ []) ≡ true)
send_all_iff_example = send_all_iff venus_down page (target ∷ [])
