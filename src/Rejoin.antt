-- ===== src/Rejoin.antt =====
-- The queue of agents that ask to be let back in (backend/rejoin.go). Each operation reads the
-- clock once; the order in which equal first times are listed is one that the source leaves open.
pub mod Waiting
mod Tests
use beacle.Prelude.{
  ℕ, ◌*◌, Text, Map, lookup, insert, erase, keep, values, has, Time, Duration, since, minute, ltb,
  leb, Bool, true, false, not, ◌&&◌, ◌||◌, List, length, Option, none, some, if◌then◌else◌, text_eq,
  sort,
}

abbrev pub rejoin_max : ℕ
rejoin_max = 64

abbrev pub rejoin_ttl : Duration
rejoin_ttl = 3 * minute

-- `rejoinRequest`
pub record Request : Type 0 where
  pub ip : Text
  pub tailnet_name : Text
  pub vps_id : Text
  pub hostname : Text
  pub agent_version : Text
  pub first_seen : Time
  pub last_seen : Time
  pub token : Text

-- `rejoinQueue`
pub record Queue : Type 0 where
  pub waiting : Map Request
  pub refused : Map Bool

-- `expireLocked`
unfoldable pub expire : Time → Queue → Queue
expire now q = record q {
  waiting = keep (λ r. not (ltb rejoin_ttl (since now r.last_seen))) q.waiting;
}

-- A request of an address that has one keeps the time of the first.
unfoldable pub renew : Time → Request → Text → Option Request → Queue → Bool × Queue
renew now req token (some old) q = (
  not (text_eq old.vps_id req.vps_id) || not (text_eq old.hostname req.hostname),
  record q {
    waiting =
        insert req.ip (record req { token = token; last_seen = now; first_seen = old.first_seen })
          q.waiting;
  },
)
renew now req token none q = if leb rejoin_max (length q.waiting) then (false, q) else (
  true,
  record q {
    waiting =
        insert req.ip (record req { token = token; last_seen = now; first_seen = now }) q.waiting;
  },
)

-- `knock`
unfoldable pub knock : Time → Request → Text → Queue → Bool × Queue
knock now req token q =
    let live = expire now q in
    if has req.ip q.refused
    then (false, q)
    else renew now req token (lookup req.ip live.waiting) live

-- `list`
unfoldable pub list : Time → Queue → List Request × Queue
list now q =
    let live = expire now q in
    (sort (λ a b. ltb a.first_seen b.first_seen) (values live.waiting), live)

-- `take`
unfoldable pub take_request : Text → Queue → Option Request × Queue
take_request ip q = (lookup ip q.waiting, record q { waiting = erase ip q.waiting })

-- `refuse`
unfoldable pub refuse : Text → Queue → Bool × Queue
refuse ip q = (
  has ip q.waiting,
  record q { waiting = erase ip q.waiting; refused = insert ip true q.refused },
)
