-- ===== src/Rejoin/Tests.antt =====
-- Concrete queues on which the properties of the queue apply.
use beacle.Prelude.{◌*◌, codes, lookup, minute, [], refl, arith, has}
use beacle.Rejoin.{Request, Queue, knock, refuse}
use beacle.Rejoin.Waiting.{QueueIsValid, here, next, knocks, refuses, Reach-QueueIsValid}

abbrev request : Request
request = record {
  ip = codes "100.64.0.7";
  tailnet_name = codes "mars";
  vps_id = codes "a1";
  hostname = codes "mars";
  agent_version = codes "1.0";
  first_seen = 0;
  last_seen = 0;
  token = [];
}

abbrev blank : Queue
blank = record { waiting = []; refused = [] }

blank-IsValid : QueueIsValid blank
unfolding has lookup
blank-IsValid = record { distinct = tt; bounded = omega arith; turned_away = λ ip. refl }

-- The agent knocks, is turned away, and knocks again.
abbrev knocked : Queue
knocked = (knock minute request (codes "t1") blank).1

abbrev turned : Queue
turned = (refuse (codes "100.64.0.7") knocked).1

Reach-QueueIsValid_example : QueueIsValid (knock (2 * minute) request (codes "t1") turned).1
Reach-QueueIsValid_example =
    Reach-QueueIsValid
      (next
        (next (next here (knocks minute request (codes "t1") blank))
          (refuses (codes "100.64.0.7") knocked))
        (knocks (2 * minute) request (codes "t1") turned))
      blank-IsValid
