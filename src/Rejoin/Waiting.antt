-- ===== src/Rejoin/Waiting.antt =====
-- What the queue keeps, whoever knocks (backend/rejoin.go).
use beacle.Prelude.{
  ◌≤◌, Text, Map, lookup, insert, erase, has, has-insert, has-erase, has-keep, lookup-insert,
  Distinct, insert-Distinct, erase-Distinct, keep-Distinct, length-insert, length-erase-le,
  length-keep-le, Time, since, ltb, leb, true, false, not, ◌&&◌, length, Option, none, some,
  text_eq, text_eq_iff, subst, arith, ◌≡◌, refl, Bool-cases, inl, inr,
}
use beacle.Rejoin.{
  Request, Queue, rejoin_max, rejoin_ttl, expire, renew, knock, list, take_request, refuse,
}

-- One request to an address, at most 64 of them, and none of an address that was turned away.
pub record QueueIsValid (q : Queue) : Type 0 where
  pub distinct : Distinct q.waiting
  pub bounded : length q.waiting ≤ rejoin_max
  pub turned_away : (ip : Text) → (has ip q.refused && has ip q.waiting) ≡ false

expire-IsValid : (now : Time) (q : Queue) → QueueIsValid q → QueueIsValid (expire now q)
unfolding expire
expire-IsValid now q v = record {
  distinct = keep-Distinct _ q.waiting v.distinct;
  bounded = ground (
    arith,
    v.bounded,
    length-keep-le (λ r. not (ltb rejoin_ttl (since now r.last_seen))) q.waiting,
  );
  turned_away = λ ip. ground (
    arith,
    v.turned_away ip,
    has-keep (λ r. not (ltb rejoin_ttl (since now r.last_seen))) ip q.waiting,
  );
}

-- A request of an address that was not turned away is filed.
file-IsValid :
    (r : Request) (q : Queue)
    → has r.ip q.refused ≡ false
    → length (insert r.ip r q.waiting) ≤ rejoin_max
    → QueueIsValid q
    → QueueIsValid (record q { waiting = insert r.ip r q.waiting })
file-IsValid r q welcome room v = record {
  distinct = insert-Distinct r.ip r q.waiting v.distinct;
  bounded = room;
  turned_away = λ ip. away ip;
}
  where
    away : (ip : Text) → (has ip q.refused && has ip (insert r.ip r q.waiting)) ≡ false
    away ip = elim (Bool-cases (text_eq r.ip ip)) [
      | inl same ↦
          let other : has ip q.refused ≡ false =
            subst (λ j. has j q.refused ≡ false) ((text_eq_iff r.ip ip).0 same) welcome in
          rw other refl
      | inr there ↦ rw (has-insert, there) (v.turned_away ip)
    ]

not_has : (ip : Text) (m : Map Request) → lookup ip m ≡ none → has ip m ≡ false
unfolding has
not_has ip m e = ground (arith, e)

does_have : (ip : Text) (r : Request) (m : Map Request) → lookup ip m ≡ some r → has ip m ≡ true
unfolding has
does_have ip r m e = ground (arith, e)

renew-IsValid :
    (now : Time) (req : Request) (token : Text) (o : Option Request) (q : Queue)
    → lookup req.ip q.waiting ≡ o
    → has req.ip q.refused ≡ false
    → QueueIsValid q
    → QueueIsValid (renew now req token o q).1
unfolding renew
renew-IsValid now req token (some old) q e w v =
    file-IsValid (record req { token = token; last_seen = now; first_seen = old.first_seen }) q w
      (rw (length-insert, known) v.bounded) v
  where
    known : has req.ip q.waiting ≡ true
    known = does_have req.ip old q.waiting e
renew-IsValid now req token none q e w v = elim (Bool-cases (leb rejoin_max (length q.waiting))) [
  | inl full ↦ rw full v
  | inr room ↦ rw room (
      file-IsValid (record req { token = token; last_seen = now; first_seen = now }) q w
        (rw (length-insert, unknown) (ground arith)) v)
]
  where
    unknown : has req.ip q.waiting ≡ false
    unknown = not_has req.ip q.waiting e

knock-IsValid :
    (now : Time) (req : Request) (token : Text) (q : Queue)
    → QueueIsValid q
    → QueueIsValid (knock now req token q).1
unfolding knock
knock-IsValid now req token q v = elim (Bool-cases (has req.ip q.refused)) [
  | inl away ↦ rw away v
  | inr welcome ↦ rw welcome (
      renew-IsValid now req token _ (expire now q) refl (unfold expire in welcome)
        (expire-IsValid now q v))
]

erase-IsValid :
    (ip : Text) (q : Queue)
    → QueueIsValid q
    → QueueIsValid (record q { waiting = erase ip q.waiting })
erase-IsValid ip q v = record {
  distinct = erase-Distinct ip q.waiting v.distinct;
  bounded = omega (arith, length-erase-le ip q.waiting, v.bounded);
  turned_away = λ j. ground (arith, v.turned_away j, has-erase ip j q.waiting);
}

refuse-IsValid : (ip : Text) (q : Queue) → QueueIsValid q → QueueIsValid (refuse ip q).1
unfolding refuse
refuse-IsValid ip q v = record {
  distinct = erase-Distinct ip q.waiting v.distinct;
  bounded = omega (arith, length-erase-le ip q.waiting, v.bounded);
  turned_away = λ j.
      ground (arith, v.turned_away j, has-erase ip j q.waiting, has-insert ip j true q.refused);
}

-- One operation on the queue.
pub data Step : Queue → Queue → Type 0 where
  knocks :
      (now : Time) (req : Request) (token : Text) (q : Queue) → Step q (knock now req token q).1
  lists : (now : Time) (q : Queue) → Step q (list now q).1
  takes : (ip : Text) (q : Queue) → Step q (take_request ip q).1
  refuses : (ip : Text) (q : Queue) → Step q (refuse ip q).1

-- Any number of operations.
pub data Reach (q : Queue) : Queue → Type 0 where
  here : Reach q q
  next : {r s : Queue} → Reach q r → Step r s → Reach q s

Step-IsValid : {q r : Queue} → Step q r → QueueIsValid q → QueueIsValid r
unfolding list take_request
Step-IsValid (knocks now req token q) v = knock-IsValid now req token q v
Step-IsValid (lists now q) v = expire-IsValid now q v
Step-IsValid (takes ip q) v = erase-IsValid ip q v
Step-IsValid (refuses ip q) v = refuse-IsValid ip q v

-- From a valid queue, whatever knocks, lists, approvals and refusals follow: each address has one
-- request at most, there are at most 64, and an address that was turned away has none.
pub Reach-QueueIsValid : {q r : Queue} → Reach q r → QueueIsValid q → QueueIsValid r
Reach-QueueIsValid here v = v
Reach-QueueIsValid (next r st) v = Step-IsValid st (Reach-QueueIsValid r v)

-- A knock leaves the request of every other address that is still fresh exactly as it was: nobody
-- can crowd out or change the request of another address.
pub knock_others :
    (now : Time) (req : Request) (token ip : Text) (q : Queue)
    → text_eq req.ip ip ≡ false
    → has req.ip q.refused ≡ false
    → lookup ip (knock now req token q).1.waiting ≡ lookup ip (expire now q).waiting
unfolding knock
knock_others now req token ip q other welcome =
    rw welcome (kept (lookup req.ip (expire now q).waiting))
  where
    kept :
        (o : Option Request)
        → lookup ip (renew now req token o (expire now q)).1.waiting
          ≡ lookup ip (expire now q).waiting
    kept (some old) = unfold renew in rw (lookup-insert, other) refl
    kept none = elim (Bool-cases (leb rejoin_max (length (expire now q).waiting))) [
      | inl full ↦ unfold renew in rw full refl
      | inr room ↦ unfold renew in rw room (rw (lookup-insert, other) refl)
    ]
