-- ===== src/History/Backfill.antt =====
-- What `Backfill` makes of the series of one server (backend/history.go).
use beacle.Prelude.{
  ℕ, ◌+◌, ◌≤◌, ◌==◌, Text, lookup-insert, text_eq_refl, Time, true, false, not, ◌&&◌, List, [], ◌∷◌,
  map, length, length-sort, All, All-map, if◌then◌else◌, sort, arith, ◌≡◌, refl, sym, ap, ◌∙◌,
  Bool-cases, inl, inr, ==_iff,
}
use beacle.Registry.AlertRows.{newest}
use beacle.History.{
  Sample, History, series, minute_of, is_usable, earlier, absorb, rewrite_file, backfill,
  max_samples,
}
use beacle.History.Series.{
  holds, Ascending, Ascending-OnePerMinute, sort-Ascending, newest-Ascending, holds-sort,
}
use beacle.History.Absorb.{
  minutes-Agree, offers, absorb-OnePerMinute, holds-absorb, absorb-none, absorb-unchanged,
  length-absorb, added-absorb-le,
}

newest-all : (n : ℕ) (ss : List Sample) → length ss ≤ n → newest n ss ≡ ss
unfolding newest
newest-all n ss h = ground arith

series-rewrite_file :
    (v : Text) (ss : List Sample) (h : History) → (rewrite_file v ss h).samples ≡ h.samples
unfolding rewrite_file
series-rewrite_file v ss h = ground arith

module _ (now : Time) (v : Text) (samples : List Sample) (h : History) where
  ex : List Sample
  ex = series v h

  merged : List Sample × ℕ
  merged = absorb now samples (map minute_of ex) ex 0

  series-backfill :
      series v (backfill now v samples h).1
      ≡ (if merged.1 == 0 then ex else newest max_samples (sort earlier merged.0))
  unfolding backfill series merged ex
  series-backfill = elim (Bool-cases (merged.1 == 0)) [
    | inl none_new ↦ rw none_new refl
    | inr new ↦ rw new (rw series-rewrite_file (rw (lookup-insert, text_eq_refl)))
  ]

  -- A backfill keeps the series of its server in order, one sample to a minute.
  pub backfill-Ascending :
      Ascending (series v h) → Ascending (series v (backfill now v samples h).1)
  unfolding merged ex
  backfill-Ascending a = elim (Bool-cases (merged.1 == 0)) [
    | inl none_new ↦ rw series-backfill (rw none_new a)
    | inr new ↦ rw series-backfill (
        rw new (
          newest-Ascending max_samples _ (
            sort-Ascending merged.0 (
              absorb-OnePerMinute now samples _ ex 0 (minutes-Agree ex)
                (Ascending-OnePerMinute ex a)))))
  ]

  -- If the server's series has room for the samples: afterwards it holds a sample of a minute
  -- exactly if it did before or one of the samples is usable and falls in that minute.
  pub holds-backfill :
      (k : ℕ)
      → length (series v h) + length samples ≤ max_samples
      → holds k (series v (backfill now v samples h).1)
        ≡ (if holds k (series v h) then true else offers now k samples)
  unfolding merged ex
  holds-backfill k room = elim (Bool-cases (merged.1 == 0)) [
    | inl none_new ↦ rw series-backfill (
        rw none_new (
          ap (holds k)
            (sym (absorb-unchanged now samples (map minute_of ex) ex 0 ((==_iff _ _).0 none_new)))
          ∙ after))
    | inr new ↦
        rw series-backfill
          (rw new (ap (holds k) (newest-all max_samples _ fits) ∙ holds-sort k merged.0 ∙ after))
  ]
    where
      after : holds k merged.0 ≡ (if holds k ex then true else offers now k samples)
      after = holds-absorb now k samples (map minute_of ex) ex 0 (minutes-Agree ex)

      fits : length (sort earlier merged.0) ≤ max_samples
      fits = omega (
        arith,
        length-sort earlier merged.0,
        length-absorb now samples (map minute_of ex) ex 0,
        added-absorb-le now samples (map minute_of ex) ex 0,
        room,
      )

-- Each usable one of these samples is offered in its own minute.
offers_self :
    (now : Time) (ss : List Sample)
    → All (λ s. (is_usable now s && not (offers now (minute_of s) ss)) ≡ false) ss
offers_self now [] = tt
offers_self now (s ∷ ss) = (
  ground (arith, ==_iff (minute_of s) (minute_of s)),
  All-map (λ t h. ground (arith, h)) ss (offers_self now ss),
)

-- If the server's series has room for the samples, sending them a second time at the same moment
-- adds nothing and changes nothing.
pub backfill_twice :
    (now : Time) (v : Text) (samples : List Sample) (h : History)
    → length (series v h) + length samples ≤ max_samples
    → let t = (backfill now v samples h).1 in backfill now v samples t ≡ (0, t)
unfolding backfill
backfill_twice now v samples h room =
    let t = (backfill now v samples h).1 in
    let taken =
      All-map
        (λ s o. ground (
          arith,
          o,
          minutes-Agree (series v t) (minute_of s),
          holds-backfill now v samples h (minute_of s) room,
        ))
        samples (offers_self now samples) in
    let none_new = absorb-none now samples (map minute_of (series v t)) (series v t) 0 taken in
    rw none_new refl
