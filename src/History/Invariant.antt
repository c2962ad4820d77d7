-- ===== src/History/Invariant.antt =====
-- What the operations of the history keep of every server (backend/history.go).
use beacle.Prelude.{
  ℕ, ◌+◌, ◌-◌, ◌≤◌, ◌<◌, ◌==◌, Text, lookup, insert, lookup-insert, text_eq, text_eq_iff, Distinct,
  insert-Distinct, Time, minute, ltb, true, false, List, [], ◌∷◌, ◌++◌, map, length, length-drop,
  length-sort, All, All-map, All-append, All-drop, All-sort, Option, none, some, if◌then◌else◌,
  sort, arith, ◌≡◌, refl, subst, Bool-cases, inl, inr,
}
use beacle.Registry.AlertRows.{newest}
use beacle.Registry.Invariant.{length-newest}
use beacle.History.{
  Sample, History, list_at, time_at, series, minute_of, is_usable, is_too_soon, earlier, absorb,
  rewrite_file, last_time, record_sample, backfill, max_samples,
}
use beacle.History.Series.{
  Ascending, sort-Ascending, Ascending-OnePerMinute, append-Ascending, newest-Ascending,
  last_time-latest,
}
use beacle.History.Absorb.{All-absorb, absorb-OnePerMinute, minutes-Agree, length-absorb}

-- No sample is later than the time noted as the last; a server without one has no samples.
abbrev pub Covered : Option Time → List Sample → Type 0
Covered none ss = ss ≡ []
Covered (some t) ss = All (λ s. s.at ≤ t) ss

pub record SeriesIsValid (last : Option Time) (ss : List Sample) : Type 0 where
  pub ascending : Ascending ss
  pub bounded : length ss ≤ max_samples
  pub covered : Covered last ss

pub record HistoryIsValid (h : History) : Type 0 where
  pub distinct : Distinct h.samples
  pub valid : (v : Text) → SeriesIsValid (lookup v h.last_at) (series v h)

-- A series that is due a sample, and what it is then.
newest-All : (P : Sample → Type 0) (n : ℕ) (ss : List Sample) → All P ss → All P (newest n ss)
unfolding newest
newest-All P n ss a = ground (arith, All-drop P (length ss - n) ss a)

minute_later :
    (s t : Sample) (last : Time) → t.at ≤ last → last + minute ≤ s.at → minute_of t < minute_of s
unfolding minute_of
minute_later s t last h k = omega arith

record-valid :
    (last : Option Time) (s : Sample) (ss : List Sample)
    → is_too_soon last s ≡ false
    → SeriesIsValid last ss
    → SeriesIsValid (some s.at) (newest max_samples (ss ++ (s ∷ [])))
unfolding is_too_soon
record-valid none s ss due v = rw v.covered (record {
  ascending = newest-Ascending max_samples (s ∷ []) (tt, tt);
  bounded = length-newest max_samples (s ∷ []);
  covered = newest-All _ max_samples (s ∷ []) (omega arith, tt);
})
record-valid (some last) s ss due v = record {
  ascending = newest-Ascending max_samples _ (
      append-Ascending s ss (All-map (λ t e. minute_later s t last e (ground arith)) ss v.covered)
        v.ascending);
  bounded = length-newest max_samples _;
  covered = newest-All _ max_samples _ (
      All-append _ ss (s ∷ []) (All-map (λ t e. omega (arith, e, late)) ss v.covered)
        (omega arith, tt));
}
  where
    late : last ≤ s.at
    late = ground arith

-- A valid series is filed for one server: every server's series is valid.
file-valid :
    (v w : Text) (t : Time) (ss : List Sample) (h : History)
    → SeriesIsValid (some t) ss
    → HistoryIsValid h
    → SeriesIsValid (lookup w (insert v t h.last_at)) (list_at (lookup w (insert v ss h.samples)))
unfolding series
file-valid v w t ss h s i = elim (Bool-cases (text_eq v w)) [
  | inl here ↦ rw (lookup-insert, lookup-insert, here) s
  | inr there ↦ rw (lookup-insert, lookup-insert, there) (i.valid w)
]

pub record_sample-IsValid :
    (v : Text) (s : Sample) (h : History)
    → HistoryIsValid h
    → HistoryIsValid (record_sample v s h).1
unfolding record_sample series
record_sample-IsValid v s h i = elim (Bool-cases (is_too_soon (lookup v h.last_at) s)) [
  | inl soon ↦ rw soon i
  | inr due ↦
      let made = record-valid (lookup v h.last_at) s (series v h) due (i.valid v) in
      let distinct =
        insert-Distinct v (newest max_samples (series v h ++ (s ∷ []))) h.samples i.distinct in
      elim (Bool-cases h.writable) [
        | inl w ↦
            rw (due, w)
              (record { distinct = distinct; valid = λ u. file-valid v u s.at _ h made i })
        | inr w ↦
            rw (due, w)
              (record { distinct = distinct; valid = λ u. file-valid v u s.at _ h made i })
      ]
]

pub keep-valid :
    (v w : Text) (ss : List Sample) (h : History)
    → SeriesIsValid (lookup v h.last_at) ss
    → HistoryIsValid h
    → SeriesIsValid (lookup w h.last_at) (list_at (lookup w (insert v ss h.samples)))
unfolding series
keep-valid v w ss h s i = elim (Bool-cases (text_eq v w)) [
  | inl here ↦
      rw (lookup-insert, here)
        (subst (λ u. SeriesIsValid (lookup u h.last_at) ss) ((text_eq_iff v w).0 here) s)
  | inr there ↦ rw (lookup-insert, there) (i.valid w)
]

-- A backfill takes only samples with a time.
usable_positive : (now : Time) (s : Sample) → is_usable now s ≡ true → 0 < s.at
unfolding is_usable
usable_positive now s u = ground arith

positive_last :
    (ss : List Sample) (n : ℕ)
    → All (λ s. 0 < s.at) ss
    → All (λ s. s.at ≤ n) ss
    → 0 < length ss
    → 0 < n
positive_last [] n p l h = omega (arith, h)
positive_last (s ∷ ss) n p l h = omega (arith, p.0, l.0)

some_new : (n : ℕ) → (n == 0) ≡ false → 0 < n
some_new n h = ground arith

newest-positive : (ss : List Sample) → 0 < length ss → 0 < length (newest max_samples ss)
unfolding newest
newest-positive ss h = ground (arith, length-drop (length ss - max_samples) ss)

pub rewrite_file-IsValid :
    (v : Text) (ss : List Sample) (h : History)
    → HistoryIsValid h
    → HistoryIsValid (rewrite_file v ss h)
unfolding rewrite_file series
rewrite_file-IsValid v ss h i =
    elim h.writable
      as (λ b.
        HistoryIsValid (if b then record h { files = insert v (map some ss) h.files } else h)) [
          | true ↦ record { distinct = i.distinct; valid = i.valid }
          | false ↦ i
        ]

module _ (now : Time) (v : Text) (samples : List Sample) (h : History) (i : HistoryIsValid h) where
  ex : List Sample
  ex = series v h

  merged : List Sample × ℕ
  merged = absorb now samples (map minute_of ex) ex 0

  kept : List Sample
  kept = newest max_samples (sort earlier merged.0)

  kept-Ascending : Ascending kept
  unfolding kept merged ex
  kept-Ascending = newest-Ascending max_samples _ (
      sort-Ascending merged.0 (
        absorb-OnePerMinute now samples _ ex 0 (minutes-Agree ex)
          (Ascending-OnePerMinute ex (i.valid v).ascending)))

  kept-valid : (last : Option Time) → Covered last kept → SeriesIsValid last kept
  unfolding kept
  kept-valid last c = record {
    ascending = kept-Ascending;
    bounded = length-newest max_samples _;
    covered = c;
  }

  -- Some time is noted if the new series ends no later than what is noted.
  noted :
      (o : Option Time)
      → lookup v h.last_at ≡ o
      → (merged.1 == 0) ≡ false
      → ltb (time_at o) (last_time kept) ≡ false
      → Covered o kept
  unfolding kept merged ex
  noted (some t) e new late =
      All-map (λ s b. ground (arith, b)) kept (last_time-latest kept kept-Ascending)
  noted none e new late = absurd (ground (arith, positive))
    where
      no_series : ex ≡ []
      no_series = subst (λ o. Covered o (series v h)) e (i.valid v).covered

      all_positive : All (λ s. 0 < s.at) merged.0
      all_positive =
          All-absorb _ now samples (map minute_of ex) ex 0 (usable_positive now) (rw no_series tt)

      some_kept : 0 < length kept
      some_kept = newest-positive (sort earlier merged.0) (
          omega (
            arith,
            length-sort earlier merged.0,
            length-absorb now samples (map minute_of ex) ex 0,
            some_new merged.1 new,
          ))

      positive : 0 < last_time kept
      positive =
          positive_last kept (last_time kept)
            (newest-All _ max_samples _ (All-sort earlier _ merged.0 all_positive))
            (last_time-latest kept kept-Ascending) some_kept

  pub backfill-IsValid : HistoryIsValid (backfill now v samples h).1
  unfolding backfill kept merged ex series lookup
  backfill-IsValid = elim (Bool-cases (merged.1 == 0)) [
    | inl none_new ↦ rw none_new i
    | inr new ↦ rw new (
        rewrite_file-IsValid v kept _
          (elim (Bool-cases (ltb (time_at (lookup v h.last_at)) (last_time kept))) [
            | inl later ↦ rw later (record {
              distinct = distinct;
              valid = λ u.
                  file-valid v u (last_time kept) kept h
                    (kept-valid (some (last_time kept)) (last_time-latest kept kept-Ascending)) i;
            })
            | inr late ↦ rw late (record {
              distinct = distinct;
              valid = λ u.
                  keep-valid v u kept h
                    (kept-valid (lookup v h.last_at) (noted (lookup v h.last_at) refl new late)) i;
            })
          ]))
  ]
    where
      distinct : Distinct (insert v kept h.samples)
      distinct = insert-Distinct v kept h.samples i.distinct
