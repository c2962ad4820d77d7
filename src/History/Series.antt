-- ===== src/History/Series.antt =====
-- What the operations make of the series of one server (backend/history.go): its samples stand in
-- order, one to a minute.
use beacle.Prelude.{
  ℕ, zero, suc, ◌-◌, ◌≤◌, ◌<◌, ◌==◌, ltb, Bool, true, false, List, [], ◌∷◌, ◌++◌, length, drop,
  filter, All, All-append, All-filter, All-sort_insert, if◌then◌else◌, sort, sort_insert, arith,
  ◌≡◌, refl, ◌∙◌, Bool-cases, inl, inr,
}
use beacle.Registry.AlertRows.{newest}
use beacle.History.{Sample, minute_of, earlier, last_time}

-- Each sample falls in a later minute than all before it.
abbrev pub Ascending : List Sample → Type 0
Ascending [] = Unit
Ascending (s ∷ ss) = All (λ t. minute_of s < minute_of t) ss × Ascending ss

-- A sample of this minute is held.
abbrev pub holds : ℕ → List Sample → Bool
holds k [] = false
holds k (s ∷ ss) = if minute_of s == k then true else holds k ss

-- No two samples share a minute.
abbrev pub OnePerMinute : List Sample → Type 0
OnePerMinute [] = Unit
OnePerMinute (s ∷ ss) = (holds (minute_of s) ss ≡ false) × OnePerMinute ss

minute_mono : (s t : Sample) → s.at ≤ t.at → minute_of s ≤ minute_of t
unfolding minute_of
minute_mono s t h = omega arith

before_of_minute : (s t : Sample) → minute_of s < minute_of t → s.at < t.at
unfolding minute_of
before_of_minute s t h = omega arith

All-lt_trans :
    (s t : Sample) (ss : List Sample)
    → minute_of s < minute_of t
    → All (λ u. minute_of t < minute_of u) ss
    → All (λ u. minute_of s < minute_of u) ss
All-lt_trans s t [] h a = tt
All-lt_trans s t (u ∷ ss) h a = (omega (arith, h, a.0), All-lt_trans s t ss h a.1)

pub sort_insert-Ascending :
    (s : Sample) (ss : List Sample)
    → holds (minute_of s) ss ≡ false
    → Ascending ss
    → Ascending (sort_insert earlier s ss)
unfolding sort_insert earlier
sort_insert-Ascending s [] h a = (tt, tt)
sort_insert-Ascending s (t ∷ ss) h a = elim (Bool-cases (ltb t.at s.at)) [
  | inl before ↦
      let mono = minute_mono t s (ground arith) in
      let lt : minute_of t < minute_of s = ground arith in
      rw before
        (All-sort_insert earlier _ s ss lt a.0, sort_insert-Ascending s ss (ground arith) a.1)
  | inr after ↦
      let mono = minute_mono s t (ground arith) in
      let lt : minute_of s < minute_of t = ground arith in
      rw after ((lt, All-lt_trans s t ss lt a.0), a)
]

pub holds-sort_insert :
    (k : ℕ) (s : Sample) (ss : List Sample) → holds k (sort_insert earlier s ss) ≡ holds k (s ∷ ss)
unfolding sort_insert
holds-sort_insert k s [] = refl
holds-sort_insert k s (t ∷ ss) = ground (arith, holds-sort_insert k s ss)

pub holds-sort : (k : ℕ) (ss : List Sample) → holds k (sort earlier ss) ≡ holds k ss
unfolding sort
holds-sort k [] = refl
holds-sort k (s ∷ ss) = ground (arith, holds-sort k ss, holds-sort_insert k s (sort earlier ss))

-- Sorting by time puts samples of different minutes in ascending order.
pub sort-Ascending : (ss : List Sample) → OnePerMinute ss → Ascending (sort earlier ss)
unfolding sort
sort-Ascending [] h = tt
sort-Ascending (s ∷ ss) h =
    sort_insert-Ascending s (sort earlier ss) (holds-sort (minute_of s) ss ∙ h.0)
      (sort-Ascending ss h.1)

-- A series in order is sorted already.
pub sort-of_Ascending : (ss : List Sample) → Ascending ss → sort earlier ss ≡ ss
unfolding sort sort_insert earlier
sort-of_Ascending [] a = refl
sort-of_Ascending (s ∷ []) a = refl
sort-of_Ascending (s ∷ t ∷ ss) a =
    rw (sort-of_Ascending (t ∷ ss) a.1) (ground (arith, before_of_minute s t a.0.0))

not_held : (k : ℕ) (ss : List Sample) → All (λ u. k < minute_of u) ss → holds k ss ≡ false
not_held k [] h = refl
not_held k (s ∷ ss) h = ground (arith, not_held k ss h.1)

pub Ascending-OnePerMinute : (ss : List Sample) → Ascending ss → OnePerMinute ss
Ascending-OnePerMinute [] a = tt
Ascending-OnePerMinute (s ∷ ss) a = (not_held (minute_of s) ss a.0, Ascending-OnePerMinute ss a.1)

pub drop-Ascending : (n : ℕ) (ss : List Sample) → Ascending ss → Ascending (drop n ss)
drop-Ascending zero ss a = a
drop-Ascending (suc n) [] a = tt
drop-Ascending (suc n) (s ∷ ss) a = drop-Ascending n ss a.1

pub newest-Ascending : (n : ℕ) (ss : List Sample) → Ascending ss → Ascending (newest n ss)
unfolding newest
newest-Ascending n ss a = ground (arith, drop-Ascending (length ss - n) ss a)

pub filter-Ascending :
    (p : Sample → Bool) (ss : List Sample) → Ascending ss → Ascending (filter p ss)
filter-Ascending p [] a = tt
filter-Ascending p (s ∷ ss) a = elim (Bool-cases (p s)) [
  | inl in_it ↦ rw in_it (All-filter _ p ss a.0, filter-Ascending p ss a.1)
  | inr out ↦ rw out (filter-Ascending p ss a.1)
]

-- A sample of a later minute joins the series at its end.
pub append-Ascending :
    (s : Sample) (ss : List Sample)
    → All (λ t. minute_of t < minute_of s) ss
    → Ascending ss
    → Ascending (ss ++ (s ∷ []))
append-Ascending s [] h a = (tt, tt)
append-Ascending s (t ∷ ss) h a =
    (All-append _ ss (s ∷ []) a.0 (h.0, tt), append-Ascending s ss h.1 a.1)

-- The last sample of a series in order is the latest.
pub last_time-latest : (ss : List Sample) → Ascending ss → All (λ t. t.at ≤ last_time ss) ss
last_time-latest [] a = tt
last_time-latest (s ∷ []) a = (omega arith, tt)
last_time-latest (s ∷ t ∷ ss) a =
    let later = last_time-latest (t ∷ ss) a.1 in
    (omega (arith, before_of_minute s t a.0.0, later.0), later)
