-- ===== src/History/Reachable.antt =====
-- Every history that recording, backfilling, trimming and forgetting can lead to is in order
-- (backend/history.go).
use beacle.Prelude.{
  ◌==◌, Text, Map, lookup, insert, has, lookup-erase, text_eq, text_eq_refl, text_eq_iff, Distinct,
  insert-Distinct, erase-Distinct, Time, Bool, true, false, List, [], ◌∷◌, length, length-filter-le,
  filter, All-filter, Option, none, some, if◌then◌else◌, arith, ◌≡◌, refl, sym, subst, Bool-cases,
  Option-cases, inl, inr,
}
use beacle.History.{
  Sample, History, list_at, series, rewrite_file, record_sample, backfill, trimmed, trim_series,
  trim, forget,
}
use beacle.History.Series.{filter-Ascending}
use beacle.History.Invariant.{
  SeriesIsValid, HistoryIsValid, keep-valid, rewrite_file-IsValid, record_sample-IsValid,
  backfill-IsValid,
}

forget-IsValid : (v : Text) (h : History) → HistoryIsValid h → HistoryIsValid (forget v h)
unfolding forget series
forget-IsValid v h i = record {
  distinct = erase-Distinct v h.samples i.distinct;
  valid = λ u. elim (Bool-cases (text_eq v u)) [
    | inl here ↦
        rw (lookup-erase, lookup-erase, here)
          (record { ascending = tt; bounded = omega arith; covered = refl })
    | inr there ↦ rw (lookup-erase, lookup-erase, there) (i.valid u)
  ];
}

-- A series that is cut by its age is still in order.
filter-valid :
    (p : Sample → Bool) (last : Option Time) (ss : List Sample)
    → SeriesIsValid last ss
    → SeriesIsValid last (filter p ss)
filter-valid p none ss s =
    rw s.covered (record { ascending = tt; bounded = omega arith; covered = refl })
filter-valid p (some t) ss s = record {
  ascending = filter-Ascending p ss s.ascending;
  bounded = omega (arith, length-filter-le p ss, s.bounded);
  covered = All-filter _ p ss s.covered;
}

last_at-rewrite_file :
    (v : Text) (ss : List Sample) (h : History) → (rewrite_file v ss h).last_at ≡ h.last_at
unfolding rewrite_file
last_at-rewrite_file v ss h = ground arith

-- The rows of a map whose servers all have valid series.
abbrev RowsValid : Map Time → Map (List Sample) → Type 0
RowsValid last_at [] = Unit
RowsValid last_at ((v, ss) ∷ m) = SeriesIsValid (lookup v last_at) ss × RowsValid last_at m

empty-valid : (o : Option Time) → SeriesIsValid o []
empty-valid none = record { ascending = tt; bounded = omega arith; covered = refl }
empty-valid (some t) = record { ascending = tt; bounded = omega arith; covered = tt }

rows-valid :
    (last_at : Map Time) (m : Map (List Sample))
    → Distinct m
    → ((v : Text) → SeriesIsValid (lookup v last_at) (list_at (lookup v m)))
    → RowsValid last_at m
unfolding lookup has
rows-valid last_at [] d f = tt
rows-valid last_at ((v, ss) ∷ m) d f = (
  rw text_eq_refl at (f v),
  rows-valid last_at m d.1 (λ u. elim (Bool-cases (text_eq v u)) [
    | inl here ↦ rw (gone u here) (empty-valid (lookup u last_at))
    | inr there ↦ rw there at (f u)
  ]),
)
  where
    gone : (u : Text) → text_eq v u ≡ true → lookup u m ≡ none
    gone u here = elim (Option-cases (lookup u m)) [
      | inl e ↦ e
      | inr (x, e) ↦ absurd (cc (d.0, (text_eq_iff v u).0 here, e))
    ]

trim_series-IsValid :
    (now : Time) (rows : Map (List Sample)) (h : History)
    → RowsValid h.last_at rows
    → HistoryIsValid h
    → HistoryIsValid (trim_series now rows h)
unfolding trim_series series
trim_series-IsValid now [] h r i = i
trim_series-IsValid now ((v, all) ∷ rows) h r i =
    elim (length (trimmed now all) == length all)
      as (λ b. HistoryIsValid (trim_series now rows (if b then h else cut))) [
        | true ↦ trim_series-IsValid now rows h r.1 i
        | false ↦ trim_series-IsValid now rows cut (same r.1) (
            rewrite_file-IsValid v (trimmed now all) _ (record {
              distinct = insert-Distinct v (trimmed now all) h.samples i.distinct;
              valid = λ u.
                  keep-valid v u (trimmed now all) h
                    (unfold trimmed in filter-valid _ (lookup v h.last_at) all r.0) i;
            }))
      ]
  where
    cut : History
    cut =
        rewrite_file v (trimmed now all)
          (record h { samples = insert v (trimmed now all) h.samples })

    same : RowsValid h.last_at rows → RowsValid cut.last_at rows
    same k =
        subst (λ t. RowsValid t rows)
          (sym (
            last_at-rewrite_file v (trimmed now all)
              (record h { samples = insert v (trimmed now all) h.samples })))
          k

-- One change of the history.
pub data Step : History → History → Type 0 where
  records : (v : Text) (s : Sample) (h : History) → Step h (record_sample v s h).1
  backfills :
      (now : Time) (v : Text) (samples : List Sample) (h : History)
      → Step h (backfill now v samples h).1
  trims : (now : Time) (h : History) → Step h (trim now h)
  forgets : (v : Text) (h : History) → Step h (forget v h)

-- Any number of changes.
pub data Reach (h : History) : History → Type 0 where
  here : Reach h h
  next : {g k : History} → Reach h g → Step g k → Reach h k

trim-IsValid : (now : Time) (h : History) → HistoryIsValid h → HistoryIsValid (trim now h)
unfolding trim series
trim-IsValid now h i =
    trim_series-IsValid now h.samples h (rows-valid h.last_at h.samples i.distinct i.valid) i

Step-IsValid : {h g : History} → Step h g → HistoryIsValid h → HistoryIsValid g
Step-IsValid (records v s h) i = record_sample-IsValid v s h i
Step-IsValid (backfills now v samples h) i = backfill-IsValid now v samples h i
Step-IsValid (trims now h) i = trim-IsValid now h i
Step-IsValid (forgets v h) i = forget-IsValid v h i

-- From a valid history, every sequence of recordings, backfills, trims and removals leads to a
-- valid one: the samples of each server stand in order, in different minutes, are at most 43200,
-- and none is later than the time noted as the server's last.
pub Reach-HistoryIsValid : {h g : History} → Reach h g → HistoryIsValid h → HistoryIsValid g
Reach-HistoryIsValid here i = i
Reach-HistoryIsValid (next r st) i = Step-IsValid st (Reach-HistoryIsValid r i)
