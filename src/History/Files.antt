-- ===== src/History/Files.antt =====
-- What a file gives back after a restart, and what a reader of the history gets
-- (backend/history.go).
use beacle.Prelude.{
  ◌-◌, Time, ltb, not, List, [], ◌∷◌, ◌++◌, map, filter, Option, none, some, sort, arith, ◌≡◌, refl,
  ap, ◌∙◌,
}
use beacle.History.{Sample, earlier, read_lines, load_file, history_retain}
use beacle.History.Series.{Ascending, sort-of_Ascending, filter-Ascending}

read_lines-some :
    (cutoff : Time) (ss : List Sample) (torn : List (Option Sample))
    → read_lines cutoff torn ≡ []
    → read_lines cutoff (map some ss ++ torn) ≡ filter (λ s. not (ltb s.at cutoff)) ss
unfolding read_lines
read_lines-some cutoff [] torn h = h
read_lines-some cutoff (s ∷ ss) torn h = ground (arith, read_lines-some cutoff ss torn h)

-- A file that holds a series in order, and a torn last line after it, gives back the samples of
-- the series that are no older than 14 days, in order.
pub load_file-series :
    (now : Time) (ss : List Sample)
    → Ascending ss
    → load_file now (map some ss ++ (none ∷ []))
      ≡ filter (λ s. not (ltb s.at (now - history_retain))) ss
unfolding load_file
load_file-series now ss a =
    ap (sort earlier)
      (read_lines-some (now - history_retain) ss (none ∷ []) (unfold read_lines in refl))
    ∙ sort-of_Ascending _ (filter-Ascending _ ss a)
