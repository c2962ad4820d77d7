-- ===== src/History/Tests.antt =====
-- Concrete histories on which the properties of the history apply.
use beacle.Prelude.{
  ℕ, ◌*◌, Text, codes, lookup, minute, hour, true, List, [], ◌∷◌, map, sort, sort_insert, insert,
  arith, ◌≡◌, refl, text_eq,
}
use beacle.Prelude.Ints.{pos}
use beacle.Registry.AlertRows.{newest}
use beacle.History.{
  absorb, is_usable, earlier, rewrite_file, Sample, History, series, minute_of, record_sample,
  backfill, trim,
}
use beacle.History.Series.{Ascending}
use beacle.History.Backfill.{backfill_twice}
use beacle.History.Invariant.{HistoryIsValid}
use beacle.History.Reachable.{here, next, records, trims, Reach-HistoryIsValid}

abbrev at_minute : ℕ → Sample
at_minute n = record {
  at = n * minute;
  cpu = pos 10;
  mem = pos 20;
  disk = pos 30;
  rx_per_s = 1;
  tx_per_s = 2;
  load1 = pos 5;
  mounts = [];
  plugins = [];
}

abbrev vps : Text
vps = codes "a1"

abbrev blank : History
blank = record { samples = []; last_at = []; files = []; writable = true }

-- Minutes 5 and 9 are held, and the agent sends 7, 5 and 8.
abbrev held : List Sample
held = at_minute 5 ∷ at_minute 9 ∷ []

abbrev sent : List Sample
sent = at_minute 7 ∷ at_minute 5 ∷ at_minute 8 ∷ []

abbrev some_history : History
some_history = record blank {
  samples = (codes "a1", held) ∷ [];
  last_at = (codes "a1", 9 * minute) ∷ [];
}

blank-IsValid : HistoryIsValid blank
unfolding series lookup
blank-IsValid = record {
  distinct = tt;
  valid = λ v. record { ascending = tt; bounded = omega arith; covered = refl };
}

held-series : series vps some_history ≡ held
unfolding series lookup text_eq
held-series = refl

held-Ascending : Ascending held
unfolding minute_of
held-Ascending = ((omega arith, tt), (tt, tt))

backfill_example_run :
    ((backfill (10 * minute) vps sent some_history).0 ≡ 2)
    × (map minute_of (series vps (backfill (10 * minute) vps sent some_history).1)
        ≡ 5 ∷ 7 ∷ 8 ∷ 9 ∷ [])
unfolding backfill series absorb is_usable minute_of sort sort_insert earlier newest rewrite_file
    lookup insert text_eq
backfill_example_run = (refl, refl)

Reach-HistoryIsValid_example :
    HistoryIsValid (trim (9 * hour) (record_sample vps (at_minute 3) blank).1)
Reach-HistoryIsValid_example =
    Reach-HistoryIsValid
      (next (next here (records vps (at_minute 3) blank))
        (trims (9 * hour) (record_sample vps (at_minute 3) blank).1))
      blank-IsValid

backfill_twice_example :
    let t = (backfill (10 * minute) vps sent some_history).1 in
    backfill (10 * minute) vps sent t ≡ (0, t)
unfolding series lookup text_eq
backfill_twice_example = backfill_twice (10 * minute) vps sent some_history (omega arith)
