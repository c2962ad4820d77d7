-- ===== src/SpikeRecords/Tests.antt =====
-- Runs on a few records of one server.
use beacle.Prelude.{
  true, sort, sort_insert, lookup, insert, ◌+◌, ◌*◌, ◌≤◌, codes, text_eq, Time, second, minute,
  hour, length, List, [], ◌∷◌, some, ◌≡◌, All, refl, arith,
}
use beacle.Registry.AlertRows.{newest}
use beacle.Spool.{SpikeRecord}
use beacle.SpikeRecords.{
  Archive, records_of, record_spikes, nearest, min_duration, max_per_vps, is_admissible, key_of,
  is_seen,
}
use beacle.SpikeRecords.Nearest.{Near, IsNearest, nearest-IsNearest}
use beacle.SpikeRecords.Resent.{record_spikes_twice}

abbrev spike : Time → SpikeRecord
spike t = record { at = t; metric = codes "cpu"; value = 9000; twice_baseline = 2000; top = [] }

abbrev noon : Time
noon = 1000 * hour

abbrev held : Archive
held = record {
  by_vps = (codes "a1", spike (noon + 3 * minute) ∷ spike (noon + 9 * minute) ∷ []) ∷ [];
  files = [];
  writable = true;
}

-- The second is in the minute of one that is held, the last is too far ahead.
abbrev batch : List SpikeRecord
batch = spike (noon + minute) ∷ spike (noon + 3 * minute + second) ∷ spike (noon + 100 * hour) ∷ []

one_new : (record_spikes (noon + hour) (codes "a1") batch held).0 ≡ 1
unfolding record_spikes text_eq is_admissible key_of is_seen lookup insert
one_new = refl

in_order :
    records_of (codes "a1") (record_spikes (noon + hour) (codes "a1") batch held).1
    ≡ spike (noon + minute) ∷ spike (noon + 3 * minute) ∷ spike (noon + 9 * minute) ∷ []
unfolding record_spikes text_eq is_admissible key_of is_seen lookup insert newest sort sort_insert
in_order = refl

close :
    nearest (codes "a1") (noon + 4 * minute) (5 * minute) held ≡ some (spike (noon + 3 * minute))
unfolding nearest text_eq lookup
close = refl

-- A moment more than 292 years later is within any tolerance.
wrapped :
    nearest (codes "a1") (noon + hour + min_duration) 0 held ≡ some (spike (noon + 3 * minute))
unfolding nearest text_eq lookup
wrapped = refl

held-Near : All (Near (noon + 4 * minute)) (records_of (codes "a1") held)
unfolding records_of text_eq lookup
held-Near = (omega arith, (omega arith, tt))

nearest-IsNearest_example :
    IsNearest
      (noon + 4 * minute)
      (5 * minute)
      (records_of (codes "a1") held)
      (nearest (codes "a1") (noon + 4 * minute) (5 * minute) held)
nearest-IsNearest_example =
    nearest-IsNearest (codes "a1") (noon + 4 * minute) (5 * minute) held held-Near

room : length (records_of (codes "a1") held) + length batch ≤ max_per_vps
unfolding records_of text_eq lookup
room = omega arith

record_spikes_twice_example :
    record_spikes
      (noon + hour)
      (codes "a1")
      batch
      (record_spikes (noon + hour) (codes "a1") batch held).1
    ≡ (0, (record_spikes (noon + hour) (codes "a1") batch held).1)
record_spikes_twice_example = record_spikes_twice (noon + hour) (codes "a1") batch held room
