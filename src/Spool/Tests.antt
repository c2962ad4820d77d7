-- ===== src/Spool/Tests.antt =====
-- A buffer with three samples and a torn line, of which the panel takes the first chunk.
use beacle.Prelude.{
  ℕ, true, List, [], ◌∷◌, All, some, none, length, if◌then◌else◌, ◌≡◌, ◌≤◌, ◌==◌, refl, arith, sort,
  sort_insert,
}
use beacle.Prelude.Ints.{pos}
use beacle.History.{Sample}
use beacle.Spool.{
  Buffer, decoded, load, append, trim, chunks, flush, has_time, rewrite, chunk_loop, flush_chunks,
  drop_up_to, last_at, remove,
}
use beacle.Spool.Chunks.{concat, chunks_whole}
use beacle.Spool.Handover.{Handed, hand_over}
use beacle.Spool.Bounds.{append-bounded}

abbrev sample : ℕ → Sample
sample t = record {
  at = t;
  cpu = pos 100;
  mem = pos 0;
  disk = pos 0;
  rx_per_s = 0;
  tx_per_s = 0;
  load1 = pos 0;
  mounts = [];
  plugins = [];
}

abbrev buffer : Buffer Sample
buffer = record {
  lines = some (some (sample 7) ∷ some (sample 5) ∷ none ∷ some (sample 9) ∷ []);
  reads = true;
  appends = true;
  rewrites = true;
  removes = true;
}

abbrev stored : List Sample
stored = sample 5 ∷ sample 7 ∷ sample 9 ∷ []

-- The panel takes a chunk that is full.
partial_flush :
    flush (λ s. s.at) has_time (λ c. length c == 2) 2 buffer
    ≡ (record buffer { lines = some (some (sample 9) ∷ []) }, sample 5 ∷ sample 7 ∷ [])
unfolding flush load decoded chunks chunk_loop flush_chunks drop_up_to last_at rewrite remove sort
    sort_insert
partial_flush = refl

hand_over_example :
    Handed stored
      (flush (λ s. s.at) has_time (λ c. length c == 2) 2 buffer).1
      (load (λ s. s.at) has_time (flush (λ s. s.at) has_time (λ c. length c == 2) 2 buffer).0)
unfolding load decoded sort sort_insert
hand_over_example =
    hand_over (λ s. s.at) has_time (λ c. length c == 2) 2 buffer stored (omega arith) refl
      ((omega arith, (omega arith, tt)), ((omega arith, tt), (tt, tt))) (refl, (refl, (refl, tt)))

chunks_whole_example :
    (concat (chunks 500 stored 2) ≡ stored)
    × All (λ c. (1 ≤ length c) × (length c ≤ (if 2 == 0 then 500 else 2))) (chunks 500 stored 2)
chunks_whole_example = chunks_whole 500 stored 2 (omega arith)

append-bounded_example : length (sample 7 ∷ sample 8 ∷ []) ≤ 2
unfolding append trim load decoded rewrite sort sort_insert
append-bounded_example =
    append-bounded (λ s. s.at) has_time 2 (sample 8)
      (record buffer { lines = some (some (sample 7) ∷ some (sample 5) ∷ []) })
      (sample 7 ∷ sample 8 ∷ []) refl refl
