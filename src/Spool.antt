-- ===== src/Spool.antt =====
-- The files in which an agent keeps what it measured while the panel was away, and their
-- hand-over (agent/offline_buffer.go, agent/spike_buffer.go; agent/ws_client.go, lines 175-226).
-- The two buffers run the same code on different records. A line that does not decode is `none`.
pub mod Chunks
pub mod Dropping
pub mod Handover
pub mod Bounds
mod Tests
use beacle.Prelude.{
  ℕ, suc, zero, ◌-◌, ◌*◌, Text, Time, Duration, hour, ltb, leb, ◌==◌, Bool, true, false, not, ◌&&◌,
  List, [], ◌∷◌, ◌++◌, map, filter, take, drop, length, sort, is_nil, Option, none, some,
  if◌then◌else◌, is_empty,
}
use beacle.History.{Sample}

-- A buffer: its file, `none` if there is none, and whether the file can be read, appended to,
-- replaced and removed now, throughout one operation or hand-over. A write that fails leaves the
-- file as it was, and no line is longer than the scanner takes.
pub record Buffer (A : Type 0) : Type 0 where
  pub lines : Option (List (Option A))
  pub reads : Bool
  pub appends : Bool
  pub rewrites : Bool
  pub removes : Bool

unfoldable pub decoded : {A : Type 0} → List (Option A) → List A
decoded [] = []
decoded (none ∷ ls) = decoded ls
decoded (some a ∷ ls) = a ∷ decoded ls

module _ {A : Type 0} where
  -- `rewriteLocked`: whether it worked.
  unfoldable pub rewrite : List A → Buffer A → Bool × Buffer A
  rewrite xs b = if b.rewrites then (true, record b { lines = some (map some xs) }) else (false, b)

  -- `removeLocked`, `Clear`
  unfoldable pub remove : Buffer A → Bool × Buffer A
  remove b = elim b.lines [
    | none ↦ (true, b)
    | some ls ↦ if b.removes then (true, record b { lines = none }) else (false, b)
  ]

-- `at` is the time of a record and `usable` says whether a loaded one is kept.
module _ {A : Type 0} (at : A → Time) (usable : A → Bool) where
  -- `loadLocked`: `none` is its error. A file that is not there holds nothing.
  unfoldable pub load : Buffer A → Option (List A)
  unfolding decoded
  load b = elim b.lines [
    | none ↦ some []
    | some ls ↦
        if b.reads
        then some (sort (λ x y. ltb (at x) (at y)) (filter usable (decoded ls)))
        else none
  ]

  -- `trimLocked`; `most` is the largest number of records that it leaves.
  unfoldable pub trim : ℕ → Buffer A → Bool × Buffer A
  trim most b = elim (load b) [
    | none ↦ (false, b)
    | some all ↦
        if leb (length all) most then (true, b) else rewrite (drop (length all - most) all) b
  ]

  -- `Append`
  unfoldable pub append : ℕ → A → Buffer A → Bool × Buffer A
  append most x b =
      let old : List (Option A) = elim b.lines [ some ls ↦ ls | none ↦ [] ] in
      if b.appends then trim most (record b { lines = some (old ++ (some x ∷ [])) }) else (false, b)

  -- `DropUpTo`
  unfoldable pub drop_up_to : Time → Buffer A → Bool × Buffer A
  drop_up_to cutoff b = elim (load b) [
    | none ↦ (false, b)
    | some all ↦
        let kept = filter (λ x. ltb cutoff (at x)) all in
        if is_nil kept then remove b else rewrite kept b
  ]

module _ {A : Type 0} where
  -- The loop of `chunkSamples`: what is left is cut into pieces of `size`. A round takes one record
  -- at least, so that the length is enough fuel.
  unfoldable pub chunk_loop : ℕ → ℕ → List A → List (List A)
  chunk_loop fuel size [] = []
  chunk_loop zero size (x ∷ xs) = []
  chunk_loop (suc fuel) size (x ∷ xs) =
      take size (x ∷ xs) ∷ chunk_loop fuel size (drop size (x ∷ xs))

  -- `chunkSamples`, `chunkSpikes`; a size at or below 0 is 0.
  unfoldable pub chunks : ℕ → List A → ℕ → List (List A)
  chunks usual all size =
      if is_nil all then [] else chunk_loop (length all) (if size == 0 then usual else size) all

  unfoldable pub last_at : (A → Time) → List A → Time
  last_at at [] = 0
  last_at at (x ∷ []) = at x
  last_at at (x ∷ y ∷ ys) = last_at at (y ∷ ys)

module _ {A : Type 0} (at : A → Time) (usable : A → Bool) (send : List A → Bool) where
  -- The loop of `flushOffline`: the buffer, and the records that went out.
  unfoldable pub flush_chunks : List (List A) → Buffer A → Buffer A × List A
  unfolding last_at
  flush_chunks [] b = (b, [])
  flush_chunks (c ∷ cs) b =
      let dropped = drop_up_to at usable (last_at at c) b in
      let rest = flush_chunks cs dropped.1 in
      if not (send c) then (b, []) else if dropped.0 then (rest.0, c ++ rest.1) else (dropped.1, c)

  -- `flushOffline`, `flushSpikes`: `usual` is the size of a chunk.
  unfoldable pub flush : ℕ → Buffer A → Buffer A × List A
  flush usual b = elim (load at usable b) [
    | none ↦ (b, [])
    | some all ↦ flush_chunks (chunks usual all usual) b
  ]

-- The buffer of samples.
abbrev pub offline_max : ℕ
offline_max = 14 * 24 * 60

abbrev pub offline_chunk : ℕ
offline_chunk = 500

abbrev pub has_time : Sample → Bool
has_time s = not (s.at == 0)

unfoldable pub append_sample : Sample → Buffer Sample → Bool × Buffer Sample
append_sample = append (λ s. s.at) has_time offline_max

-- `flushOffline`
unfoldable pub flush_offline : (List Sample → Bool) → Buffer Sample → Buffer Sample × List Sample
flush_offline send = flush (λ s. s.at) has_time send offline_chunk

-- `SpikeProcess`, `SpikeRecord`. Percentages are numbers of hundredths, and a baseline is doubled, as
-- a median can be half of one.
pub record Process : Type 0 where
  pub pid : ℕ
  pub name : Text
  pub user : Text
  pub cpu_percent : ℕ
  pub mem_percent : ℕ
  pub command : Text

pub record SpikeRecord : Type 0 where
  pub at : Time
  pub metric : Text
  pub value : ℕ
  pub twice_baseline : ℕ
  pub top : List Process

-- The buffer of spikes.
abbrev pub spike_retain : Duration
spike_retain = 336 * hour

abbrev pub spike_max : ℕ
spike_max = 2000

abbrev pub spike_chunk : ℕ
spike_chunk = 50

unfoldable pub is_recent : Time → SpikeRecord → Bool
is_recent now r = not (r.at == 0) && not (ltb r.at (now - spike_retain))

unfoldable pub append_spike : Time → SpikeRecord → Buffer SpikeRecord → Bool × Buffer SpikeRecord
append_spike now = append (λ r. r.at) (is_recent now) spike_max

-- `flushSpikes`; the clock is read once.
unfoldable pub flush_spikes :
    Time → (List SpikeRecord → Bool) → Buffer SpikeRecord → Buffer SpikeRecord × List SpikeRecord
flush_spikes now send = flush (λ r. r.at) (is_recent now) send spike_chunk
