-- ===== src/SpikeRecords.antt =====
-- What each server was running when a metric jumped, as the backend keeps it (backend/spikes.go). The
-- files are a field of the state: of each server the lines of its file, `none` a line that does not
-- decode. An operation reads the clock once. `Unix()/60` is counted from the year 1 instead of 1970,
-- which moves every minute by one constant.
pub mod Nearest
pub mod Resent
mod Seen
mod Tests
use Prim.Native.Nat.{◌/◌}
use beacle.Prelude.{
  ℕ, suc, ◌*◌, ◌+◌, ◌-◌, ◌==◌, Text, text_eq, Map, lookup, insert, erase, Time, Duration, minute,
  hour, ltb, Bool, true, false, not, ◌&&◌, ◌||◌, List, [], ◌∷◌, ◌++◌, map, length, any, filter,
  is_nil, Option, none, some, if◌then◌else◌, sort,
}
use beacle.Prelude.Ints.{ℤ, pos, negsuc, ltb_ℤ}
use beacle.Registry.AlertRows.{newest}
use beacle.Spool.{SpikeRecord}

-- `Spikes`, with its files; `writable` says whether a file can be written.
pub record Archive : Type 0 where
  pub by_vps : Map (List SpikeRecord)
  pub files : Map (List (Option SpikeRecord))
  pub writable : Bool

abbrev pub retain : Duration
retain = 336 * hour

abbrev pub max_per_vps : ℕ
max_per_vps = 5000

unfoldable pub records_of : Text → Archive → List SpikeRecord
records_of vps_id s = elim (lookup vps_id s.by_vps) [ some rs ↦ rs | none ↦ [] ]

unfoldable pub older : SpikeRecord → SpikeRecord → Bool
older a b = ltb a.at b.at

-- The key of a record in `seen`: its minute and its metric.
unfoldable pub key_of : SpikeRecord → Text
key_of r = (r.at / minute) ∷ r.metric

unfoldable pub is_seen : Text → List Text → Bool
is_seen k seen = any (λ j. text_eq j k) seen

-- What `load` keeps of a file.
unfoldable pub kept_lines : Time → List (Option SpikeRecord) → List SpikeRecord
kept_lines cutoff [] = []
kept_lines cutoff (none ∷ ls) = kept_lines cutoff ls
kept_lines cutoff (some r ∷ ls) =
    if r.at == 0 || ltb r.at cutoff then kept_lines cutoff ls else r ∷ kept_lines cutoff ls

load_records : Time → Map (List (Option SpikeRecord)) → Map (List SpikeRecord)
unfolding kept_lines older
load_records now [] = []
load_records now ((v, ls) ∷ files) =
    let out = kept_lines (now - retain) ls in
    let rest = load_records now files in if is_nil out then rest else insert v (sort older out) rest

-- `NewSpikes` and `load`
unfoldable pub new_archive : Time → Bool → Map (List (Option SpikeRecord)) → Archive
unfolding load_records
new_archive now writable files = record {
  by_vps = load_records now files;
  files = files;
  writable = writable;
}

-- `rewriteLocked`
unfoldable pub write_records : Text → List SpikeRecord → Archive → Archive
write_records vps_id rs s =
    if s.writable then record s { files = insert vps_id (map some rs) s.files } else s

-- A record that `Record` may take, by its time.
unfoldable pub is_admissible : Time → SpikeRecord → Bool
is_admissible now r =
    not (r.at == 0) && not (ltb r.at (now - retain)) && not (ltb (now + hour) r.at)

-- The loop of `Record`: the keys that are taken, the records, and how many are new.
unfoldable pub take_in :
    Time → List SpikeRecord → List Text → List SpikeRecord → ℕ → List SpikeRecord × ℕ
take_in now [] seen existing added = (existing, added)
take_in now (r ∷ rs) seen existing added =
    let fresh = is_admissible now r && not (is_seen (key_of r) seen) in
    take_in now rs (if fresh then key_of r ∷ seen else seen)
      (if fresh then existing ++ (r ∷ []) else existing) (if fresh then added + 1 else added)

-- `Record`
unfoldable pub record_spikes : Time → Text → List SpikeRecord → Archive → ℕ × Archive
unfolding take_in key_of older records_of write_records
record_spikes now vps_id rs s =
    let existing = records_of vps_id s in
    let (merged, added) = take_in now rs (map key_of existing) existing 0 in
    let kept = newest max_per_vps (sort older merged) in
    let stored = write_records vps_id kept (record s { by_vps = insert vps_id kept s.by_vps }) in
    if is_nil rs then (0, s) else if added == 0 then (0, s) else (added, stored)

-- `Query`: a zero bound is no bound.
unfoldable pub query_spikes : Text → Time → Time → Archive → List SpikeRecord
unfolding records_of
query_spikes vps_id from to s =
    filter (λ r. (from == 0 || not (ltb r.at from)) && (to == 0 || not (ltb to r.at)))
      (records_of vps_id s)

-- The least `Duration`, less its sign.
abbrev pub min_duration : ℕ
min_duration = 9223372036854775808

-- `r.At.Sub(at)`, which stops at the least and at the greatest `Duration`.
unfoldable pub offset : Time → SpikeRecord → ℤ
offset at r =
    if ltb r.at at
    then (if ltb (at - r.at) min_duration
        then negsuc (at - r.at - 1)
        else negsuc (min_duration - 1))
    else if ltb (r.at - at) min_duration
    then pos (r.at - at)
    else pos (min_duration - 1)

-- `-gap` where the gap is negative: the least `Duration` stays what it is.
unfoldable pub absolute : ℤ → ℤ
absolute (pos n) = pos n
absolute (negsuc n) = if suc n == min_duration then negsuc n else pos (suc n)

unfoldable pub gap : Time → SpikeRecord → ℤ
unfolding offset absolute
gap at r = absolute (offset at r)

-- One round of the loop of `Nearest`.
unfoldable pub closer : Time → Duration → Option SpikeRecord → SpikeRecord → Option SpikeRecord
unfolding gap
closer at tolerance none r = if ltb_ℤ (pos tolerance) (gap at r) then none else some r
closer at tolerance (some best) r =
    if ltb_ℤ (pos tolerance) (gap at r)
    then some best
    else if ltb_ℤ (gap at r) (gap at best)
    then some r
    else some best

unfoldable pub closest :
    Time → Duration → Option SpikeRecord → List SpikeRecord → Option SpikeRecord
unfolding closer
closest at tolerance best [] = best
closest at tolerance best (r ∷ rs) = closest at tolerance (closer at tolerance best r) rs

-- `Nearest`
unfoldable pub nearest : Text → Time → Duration → Archive → Option SpikeRecord
unfolding closest records_of
nearest vps_id at tolerance s = closest at tolerance none (records_of vps_id s)

-- `Forget`
unfoldable pub forget_spikes : Text → Archive → Archive
forget_spikes vps_id s = record s { by_vps = erase vps_id s.by_vps; files = erase vps_id s.files }

-- The loop of `Trim` over the servers.
unfoldable pub trim_records : Time → Map (List SpikeRecord) → Archive → Archive
unfolding write_records
trim_records now [] s = s
trim_records now ((v, all) ∷ rest) s =
    let keep = filter (λ r. ltb (now - retain) r.at) all in
    trim_records now rest (
      if length keep == length all
      then s
      else write_records v keep (record s { by_vps = insert v keep s.by_vps }))

-- `Trim`
unfoldable pub trim_spikes : Time → Archive → Archive
unfolding trim_records
trim_spikes now s = trim_records now s.by_vps s
