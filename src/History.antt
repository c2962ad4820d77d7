-- ===== src/History.antt =====
-- The metric history of each server (backend/history.go), with the samples of shared/models.go. The
-- files are fields of the state: of each server the lines of its file, `none` a line that does not
-- decode, and `writable` says whether a file can be opened for writing. Encoding gives a line that
-- decodes to the same sample. An operation reads the clock once. `Unix()/60` is counted from the
-- year 1 instead of 1970, which moves every minute by one constant.
pub mod Series
pub mod Absorb
pub mod Backfill
pub mod Invariant
pub mod Reachable
pub mod Files
mod Tests
use Prim.Native.Nat.{◌/◌}
use beacle.Prelude.{
  ℕ, ◌*◌, ◌+◌, ◌-◌, ◌==◌, Text, Map, lookup, insert, erase, Time, Duration, since, minute, hour,
  ltb, Bool, true, false, not, ◌&&◌, ◌||◌, List, [], ◌∷◌, ◌++◌, map, length, drop, any, filter,
  is_nil, Option, none, some, if◌then◌else◌, sort,
}
use beacle.Prelude.Ints.{ℤ}
use beacle.Registry.AlertRows.{newest}

-- `MetricSample`
pub record Sample : Type 0 where
  pub at : Time
  pub cpu : ℤ
  pub mem : ℤ
  pub disk : ℤ
  pub rx_per_s : ℕ
  pub tx_per_s : ℕ
  pub load1 : ℤ
  pub mounts : Map ℤ
  pub plugins : Map ℤ

abbrev pub Lines : Type 0
Lines = List (Option Sample)

-- `History`, less the cache of disk forecasts
pub record History : Type 0 where
  pub samples : Map (List Sample)
  pub last_at : Map Time
  pub files : Map Lines
  pub writable : Bool

abbrev pub history_interval : Duration
history_interval = minute

abbrev pub history_retain : Duration
history_retain = 336 * hour

abbrev pub max_samples : ℕ
max_samples = 43_200

unfoldable pub minute_of : Sample → ℕ
minute_of s = s.at / minute

-- The order of `sort.Slice` by time.
unfoldable pub earlier : Sample → Sample → Bool
earlier a b = ltb a.at b.at

abbrev pub list_at {ℓ} : {A : Type ℓ} → Option (List A) → List A
list_at none = []
list_at (some xs) = xs

unfoldable pub series : Text → History → List Sample
series vps_id h = list_at (lookup vps_id h.samples)

-- The time of the last sample of a series that has one.
abbrev pub last_time : List Sample → Time
last_time [] = 0
last_time (s ∷ []) = s.at
last_time (s ∷ t ∷ ss) = last_time (t ∷ ss)

abbrev pub time_at : Option Time → Time
time_at none = 0
time_at (some t) = t

-- The lines of a file that decode to a sample that is not too old.
unfoldable pub read_lines : Time → Lines → List Sample
read_lines cutoff [] = []
read_lines cutoff (none ∷ ls) = read_lines cutoff ls
read_lines cutoff (some s ∷ ls) =
    if ltb s.at cutoff then read_lines cutoff ls else s ∷ read_lines cutoff ls

-- What `load` makes of one file.
unfoldable pub load_file : Time → Lines → List Sample
load_file now ls = sort earlier (read_lines (now - history_retain) ls)

load_files : Time → Map Lines → History → History
load_files now [] h = h
load_files now ((v, ls) ∷ files) h =
    let out = load_file now ls in
    let rest = load_files now files h in
    if is_nil out then rest else record rest {
      samples = insert v out rest.samples;
      last_at = insert v (last_time out) rest.last_at;
    }

-- `NewHistory` and `load`
unfoldable pub load : Time → Bool → Map Lines → History
unfolding load_files
load now writable files =
    load_files now files (record { samples = []; last_at = []; files = files; writable = writable })

unfoldable pub rewrite_file : Text → List Sample → History → History
rewrite_file vps_id samples h =
    if h.writable then record h { files = insert vps_id (map some samples) h.files } else h

-- The guard of `Record`.
unfoldable pub is_too_soon : Option Time → Sample → Bool
is_too_soon none s = false
is_too_soon (some last) s = ltb (since s.at last) history_interval

-- `Record`
unfoldable pub record_sample : Text → Sample → History → Bool × History
record_sample vps_id s h =
    let kept = newest max_samples (series vps_id h ++ (s ∷ [])) in
    let g = record h {
      samples = insert vps_id kept h.samples;
      last_at = insert vps_id s.at h.last_at;
    } in
    let lines = list_at (lookup vps_id h.files) ++ (some s ∷ []) in
    if is_too_soon (lookup vps_id h.last_at) s
    then (false, h)
    else if h.writable
    then (true, record g { files = insert vps_id lines h.files })
    else (false, g)

-- A sample that `Backfill` may take, by its time.
unfoldable pub is_usable : Time → Sample → Bool
is_usable now s =
    not (s.at == 0) && not (ltb s.at (now - history_retain)) && not (ltb (now + hour) s.at)

abbrev pub has_minute : ℕ → List ℕ → Bool
has_minute k [] = false
has_minute k (j ∷ js) = if j == k then true else has_minute k js

-- The loop of `Backfill`: the minutes that are taken, the series, and how many samples are new.
unfoldable pub absorb : Time → List Sample → List ℕ → List Sample → ℕ → List Sample × ℕ
absorb now [] occupied existing added = (existing, added)
absorb now (s ∷ ss) occupied existing added =
    let fresh = is_usable now s && not (has_minute (minute_of s) occupied) in
    absorb now ss (if fresh then minute_of s ∷ occupied else occupied)
      (if fresh then existing ++ (s ∷ []) else existing) (if fresh then added + 1 else added)

-- `Backfill`
unfoldable pub backfill : Time → Text → List Sample → History → ℕ × History
backfill now vps_id samples h =
    let existing = series vps_id h in
    let (merged, added) = absorb now samples (map minute_of existing) existing 0 in
    let kept = newest max_samples (sort earlier merged) in
    let last = last_time kept in
    let g = record h {
      samples = insert vps_id kept h.samples;
      last_at =
          if ltb (time_at (lookup vps_id h.last_at)) last
          then insert vps_id last h.last_at
          else h.last_at;
    } in
    if added == 0 then (0, h) else (added, rewrite_file vps_id kept g)

-- `Query`: a zero bound is no bound.
unfoldable pub in_window : Time → Time → Sample → Bool
in_window from to s = (from == 0 || not (ltb s.at from)) && (to == 0 || not (ltb to s.at))

unfoldable pub query : Text → Time → Time → History → List Sample
query vps_id from to h = filter (in_window from to) (series vps_id h)

-- `Span`
unfoldable pub span : Text → History → Time × Time
span vps_id h = elim (series vps_id h) [ [] ↦ (0, 0) | s ∷ ss ↦ (s.at, last_time (s ∷ ss)) ]

unfoldable pub trimmed : Time → List Sample → List Sample
trimmed now all = filter (λ s. ltb (now - history_retain) s.at) all

-- The loop of `Trim` over the servers.
unfoldable pub trim_series : Time → Map (List Sample) → History → History
trim_series now [] h = h
trim_series now ((v, all) ∷ rest) h =
    let kept = trimmed now all in
    trim_series now rest (
      if length kept == length all
      then h
      else rewrite_file v kept (record h { samples = insert v kept h.samples }))

-- `Trim`
unfoldable pub trim : Time → History → History
trim now h = trim_series now h.samples h

-- `Forget`
unfoldable pub forget : Text → History → History
forget vps_id h = record h {
  samples = erase vps_id h.samples;
  last_at = erase vps_id h.last_at;
  files = erase vps_id h.files;
}
