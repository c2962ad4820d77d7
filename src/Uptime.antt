-- ===== src/Uptime.antt =====
-- The record of when the panel itself was running (backend/uptime_log.go).
pub mod Loop
pub mod Gaps
mod Tests
use beacle.Prelude.{
  ℕ, ◌-◌, ◌*◌, Time, Duration, since, minute, hour, ltb, leb, Bool, true, false, not, ◌&&◌, ◌||◌,
  List, [], ◌∷◌, ◌++◌, filter, sort, Option, none, some, if◌then◌else◌,
}

-- `uptimeRun`
pub record Run : Type 0 where
  pub from : Time
  pub to : Time

-- `UptimeLog`, with its file: a line that does not decode is `none`.
pub record Log : Type 0 where
  pub current : Run
  pub runs : List Run
  pub file : List (Option Run)

abbrev pub gap_after : Duration
gap_after = 3 * minute

abbrev pub uptime_retain : Duration
uptime_retain = 336 * hour

unfoldable pub begins_before : Run → Run → Bool
begins_before a b = ltb a.from b.from

-- The loop of `load`.
kept_runs : Time → List (Option Run) → List Run
kept_runs now [] = []
kept_runs now (none ∷ ls) = kept_runs now ls
kept_runs now (some r ∷ ls) =
    if ltb r.to (now - uptime_retain) || ltb r.to r.from
    then kept_runs now ls
    else r ∷ kept_runs now ls

-- `NewUptimeLog`
unfoldable pub new_log : Time → List (Option Run) → Log
unfolding kept_runs
new_log now file = record {
  current = record { from = now; to = now };
  runs = sort begins_before (kept_runs now file);
  file = file;
}

written : List Run → List (Option Run)
written [] = []
written (r ∷ rs) = some r ∷ written rs

-- `persist`; `saved` says whether the file could be written and replaced.
unfoldable pub persist_log : Bool → Log → Log
unfolding written
persist_log saved u = if saved then record u { file = written (u.runs ++ (u.current ∷ [])) } else u

-- One heartbeat of `Run`.
unfoldable pub heartbeat : Time → Bool → Log → Log
heartbeat now saved u = persist_log saved (record u { current = record u.current { to = now } })

-- The loop that merges runs that touch; `m` is the last of the merged ones.
unfoldable pub merge_onto : Run → List Run → List Run
merge_onto m [] = m ∷ []
merge_onto m (r ∷ rs) =
    if leb (since r.from m.to) gap_after
    then merge_onto (if ltb m.to r.to then record m { to = r.to } else m) rs
    else m ∷ merge_onto r rs

unfoldable pub merge_runs : List Run → List Run
merge_runs [] = []
merge_runs (r ∷ rs) = merge_onto r rs

-- The stretch that is left at the end of the window.
unfoldable pub tail_gap : Time → Time → List Run
tail_gap to cursor =
    if ltb gap_after (since to cursor) then record { from = cursor; to = to } ∷ [] else []

unfoldable pub later : Time → Time → Time
later cursor t = if ltb cursor t then t else cursor

-- The loop over the merged runs.
unfoldable pub gap_loop : Time → Time → Time → List Run → List Run
gap_loop from to cursor [] = tail_gap to cursor
gap_loop from to cursor (r ∷ rs) =
    let rest = gap_loop from to (later cursor r.to) rs in
    let skipped = gap_loop from to cursor rs in
    if ltb r.to from
    then skipped
    else if ltb to r.from
    then tail_gap to cursor
    else if ltb cursor r.from && ltb gap_after (since r.from cursor)
    then record { from = cursor; to = r.from } ∷ rest
    else rest

-- `DownFrom`
unfoldable pub down_from : Time → Time → Log → List Run
down_from from to u =
    gap_loop from to from (merge_runs (sort begins_before (u.runs ++ (u.current ∷ []))))
