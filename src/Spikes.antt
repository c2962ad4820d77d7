-- ===== src/Spikes.antt =====
-- How an agent notices that a metric departs from what it has been doing (agent/spike_detect.go;
-- agent/spike_buffer.go, `topProcesses`; agent/ws_client.go, `checkSpikes`). Readings are
-- percentages in hundredths, which are not negative; a baseline is doubled, as a median can be half
-- of a hundredth.
pub mod Burst
mod Tests
use beacle.Prelude.{
  ℕ, zero, suc, ◌+◌, ◌*◌, ◌-◌, ◌/◌, ◌%◌, Text, codes, Time, ltb, leb, ◌==◌, Bool, true, false, not,
  ◌&&◌, List, [], ◌∷◌, ◌++◌, map, take, drop, length, sort, Option, none, some, if◌then◌else◌,
  text_eq,
}
use beacle.Prelude.Ints.{pos_part}
use beacle.History.{Sample}
use beacle.Spool.{Process, SpikeRecord, Buffer, append_spike}

abbrev pub spike_window : ℕ
spike_window = 30

abbrev pub spike_min_samples : ℕ
spike_min_samples = 10

-- `spikeAbsolute`, 15 percentage points
abbrev pub spike_absolute : ℕ
spike_absolute = 1500

abbrev pub spike_top : ℕ
spike_top = 8

-- `spikeTracker`
pub record Tracker : Type 0 where
  pub recent : List ℕ
  pub firing : Bool

reading_at : ℕ → List ℕ → ℕ
reading_at n [] = 0
reading_at zero (v ∷ vs) = v
reading_at (suc n) (v ∷ vs) = reading_at n vs

-- `baseline`: twice the median, if there are enough readings.
unfoldable pub baseline : Tracker → Option ℕ
unfolding reading_at
baseline t =
    let sorted = sort ltb t.recent in
    let mid = length sorted / 2 in
    if ltb (length t.recent) spike_min_samples
    then none
    else if length sorted % 2 == 1
    then some (2 * reading_at mid sorted)
    else some (reading_at (mid - 1) sorted + reading_at mid sorted)

-- `aboveBaseline`, with twice the baseline
unfoldable pub above_baseline : ℕ → ℕ → Bool
above_baseline v twice = leb twice v && leb (twice + 2 * spike_absolute) (2 * v)

-- A reading is a spike.
unfoldable pub is_spike : Tracker → ℕ → Bool
is_spike t v = elim (baseline t) [ some b ↦ above_baseline v b | none ↦ false ]

-- A reading joins the window, from which the oldest goes.
unfoldable pub joined : List ℕ → ℕ → List ℕ
joined recent v =
    let all = recent ++ (v ∷ []) in
    if ltb spike_window (length all) then drop (length all - spike_window) all else all

-- `observe`
unfoldable pub observe : Tracker → ℕ → Bool × Tracker
observe t v =
    if is_spike t v
    then (not t.firing, record t { firing = true })
    else (false, record { recent = joined t.recent v; firing = false })

-- `topProcesses`: the processes in the order of the metric, cut to `n`, with their commands cut.
ellipsis : Text
ellipsis = 0xe2 ∷ 0x80 ∷ 0xa6 ∷ []

shortened : Process → Process
unfolding ellipsis
shortened p = record p {
  command = if ltb 200 (length p.command) then take 200 p.command ++ ellipsis else p.command;
}

heavier : Text → Process → Process → Bool
heavier metric a b =
    if text_eq metric (codes "mem")
    then ltb b.mem_percent a.mem_percent
    else ltb b.cpu_percent a.cpu_percent

unfoldable pub top_processes : List Process → Text → ℕ → List Process
unfolding heavier shortened
top_processes procs metric n = map shortened (take n (sort (heavier metric) procs))

-- The two trackers and the buffer of `WSClient`.
pub record Watch : Type 0 where
  pub cpu : Tracker
  pub mem : Tracker
  pub spikes : Buffer SpikeRecord

twice : Option ℕ → ℕ
twice none = 0
twice (some b) = b

-- What is written down at an onset, if the processes can be listed.
record_spike : Time → Option (List Process) → Text → Time → ℕ → Tracker → Watch → Watch
unfolding twice
record_spike now none metric at value t w = w
record_spike now (some procs) metric at value t w = record w {
  spikes =
      (append_spike now
        (record {
          at = at;
          metric = metric;
          value = value;
          twice_baseline = twice (baseline t);
          top = top_processes procs metric spike_top;
        })
        w.spikes).1;
}

-- `checkSpikes`: the memory is not looked at when the processor spikes.
unfoldable pub check_spikes : Time → Option (List Process) → Sample → Watch → Watch
unfolding record_spike
check_spikes now procs s w =
    let cpu = observe w.cpu (pos_part s.cpu) in
    let mem = observe w.mem (pos_part s.mem) in
    let first = record w { cpu = cpu.1 } in
    let second = record first { mem = mem.1 } in
    if cpu.0
    then record_spike now procs (codes "cpu") s.at (pos_part s.cpu) cpu.1 first
    else if mem.0
    then record_spike now procs (codes "mem") s.at (pos_part s.mem) mem.1 second
    else second
