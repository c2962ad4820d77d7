-- ===== src/Levels.antt =====
-- The alert thresholds of one server (shared/thresholds.go). Percentages are signed hundredths, as
-- the source's float64 values may be negative.
use beacle.Prelude.{Option, none, some, if◌then◌else◌, arith}
use beacle.Prelude.Ints.{ℤ, pos, ◌-ℤ◌, ◌≤ℤ◌, ◌<ℤ◌, ltb_ℤ, leb_ℤ}
use beacle.Models.{Vps, Thresholds}

-- The firing and the clearing threshold of one metric.
pub record Level : Type 0 where
  pub high : ℤ
  pub clear : ℤ

-- The six results of `EffectiveThresholds`.
pub record Levels : Type 0 where
  pub cpu : Level
  pub mem : Level
  pub disk : Level

abbrev pub cpu_default : Level
cpu_default = record { high = pos 8500; clear = pos 7500 }

abbrev pub mem_default : Level
mem_default = record { high = pos 9000; clear = pos 8200 }

abbrev pub disk_default : Level
disk_default = record { high = pos 9000; clear = pos 8500 }

-- A custom firing threshold above 0 replaces the global one, and drags the clearing one below it.
override : ℤ → Level → Level
override custom l =
    if ltb_ℤ (pos 0) custom
    then record {
      high = custom;
      clear = if leb_ℤ custom l.clear then custom -ℤ pos 500 else l.clear;
    }
    else l

-- The clearing threshold is never negative.
floor_clear : Level → Level
floor_clear l = record l { clear = if ltb_ℤ l.clear (pos 0) then pos 0 else l.clear }

effective_of : Option Thresholds → Levels
effective_of none = record { cpu = cpu_default; mem = mem_default; disk = disk_default }
effective_of (some t) = record {
  cpu = floor_clear (override t.cpu_high cpu_default);
  mem = floor_clear (override t.mem_high mem_default);
  disk = floor_clear (override t.disk_high disk_default);
}

-- `VPS.EffectiveThresholds`
unfoldable pub effective : Vps → Levels
unfolding effective_of override floor_clear
effective v = effective_of v.thresholds

-- Hysteresis: a metric clears strictly below the reading that fires it, and not below 0.
abbrev pub HasHysteresis : Level → Type 0
HasHysteresis l = (pos 0 ≤ℤ l.clear) × (l.clear <ℤ l.high)

override-HasHysteresis :
    (custom : ℤ) (l : Level) → HasHysteresis l → HasHysteresis (floor_clear (override custom l))
unfolding override floor_clear ◌-ℤ◌
override-HasHysteresis custom l h = ground arith

effective_of-HasHysteresis :
    (o : Option Thresholds)
    → let e = effective_of o in HasHysteresis e.cpu × HasHysteresis e.mem × HasHysteresis e.disk
unfolding effective_of
effective_of-HasHysteresis none = (omega arith, omega arith, omega arith)
effective_of-HasHysteresis (some t) = (
  override-HasHysteresis t.cpu_high cpu_default (omega arith),
  override-HasHysteresis t.mem_high mem_default (omega arith),
  override-HasHysteresis t.disk_high disk_default (omega arith),
)

-- Whatever thresholds a server is given, each metric clears strictly below the reading that fires
-- it, and no clearing threshold is negative.
pub effective_hysteresis :
    (v : Vps)
    → let e = effective v in HasHysteresis e.cpu × HasHysteresis e.mem × HasHysteresis e.disk
unfolding effective
effective_hysteresis v = effective_of-HasHysteresis v.thresholds
