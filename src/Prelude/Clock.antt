-- ===== src/Prelude/Clock.antt =====
-- `time.Time` as nanoseconds since year 1, Go's zero time, so that `IsZero` is the test for 0; and
-- `time.Duration` as nanoseconds. `t.Sub(u)` is `t - u`, cut off at 0: every use compares it with
-- a positive duration, and against those a negative difference answers as 0 does.
use Prim.Native.Nat.{ℕ, ◌-◌, ◌*◌}

abbrev pub Time : Type 0
Time = ℕ

abbrev pub Duration : Type 0
Duration = ℕ

abbrev pub since : Time → Time → Duration
since t u = t - u

abbrev pub second : Duration
second = 1_000_000_000

abbrev pub minute : Duration
minute = 60 * second

abbrev pub hour : Duration
hour = 60 * minute
