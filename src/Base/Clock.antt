-- ===== src/Base/Clock.antt =====
-- `time.Time` and `time.Duration`, in nanoseconds since Go's zero time, so that `IsZero` is `== 0`.
-- A timestamp that is kept as text is what `time.Parse` makes of it: `none` for no valid time.
use mathlib.Core.Bool.{Bool, ◌&&◌}
use mathlib.Core.Option.{Option, some}
use Prim.Native.Nat.{ℕ, ◌*◌, ◌/◌, ◌+◌}
use my_t_companion.Base.Tests.{leb}

abbrev pub Time : Type 0
Time = ℕ

abbrev pub seconds : ℕ → ℕ
seconds n = n * 1000000000

abbrev pub minutes : ℕ → ℕ
minutes n = seconds (n * 60)

abbrev pub hours : ℕ → ℕ
hours n = minutes (n * 60)

-- `now.Sub(at) >= 0 && now.Sub(at) <= limit`
abbrev pub elapsed_within : ℕ → Time → Time → Bool
elapsed_within limit at now = leb at now && leb now (at + limit)

abbrev pub Stamp : Type 0
Stamp = Option Time

-- `t.Format(time.RFC3339)`, which drops the fraction of a second
abbrev pub stamp_seconds : Time → Stamp
stamp_seconds t = some (t / 1000000000 * 1000000000)

-- `t.Format(time.RFC3339Nano)`
abbrev pub stamp_nano : Time → Stamp
stamp_nano t = some t
