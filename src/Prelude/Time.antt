-- ===== src/Prelude/Time.antt =====
-- `time.Duration` in nanoseconds, and `time.Time.Sub` on instants.
use Prim.Native.Nat.{ℕ, ◌^◌, ◌-◌, ◌*◌}
use aurvet.Prelude.Tests.{if◌then◌else◌}
use aurvet.Prelude.Int.{ℤ, pos, negsuc, ltb_ℤ, ◌-ℤ◌}

abbrev pub min_duration : ℤ
min_duration = negsuc (2 ^ 63 - 1)

abbrev pub max_duration : ℤ
max_duration = pos (2 ^ 63 - 1)

-- `t.Sub(u)`, which saturates.
unfoldable pub time_sub : ℤ → ℤ → ℤ
time_sub t u =
    let d = t -ℤ u in
    if ltb_ℤ max_duration d then max_duration else if ltb_ℤ d min_duration then min_duration else d

-- `n` times 24 hours.
abbrev pub days : ℕ → ℤ
days n = pos (n * 86400000000000)
