-- ===== src/Common/Clock.antt =====
-- time.Time and time.Duration. A time is the number of nanoseconds since Go's zero time, and a
-- duration an int64 number of nanoseconds.
use goqueuesim.Common.Tests.{if◌then◌else◌}
use goqueuesim.Common.Int.{ℤ, pos, negsuc, ◌+ℤ◌, ◌-ℤ◌, ◌<ℤ◌, ltb_ℤ, ◌==ℤ◌, -ℤ_parts}
use goqueuesim.Common.Word.{IsI64}
use Prim.Native.Nat.{ℕ, ◌+◌, ◌-◌, ◌/◌, ◌%◌, ◌^◌}
use mathlib.Core.Bool.{Bool}
use native.Mathlib.Omega.{arith}

abbrev pub Time : Type 0
Time = ℤ

abbrev pub Duration : Type 0
Duration = ℤ

abbrev pub zero_time : Time
zero_time = pos 0

abbrev pub millisecond : ℕ
millisecond = 1_000_000

abbrev pub second : ℕ
second = 1_000_000_000

-- t.IsZero()
abbrev pub is_zero : Time → Bool
is_zero t = t ==ℤ zero_time

-- t.Before(u); t.After(u) is `before u t`.
abbrev pub before : Time → Time → Bool
before t u = ltb_ℤ t u

abbrev pub max_duration : ℤ
max_duration = pos (2 ^ 63 - 1)

abbrev pub min_duration : ℤ
min_duration = negsuc (2 ^ 63 - 1)

-- t.Sub(u): the difference, or the nearest duration where it does not fit.
unfoldable pub sub_time : Time → Time → Duration
sub_time t u =
    let d = t -ℤ u in
    if ltb_ℤ max_duration d then max_duration else if ltb_ℤ d min_duration then min_duration else d

-- Integer division that truncates toward zero, as Go's does, by a positive divisor.
abbrev pub div_ℤ : ℤ → ℕ → ℤ
div_ℤ (pos n) d = pos (n / d)
div_ℤ (negsuc n) d = pos 0 -ℤ pos ((n + 1) / d)

-- The remainder of that division, with the sign of the dividend.
abbrev pub rem_ℤ : ℤ → ℕ → ℤ
rem_ℤ (pos n) d = pos (n % d)
rem_ℤ (negsuc n) d = pos 0 -ℤ pos ((n + 1) % d)

-- t.Unix(): the seconds since the start of 1970.
abbrev pub unix : Time → ℤ
unix t = div_ℤ t second -ℤ pos 62_135_596_800

-- t.Add(d)
abbrev pub add_time : Time → Duration → Time
add_time t d = t +ℤ d

-- d.Milliseconds()
abbrev pub milliseconds : Duration → ℤ
milliseconds d = div_ℤ d millisecond

pub sub_time-IsI64 : (t u : Time) → IsI64 (sub_time t u)
unfolding sub_time
sub_time-IsI64 t u = ground (arith, -ℤ_parts t u)

-- A later time minus an earlier one is a positive duration, also where the difference saturates.
pub sub_time-pos : (t u : Time) → u <ℤ t → pos 0 <ℤ sub_time t u
unfolding sub_time
sub_time-pos t u h = ground (arith, -ℤ_parts t u)
