-- ===== src/Base/Clock.antt =====
-- Instants and durations. An instant is a number of nanoseconds since Go's zero time (year 1), so
-- `t.IsZero()` is a comparison with 0; a duration is a signed number of nanoseconds.
use Prim.Native.Nat.{ℕ, ◌+◌, ◌-◌, ◌*◌, ◌^◌, ◌≤◌, ◌<◌, min}
use mathlib.Core.Path.{◌≡◌}
use native.Mathlib.Omega.{arith}
use buildkit_operator.Base.Tests.{ltb, leb, if◌then◌else◌}
use buildkit_operator.Base.Int.{ℤ, pos, negsuc, leb_ℤ, ltb_ℤ, wrap64, ◌*ℤ◌}

abbrev pub Time : Type 0
Time = ℕ

abbrev pub Duration : Type 0
Duration = ℤ

abbrev pub second : ℕ
second = 1_000_000_000

abbrev pub minute : ℕ
minute = 60 * second

abbrev pub hour : ℕ
hour = 3600 * second

abbrev pub max_duration : ℕ
max_duration = 2 ^ 63 - 1

-- `t.Sub(u)`, which stops at the ends of an int64.
unfoldable pub time_sub : Time → Time → Duration
time_sub t u = if leb u t then pos (min (t - u) max_duration) else negsuc (min (u - t) (2 ^ 63) - 1)

-- A test of an age against a window inside the range of a duration is a test on the instants.
pub time_sub-le : (t u w : ℕ) → w < max_duration → (leb_ℤ (time_sub t u) (pos w) ≡ leb t (u + w))
unfolding time_sub
time_sub-le t u w h = ground arith

pub time_sub-lt :
    (t u w : ℕ) → w ≤ max_duration → 0 < w → (ltb_ℤ (time_sub t u) (pos w) ≡ ltb t (u + w))
unfolding time_sub
time_sub-lt t u w h k = ground arith

-- `time.Duration(n) * time.Second`, a product of int64s.
unfoldable pub seconds : ℤ → Duration
seconds n = wrap64 (n *ℤ pos second)

pub seconds_pos : (n : ℕ) → n * second < 2 ^ 63 → seconds (pos n) ≡ pos (n * second)
unfolding seconds ◌*ℤ◌ wrap64
seconds_pos n h = ground arith

pub time_sub-gt : (t u w : ℕ) → w < max_duration → (ltb_ℤ (pos w) (time_sub t u) ≡ ltb (u + w) t)
unfolding time_sub
time_sub-gt t u w h = ground arith

-- `Time.Add`; the year 1 is the earliest instant.
unfoldable pub time_add : Time → Duration → Time
time_add t (pos d) = t + d
time_add t (negsuc d) = t - (d + 1)
