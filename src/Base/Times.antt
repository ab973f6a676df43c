-- ===== src/Base/Times.antt =====
-- time.Time as nanoseconds since Go's zero time (0001-01-01 UTC), and time.Duration as an int64.
-- Instants before the zero time do not occur.
use Prim.Native.Nat.{ℕ, ◌+◌, ◌-◌, ◌*◌, ◌/◌, ◌≤◌, ◌<◌}
use mathlib.Core.Path.{◌≡◌}
use mathlib.Core.Bool.{Bool}
use native.Mathlib.Omega.{arith}
use malert.Base.Tests.{leb, ltb, ◌==◌, if◌then◌else◌}
use malert.Base.Words.{Int64, int64_mod, int64_half, mul_i64, sub_i64, leb_i64}

abbrev pub Time : Type 0
Time = ℕ

abbrev pub Duration : Type 0
Duration = Int64

-- time.Time{}.
abbrev pub zero_time : Time
zero_time = 0

abbrev pub is_zero : Time → Bool
is_zero t = t == 0

abbrev pub before : Time → Time → Bool
before a b = ltb a b

-- time.Duration(s) * time.Second.
unfoldable pub seconds : Int64 → Duration
seconds s = mul_i64 s 1000000000

-- a.Sub(b), which saturates at the ends of int64.
unfoldable pub sub_time : Time → Time → Duration
sub_time a b =
    if leb b a
    then (if ltb (a - b) int64_half then a - b else int64_half - 1)
    else if leb (b - a) int64_half
    then int64_mod - (b - a)
    else int64_half

-- The zero time lies 62135596800 s before the Unix epoch.
unfoldable pub unix_milli : Time → Int64
unix_milli t = sub_i64 (t / 1000000) 62135596800000

-- now.Sub(since) >= d.
unfoldable pub elapsed : Time → Time → Duration → Bool
elapsed now since d = leb_i64 d (sub_time now since)

-- The longest whole number of seconds that a duration holds.
abbrev pub max_seconds : ℕ
max_seconds = 9223372036

pub elapsed_of_seconds :
    (now since s : ℕ)
    → s ≤ max_seconds
    → since ≤ now
    → now - since < int64_half
    → elapsed now since (seconds s) ≡ leb (since + s * 1000000000) now
unfolding elapsed sub_time seconds mul_i64 leb_i64
elapsed_of_seconds now since s hs le small = ground arith
