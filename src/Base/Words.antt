-- ===== src/Base/Words.antt =====
-- Go's int64 as a word: a number below 2 ^ 64 in two's complement. Sums and products wrap.
use Prim.Native.Nat.{ℕ, ◌+◌, ◌-◌, ◌*◌, ◌%◌, ◌<◌}
use mathlib.Core.Path.{◌≡◌}
use mathlib.Core.Bool.{Bool}
use native.Mathlib.Omega.{arith}
use malert.Base.Tests.{leb, ltb}

abbrev pub Int64 : Type 0
Int64 = ℕ

abbrev pub int64_mod : ℕ
int64_mod = 18446744073709551616

-- 2 ^ 63, the first word that stands for a negative number.
abbrev pub int64_half : ℕ
int64_half = 9223372036854775808

unfoldable pub add_i64 : Int64 → Int64 → Int64
add_i64 a b = (a + b) % int64_mod

unfoldable pub sub_i64 : Int64 → Int64 → Int64
sub_i64 a b = (a + int64_mod - b % int64_mod) % int64_mod

unfoldable pub mul_i64 : Int64 → Int64 → Int64
mul_i64 a b = a * b % int64_mod

-- The signed order: both words are shifted by 2 ^ 63.
unfoldable pub leb_i64 : Int64 → Int64 → Bool
leb_i64 a b = leb ((a + int64_half) % int64_mod) ((b + int64_half) % int64_mod)

unfoldable pub ltb_i64 : Int64 → Int64 → Bool
ltb_i64 a b = ltb ((a + int64_half) % int64_mod) ((b + int64_half) % int64_mod)

pub leb_i64-nonneg : (a b : ℕ) → a < int64_half → b < int64_half → leb_i64 a b ≡ leb a b
unfolding leb_i64
leb_i64-nonneg a b ha hb = ground arith

pub ltb_i64-nonneg : (a b : ℕ) → a < int64_half → b < int64_half → ltb_i64 a b ≡ ltb a b
unfolding ltb_i64
ltb_i64-nonneg a b ha hb = ground arith

pub add_i64-exact : (a b : ℕ) → a + b < int64_half → add_i64 a b ≡ a + b
unfolding add_i64
add_i64-exact a b h = omega arith

pub add_i64_assoc : (a b c : ℕ) → add_i64 (add_i64 a b) c ≡ add_i64 a (add_i64 b c)
unfolding add_i64
add_i64_assoc a b c = omega arith

-- A word that was added can be taken off again, also across a wrap.
pub sub-add_i64 : (a b : ℕ) → a < int64_mod → sub_i64 (add_i64 b a) b ≡ a
unfolding sub_i64 add_i64
sub-add_i64 a b h = omega arith

pub add_i64_comm : (a b : ℕ) → add_i64 a b ≡ add_i64 b a
unfolding add_i64
add_i64_comm a b = omega arith
