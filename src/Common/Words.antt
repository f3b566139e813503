-- ===== src/Common/Words.antt =====
-- Go's int64, as the bit pattern: a number below 2^64, compared as a signed number.
use Prim.Native.Nat.{ℕ, ◌+◌, ◌-◌, ◌%◌, ◌^◌, ◌<◌, ◌≤◌}
use mathlib.Core.Path.{◌≡◌}
use mathlib.Core.Bool.{Bool, false}
use native.Mathlib.Omega.{arith}
use lyrics_plus.Common.Tests.{ltb, if◌then◌else◌}

-- An int64 bit pattern, compared as a signed number.
abbrev pub two63 : ℕ
two63 = 2 ^ 63

abbrev pub two64 : ℕ
two64 = 2 ^ 64

unfoldable pub lt_i64 : ℕ → ℕ → Bool
lt_i64 a b = ltb ((a + two63) % two64) ((b + two63) % two64)

-- `t.Add(d)`
unfoldable pub add_duration : ℕ → ℕ → ℕ
add_duration t d = if ltb d two63 then t + d else t - (two64 - d)

-- `if x <= 0 { x = d }`, the int64 read as signed
unfoldable pub positive_or : ℕ → ℕ → ℕ
unfolding lt_i64
positive_or x d = if lt_i64 0 x then x else d

-- Below 2^63 a signed comparison is that of the numbers.
pub lt_i64-ltb : (a b : ℕ) → a < 2 ^ 63 → b < 2 ^ 63 → lt_i64 a b ≡ ltb a b
unfolding lt_i64
lt_i64-ltb a b ha hb = ground arith

pub positive_or-pos : (x d : ℕ) → 0 < d → 0 < positive_or x d
unfolding positive_or
positive_or-pos x d h = ground arith

-- `a + b` and `a - b` on int64 wrap.
unfoldable pub add_i64 : ℕ → ℕ → ℕ
add_i64 a b = (a + b) % two64

unfoldable pub sub_i64 : ℕ → ℕ → ℕ
sub_i64 a b = (a + two64 - b) % two64

-- `if x < 0 { x = 0 }`
unfoldable pub clamp_i64 : ℕ → ℕ
unfolding lt_i64
clamp_i64 x = if lt_i64 x 0 then 0 else x

pub add_i64-lt : (a b : ℕ) → a + b < 2 ^ 63 → add_i64 a b ≡ a + b
unfolding add_i64
add_i64-lt a b h = omega arith

pub sub_i64-le : (a b : ℕ) → a < 2 ^ 63 → b ≤ a → sub_i64 a b ≡ a - b
unfolding sub_i64
sub_i64-le a b h k = omega arith

pub clamp_i64-id : (a : ℕ) → a < 2 ^ 63 → clamp_i64 a ≡ a
unfolding clamp_i64
clamp_i64-id a h = ground arith

-- `x < 0`
unfoldable pub is_negative : ℕ → Bool
unfolding lt_i64
is_negative x = lt_i64 x 0

-- `a % n` for a positive `n`: the remainder has the sign of `a`.
unfoldable pub rem_i64 : ℕ → ℕ → ℕ
rem_i64 a n = if ltb a two63 then a % n else (two64 - (two64 - a) % n) % two64

pub is_negative-lt : (x : ℕ) → x < 2 ^ 63 → is_negative x ≡ false
unfolding is_negative
is_negative-lt x h = ground arith

pub rem_i64-lt : (a n : ℕ) → a < 2 ^ 63 → rem_i64 a n ≡ a % n
unfolding rem_i64
rem_i64-lt a n h = ground arith
