-- ===== src/Long.antt =====
-- The host type `long` in which src/optimize.c computes with literals: 64 bits, as a bit pattern
-- below 2 ^ 64, with C's operators on it as the machine runs them. Signed overflow wraps, and a
-- shift count is taken modulo 64.
pub mod Bits
pub mod Laws
pub mod Text
use claudec.Base.{
  ℕ, ◌+◌, ◌-◌, ◌*◌, ◌/◌, ◌%◌, ◌^◌, ◌<◌, Bool, true, false, not, leb, ltb, if◌then◌else◌,
}

abbrev pub long_mod : ℕ
long_mod = 2 ^ 64

abbrev pub IsLong : ℕ → Type 0
IsLong a = a < long_mod

abbrev pub is_negative : ℕ → Bool
is_negative a = leb (2 ^ 63) a

abbrev pub all_ones : ℕ
all_ones = 2 ^ 64 - 1

unfoldable pub add_long : ℕ → ℕ → ℕ
add_long a b = (a + b) % long_mod

unfoldable pub sub_long : ℕ → ℕ → ℕ
sub_long a b = (a + long_mod - b) % long_mod

unfoldable pub mul_long : ℕ → ℕ → ℕ
mul_long a b = (a * b) % long_mod

unfoldable pub neg_long : ℕ → ℕ
neg_long a = (long_mod - a) % long_mod

unfoldable pub not_long : ℕ → ℕ
not_long a = long_mod - 1 - a

abbrev pub magnitude : ℕ → ℕ
magnitude a = if is_negative a then long_mod - a else a

abbrev pub with_sign : Bool → ℕ → ℕ
with_sign s m = if s then (long_mod - m) % long_mod else m

abbrev pub differ : Bool → Bool → Bool
differ true b = not b
differ false b = b

-- Division truncates towards zero, and the remainder has the sign of the dividend.
unfoldable pub div_long : ℕ → ℕ → ℕ
div_long a b = with_sign (differ (is_negative a) (is_negative b)) (magnitude a / magnitude b)

unfoldable pub rem_long : ℕ → ℕ → ℕ
rem_long a b = with_sign (is_negative a) (magnitude a % magnitude b)

unfoldable pub shl_long : ℕ → ℕ → ℕ
shl_long a k = (a * 2 ^ (k % 64)) % long_mod

-- The arithmetic shift: the sign bit is copied.
unfoldable pub shr_long : ℕ → ℕ → ℕ
shr_long a k =
    if is_negative a then long_mod - 1 - (long_mod - 1 - a) / 2 ^ (k % 64) else a / 2 ^ (k % 64)

-- Signed order is the order of the numbers with the sign bit flipped.
unfoldable pub lt_long : ℕ → ℕ → Bool
lt_long a b = ltb ((a + 2 ^ 63) % long_mod) ((b + 2 ^ 63) % long_mod)

abbrev pub of_bool : Bool → ℕ
of_bool b = if b then 1 else 0
