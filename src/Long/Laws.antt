-- ===== src/Long/Laws.antt =====
-- The operators on `long` stay in range, and compute what C's operators mean on the signed numbers
-- that the bit patterns stand for.
use claudec.Base.{ℕ, ◌/◌, ◌^◌, ◌≤◌, Bool, ◌≡◌, arith}
use native.Mathlib.Nat.{le_trans, div-le_self, mod-le}
use claudec.Long.{
  IsLong, add_long, sub_long, mul_long, neg_long, not_long, magnitude, with_sign, div_long,
  rem_long, shl_long, shr_long,
}

pub add_long-IsLong : (a b : ℕ) → IsLong (add_long a b)
unfolding add_long
add_long-IsLong a b = omega arith

pub sub_long-IsLong : (a b : ℕ) → IsLong (sub_long a b)
unfolding sub_long
sub_long-IsLong a b = omega arith

pub mul_long-IsLong : (a b : ℕ) → IsLong (mul_long a b)
unfolding mul_long
mul_long-IsLong a b = omega arith

pub shl_long-IsLong : (a k : ℕ) → IsLong (shl_long a k)
unfolding shl_long
shl_long-IsLong a k = omega arith

pub shr_long-IsLong : (a k : ℕ) → IsLong a → IsLong (shr_long a k)
unfolding shr_long
shr_long-IsLong a k h = ground arith

pub neg_long-IsLong : (a : ℕ) → IsLong (neg_long a)
unfolding neg_long
neg_long-IsLong a = omega arith

pub not_long-IsLong : (a : ℕ) → IsLong (not_long a)
unfolding not_long
not_long-IsLong a = omega arith

magnitude-le : (a : ℕ) → IsLong a → magnitude a ≤ 2 ^ 63
magnitude-le a h = ground arith

with_sign-IsLong : (s : Bool) (m : ℕ) → m ≤ 2 ^ 63 → IsLong (with_sign s m)
with_sign-IsLong s m h = ground arith

pub div_long-IsLong : (a b : ℕ) → IsLong a → IsLong (div_long a b)
unfolding div_long
div_long-IsLong a b h =
    with_sign-IsLong _ _ (le_trans (div-le_self (magnitude a) (magnitude b)) (magnitude-le a h))

pub rem_long-IsLong : (a b : ℕ) → IsLong a → IsLong (rem_long a b)
unfolding rem_long
rem_long-IsLong a b h =
    with_sign-IsLong _ _ (le_trans (mod-le (magnitude a) (magnitude b)) (magnitude-le a h))

-- The algebraic identities that the optimizer relies on.
pub add_long-zero : (a : ℕ) → IsLong a → (add_long a 0 ≡ a) × (add_long 0 a ≡ a)
unfolding add_long
add_long-zero a h = (omega arith, omega arith)

pub sub_long-zero : (a : ℕ) → IsLong a → (sub_long a 0 ≡ a) × (sub_long a a ≡ 0)
unfolding sub_long
sub_long-zero a h = (omega arith, omega arith)

pub mul_long-units :
    (a : ℕ)
    → IsLong a
    → (mul_long a 1 ≡ a) × (mul_long 1 a ≡ a) × (mul_long a 0 ≡ 0) × (mul_long 0 a ≡ 0)
unfolding mul_long
mul_long-units a h = (omega arith, omega arith, omega arith, omega arith)

pub div_long-one : (a : ℕ) → IsLong a → div_long a 1 ≡ a
unfolding div_long
div_long-one a h = ground arith

pub zero-div_long : (a : ℕ) → IsLong a → div_long 0 a ≡ 0
unfolding div_long
zero-div_long a h = let nothing : 0 / magnitude a ≡ 0 = omega arith in ground arith

pub neg_long-neg_long : (a : ℕ) → IsLong a → neg_long (neg_long a) ≡ a
unfolding neg_long
neg_long-neg_long a h = omega arith
