-- ===== src/Long/Bits.antt =====
-- Laws of `&`, `|` and `^` that the optimizer's rules rest on, from the recursion on binary
-- digits that the native operations stand for.
use Prim.Native.Nat.{
  digits, bitwise, bit_and-bitwise, bit_or-bitwise, bit_xor-bitwise, differ as digit_xor, max,
}
use mathlib.Core.WellFounded
use native.Mathlib.Decide.{dec_le}
use native.Mathlib.Nat.{one-le-pow, pow-suc}
use claudec.Base.{
  ℕ, zero, suc, ◌+◌, ◌-◌, ◌*◌, ◌/◌, ◌%◌, ◌^◌, ◌≤◌, ◌<◌, min, bit_and, bit_or, bit_xor, ◌≡◌, refl,
  ◌∙◌, arith, lt_wf,
}

module _ (z : ℕ → ℕ) (f : ℕ → ℕ → ℕ) where
  -- One unit of fuel more than is needed changes nothing.
  one_more : (n a b : ℕ) → a ≤ n → digits z f (suc n) a b ≡ digits z f n a b
  one_more zero zero b h = refl
  one_more zero (suc a) b h = absurd (omega arith)
  one_more (suc n) zero b h = refl
  one_more (suc n) (suc a) b h = rw (one_more n (suc a / 2) (b / 2) (omega arith))

  exact_fuel : (n a b : ℕ) → a ≤ n → digits z f n a b ≡ bitwise z f a b
  exact_fuel zero zero b h = refl
  exact_fuel zero (suc a) b h = absurd (omega arith)
  exact_fuel (suc n) a b h = elim (dec_le a n) [
    | yes p ↦ one_more n a b p ∙ exact_fuel n a b p
    | no p ↦ let e : suc n ≡ a = omega arith in rw e refl
  ]

  low_digit :
      (a b : ℕ)
      → bitwise z f (suc a) b ≡ bitwise z f (suc a / 2) (b / 2) * 2 + f (suc a % 2) (b % 2)
  low_digit a b = rw (← exact_fuel a (suc a / 2) (b / 2) (omega arith)) refl

pub bit_or-halves : (a b : ℕ) → bit_or a b ≡ bit_or (a / 2) (b / 2) * 2 + max (a % 2) (b % 2)
bit_or-halves zero b = simp bit_or-bitwise (omega arith)
bit_or-halves (suc a) b = simp bit_or-bitwise (low_digit (λ y. y) max a b)

pub bit_and-halves : (a b : ℕ) → bit_and a b ≡ bit_and (a / 2) (b / 2) * 2 + min (a % 2) (b % 2)
bit_and-halves zero b = simp bit_and-bitwise (omega arith)
bit_and-halves (suc a) b = simp bit_and-bitwise (low_digit (λ y. 0) min a b)

pub bit_xor-halves :
    (a b : ℕ) → bit_xor (suc a) b ≡ bit_xor (suc a / 2) (b / 2) * 2 + digit_xor (suc a % 2) (b % 2)
bit_xor-halves a b = simp bit_xor-bitwise (low_digit (λ y. y) digit_xor a b)

zero-bit_xor : (b : ℕ) → bit_xor 0 b ≡ b
zero-bit_xor b = bit_xor-bitwise 0 b

pub zero-bit_or : (b : ℕ) → bit_or 0 b ≡ b
zero-bit_or b = bit_or-bitwise 0 b

pub zero-bit_and : (b : ℕ) → bit_and 0 b ≡ 0
zero-bit_and b = bit_and-bitwise 0 b

-- Induction on binary digits.
by_halves : (C : ℕ → Type 0) → C 0 → ((a : ℕ) → C (suc a / 2) → C (suc a)) → (a : ℕ) → C a
by_halves C base step a = WellFounded.induction lt_wf {C = C} a at_digit
  where
    at_digit : (n : ℕ) → ((m : ℕ) → m < n → C m) → C n
    at_digit zero ih = base
    at_digit (suc n) ih = step n (ih (suc n / 2) (omega arith))

pub bit_or-zero : (a : ℕ) → bit_or a 0 ≡ a
bit_or-zero = by_halves _ refl (λ a ih. omega (arith, bit_or-halves (suc a) 0))

pub bit_and-zero : (a : ℕ) → bit_and a 0 ≡ 0
bit_and-zero = by_halves _ refl (λ a ih. omega (arith, bit_and-halves (suc a) 0))

bit_and_self : (a : ℕ) → bit_and a a ≡ a
bit_and_self = by_halves _ refl (λ a ih. omega (arith, bit_and-halves (suc a) (suc a)))

digit_xor_self : (a : ℕ) → digit_xor a a ≡ 0
digit_xor_self zero = refl
digit_xor_self (suc a) = digit_xor_self a

pub bit_xor_self : (a : ℕ) → bit_xor a a ≡ 0
bit_xor_self =
    by_halves _ refl (λ a ih. omega (arith, bit_xor-halves a (suc a), digit_xor_self (suc a % 2)))

-- A mask of `k` ones on either side keeps the `k` low digits.
pub bit_and_mask : (k a : ℕ) → a < 2 ^ k → bit_and a (2 ^ k - 1) ≡ a
bit_and_mask zero a h = ground (arith, bit_and-zero a)
bit_and_mask (suc k) a h =
    ground
      (arith, bit_and-halves a (2 ^ suc k - 1), pow-suc 2 k, one-le-pow k 2, bit_and_mask k (a / 2))

pub mask_bit_and : (k a : ℕ) → a < 2 ^ k → bit_and (2 ^ k - 1) a ≡ a
mask_bit_and zero a h = ground (arith, zero-bit_and a)
mask_bit_and (suc k) a h =
    ground
      (arith, bit_and-halves (2 ^ suc k - 1) a, pow-suc 2 k, one-le-pow k 2, mask_bit_and k (a / 2))

odd_case : (a : ℕ) → bit_and (suc a) (suc a - 1) ≡ 0 → 1 ≤ suc a / 2 → suc a / 2 * 2 ≡ suc a
odd_case a e h = elim (dec_le (suc a % 2) 0) [
  | yes p ↦ omega arith
  | no p ↦
      let same : (suc a - 1) / 2 ≡ suc a / 2 = omega arith in
      let low : bit_and (suc a / 2) ((suc a - 1) / 2) ≡ suc a / 2 =
        rw same (bit_and_self (suc a / 2)) in
      absurd (omega (arith, bit_and-halves (suc a) (suc a - 1)))
]

even_case :
    (a : ℕ)
    → bit_and (suc a) (suc a - 1) ≡ 0
    → suc a / 2 * 2 ≡ suc a
    → bit_and (suc a / 2) (suc a / 2 - 1) ≡ 0
even_case a e even =
    let half : (suc a - 1) / 2 ≡ suc a / 2 - 1 = omega arith in
    rw (← half) (omega (arith, bit_and-halves (suc a) (suc a - 1)))

-- `(n & (n - 1)) == 0` holds of a power of two only, and of 0.
pub power_of_two : (n : ℕ) → 0 < n → bit_and n (n - 1) ≡ 0 → (k : ℕ) × (n ≡ 2 ^ k)
power_of_two = by_halves _ (λ h e. absurd (omega arith)) doubled
  where
    doubled :
        (a : ℕ)
        → (0 < suc a / 2 → bit_and (suc a / 2) (suc a / 2 - 1) ≡ 0 → (k : ℕ) × (suc a / 2 ≡ 2 ^ k))
        → 0 < suc a
        → bit_and (suc a) (suc a - 1) ≡ 0
        → (k : ℕ) × (suc a ≡ 2 ^ k)
    doubled a ih h e = elim (dec_le (suc a) 1) [
      | yes p ↦ (0, omega arith)
      | no p ↦
          let even : suc a / 2 * 2 ≡ suc a = odd_case a e (omega arith) in
          let rest : bit_and (suc a / 2) (suc a / 2 - 1) ≡ 0 = even_case a e even in
          let (k, q) = ih (omega arith) rest in (suc k, omega (arith, pow-suc 2 k))
    ]

-- The results have no more digits than the operands.
pub bit_and-lt : (k a b : ℕ) → a < 2 ^ k → bit_and a b < 2 ^ k
bit_and-lt zero a b h = ground (arith, zero-bit_and b)
bit_and-lt (suc k) a b h =
    ground (arith, bit_and-halves a b, pow-suc 2 k, bit_and-lt k (a / 2) (b / 2))

pub bit_or-lt : (k a b : ℕ) → a < 2 ^ k → b < 2 ^ k → bit_or a b < 2 ^ k
bit_or-lt zero a b h p = ground (arith, zero-bit_or b)
bit_or-lt (suc k) a b h p =
    ground (arith, bit_or-halves a b, pow-suc 2 k, bit_or-lt k (a / 2) (b / 2))

digit_xor-le : (a b : ℕ) → a ≤ 1 → b ≤ 1 → digit_xor a b ≤ 1
digit_xor-le zero b h p = p
digit_xor-le (suc zero) zero h p = omega arith
digit_xor-le (suc zero) (suc zero) h p = omega arith
digit_xor-le (suc zero) (suc (suc b)) h p = absurd (omega arith)
digit_xor-le (suc (suc a)) b h p = absurd (omega arith)

pub bit_xor-lt : (k a b : ℕ) → a < 2 ^ k → b < 2 ^ k → bit_xor a b < 2 ^ k
bit_xor-lt k zero b h p = rw (zero-bit_xor b) p
bit_xor-lt zero (suc a) b h p = absurd (omega arith)
bit_xor-lt (suc k) (suc a) b h p = ground (
  arith,
  bit_xor-halves a b,
  pow-suc 2 k,
  digit_xor-le (suc a % 2) (b % 2),
  bit_xor-lt k (suc a / 2) (b / 2),
)
