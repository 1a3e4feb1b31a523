-- ===== src/Lexer/Values.antt =====
-- The values and types of integer literals.
use claudec.Base.{
  ℕ, ◌^◌, ◌<◌, Bool, false, ltb, ◌==◌, if◌then◌else◌, Bytes, ◌≡◌, ◌≢◌, ◌⊎◌, refl, arith, inl, inr,
}
use claudec.CType.{TypeKind}
use claudec.Memory.{Ensures, holds, exits, Ensures-if}
use claudec.Long.Text.{print_decimal, read_digits-print_decimal}
use claudec.Lexer.Number.{
  l_count, has_unsigned_suffix, digits_value, integer_literal_type, Integer, too_large,
  finish_integer,
}

-- The first value behind the range of a type that a literal can have. A literal of type `int` or `long`
-- with a suffix U has twice that range.
abbrev pub range_end : TypeKind → Bool → ℕ
range_end TypeKind.int u = if u then 2 ^ 32 else 2 ^ 31
range_end TypeKind.long u = if u then 2 ^ 64 else 2 ^ 63
range_end _ u = 2 ^ 64

integer_literal_type-range :
    (l : ℕ) (u : Bool) (n : ℕ)
    → too_large l u n ≡ false
    → n < range_end (integer_literal_type l u n) u
unfolding integer_literal_type
integer_literal_type-range l u n h = ground arith

value_end : (l : ℕ) (u : Bool) (n : ℕ) → too_large l u n ≡ false → n < 2 ^ 64
value_end l u n h = ground arith

-- What is known of an integer token, for the digits of its literal and its base.
pub record IsRanged (buf : Bytes) (base : ℕ) (i : Integer) : Type 0 where
  pub value_is : i.long_value ≡ digits_value buf base
  pub in_range : i.long_value < range_end i.kind i.is_unsigned
  pub text_value : base ≢ 16 → digits_value i.text 10 ≡ digits_value buf base

text_denotes :
    (buf : Bytes) (base : ℕ)
    → (base ≡ 8) ⊎ ((base ≡ 10) ⊎ (base ≡ 16))
    → digits_value buf base < 2 ^ 64
    → base ≢ 16
    → digits_value (if base == 8 then print_decimal (digits_value buf base) else buf) 10
      ≡ digits_value buf base
unfolding digits_value
text_denotes buf base (inl e) h k = rw e (read_digits-print_decimal _ (rw e at h))
text_denotes buf base (inr (inl e)) h k = rw e refl
text_denotes buf base (inr (inr e)) h k = absurd (k e)

-- An integer literal that is not refused has the value of its digits, which lies in the range of its
-- type, except that a `long long` without U may have any value below 2 ^ 64, and the text of a decimal or
-- octal literal denotes it in base 10.
pub finish_integer-IsRanged :
    (buf : Bytes) (base : ℕ) (suffix : Bytes)
    → (base ≡ 8) ⊎ ((base ≡ 10) ⊎ (base ≡ 16))
    → Ensures (IsRanged buf base) (finish_integer buf base suffix)
unfolding finish_integer
finish_integer-IsRanged buf base suffix b =
    let l = l_count suffix in
    let u = has_unsigned_suffix suffix in
    let n = digits_value buf base in
    Ensures-if {P = IsRanged buf base} (ltb 2 l) (λ _. exits)
      (λ _.
        Ensures-if {P = IsRanged buf base} (too_large l u n) (λ _. exits)
          (λ h. holds (record {
            value_is = refl;
            in_range = integer_literal_type-range l u n h;
            text_value = text_denotes buf base b (value_end l u n h);
          })))
