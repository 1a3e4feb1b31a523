-- ===== src/Optimize/Sound/Shifts.antt =====
-- Strength reduction keeps the meaning of an expression.
use native.Mathlib.Nat.{pow-suc, one-le-pow}
use claudec.Base.{
  >>=-eq-some, ◌>>=◌, ℕ, zero, suc, ◌+◌, ◌-◌, ◌/◌, ◌%◌, ◌^◌, ◌<◌, bit_and, Bool, true, false, not,
  Option, none, some, ◌≡◌, refl, ◌∙◌, arith, ltb, leb, ◌==◌, if◌then◌else◌, Bool-cases, inl, inr,
  str_eq, &&-eq-true, lt→ltb,
}
use claudec.Ast.{int_literal, binary_op, Attrs, Ast, node, nil, cons}
use claudec.Long.{is_negative, mul_long, div_long, shl_long, shr_long}
use claudec.Long.Bits.{power_of_two}
use claudec.Long.Text.{strtol-print_long}
use claudec.Optimize.{BinOp, mul, div, binary_op_of, literal, long_of}
use claudec.Optimize.Strength.{
  is_pow2, pow2_value, shift_loop, shift_of, nonneg_literal, shifted, reduce_mul, reduce_div,
  reduce, strength_reduction,
}
use claudec.Optimize.Eval.{Env, binary_value, binary_meaning, right_operand, eval}
use claudec.Optimize.Sound.Values.{signed_only-eq-some, binary_eval}
use claudec.Optimize.Sound.Literals.{eval-literal}
use claudec.Optimize.Sound.Algebra.{eval-signed, guarded-eq}

-- The loop counts the halvings of a power of two, if it has fuel for them.
shift_loop_power : (k fuel shift : ℕ) → k < fuel → shift_loop fuel (2 ^ k) shift ≡ shift + k
unfolding shift_loop
shift_loop_power zero (suc fuel) shift h = omega arith
shift_loop_power (suc k) (suc fuel) shift h =
    let half : 2 ^ suc k / 2 ≡ 2 ^ k = omega (arith, pow-suc 2 k) in
    let more : ltb 1 (2 ^ suc k) ≡ true = lt→ltb _ _ (omega (arith, pow-suc 2 k, one-le-pow k 2)) in
    rw (more, half) (shift_loop_power k fuel (shift + 1) (omega arith) ∙ omega arith)
shift_loop_power k zero shift h = elim h [ ]

power_small : (k n : ℕ) → 2 ^ k < 2 ^ n → k < n
power_small zero zero h = absurd (omega arith)
power_small zero (suc n) h = omega arith
power_small (suc k) zero h = absurd (omega (arith, pow-suc 2 k, one-le-pow k 2))
power_small (suc k) (suc n) h =
    omega (arith, power_small k n (omega (arith, pow-suc 2 k, pow-suc 2 n)))

-- A number that passes the test is a power of two, and the loop finds its exponent.
record Power (v : ℕ) : Type 0 where
  exponent : ℕ
  below : v < 2 ^ 63
  is_power : v ≡ 2 ^ exponent
  small : exponent < 63
  found : shift_of v ≡ exponent

is_pow2-Power : (v : ℕ) → is_pow2 v ≡ true → Power v
unfolding shift_of
is_pow2-Power v h =
    let (a, b) = &&-eq-true _ (bit_and v (v - 1) == 0) h in
    let above : 1 < v = ground arith in
    let below : v < 2 ^ 63 = ground arith in
    let (k, e) = power_of_two v (omega arith) (ground arith) in
    let small : k < 63 = power_small k 63 (rw (← e) below) in
    record {
      exponent = k;
      below = below;
      is_power = e;
      small = small;
      found = rw e (shift_loop_power k 64 0 (omega arith) ∙ omega arith);
    }

pow2_value_inv :
    (o : Option Attrs) (w : ℕ)
    → pow2_value o ≡ some w
    → (b : Attrs) × (o ≡ some b) × (long_of b ≡ w) × Power w
pow2_value_inv none w h = cc
pow2_value_inv (some b) w h = elim (Bool-cases (is_pow2 (long_of b))) [
  | inl t ↦
      let same : long_of b ≡ w = cc (rw t at h) in
      (b, refl, same, rw same at (is_pow2-Power (long_of b) t))
  | inr f ↦ absurd (nothing (rw f at h))
]
  where
    nothing : ◌≡◌ {A = Option ℕ} none (some w) → ⊥
    nothing p = cc

literal_is :
    (env : Env) (e : Ast) (b : Attrs) (a w : ℕ)
    → literal e ≡ some b
    → long_of b ≡ w
    → eval env e ≡ some a
    → a ≡ w
literal_is env e b a w l s h =
    cc (signed_only-eq-some b (some (long_of b)) (rw (eval-literal env e b l) at h)).1

mul_long-power : (a k : ℕ) → k < 63 → mul_long a (2 ^ k) ≡ shl_long a k
unfolding mul_long shl_long
mul_long-power a k h = let e : k % 64 ≡ k = omega arith in rw e

mul_long_comm : (a b : ℕ) → mul_long a b ≡ mul_long b a
unfolding mul_long
mul_long_comm a b = omega arith

div_long-power :
    (a k : ℕ) → k < 63 → 2 ^ k < 2 ^ 63 → is_negative a ≡ false → div_long a (2 ^ k) ≡ shr_long a k
unfolding div_long shr_long
div_long-power a k h p n =
    let e : k % 64 ≡ k = omega arith in
    let m : is_negative (2 ^ k) ≡ false = ground arith in rw (e, n, m)

-- The node that replaces a product or a quotient.
eval-shifted :
    (env : Env) (n : Attrs) (left : Bool) (x : Ast) (w a k : ℕ)
    → n.is_unsigned ≡ false
    → eval env x ≡ some a
    → shift_of w ≡ k
    → k < 63
    → eval env (shifted n left x w) ≡ some (if left then shl_long a k else shr_long a k)
unfolding eval binary_op_of str_eq binary_meaning binary_value
eval-shifted env n true x w a k u p s h =
    let fits : leb 64 k ≡ false = ground arith in
    let lit = strtol-print_long k (omega arith) in rw (u, p, s) (rw lit (rw fits))
eval-shifted env n false x w a k u p s h =
    let fits : leb 64 k ≡ false = ground arith in
    let lit = strtol-print_long k (omega arith) in rw (u, p, s) (rw lit (rw fits))

not-eq-true : (b : Bool) → not b ≡ true → b ≡ false
not-eq-true b h = ground arith

-- The operands have values, for an operator that is reduced.
reduced_both :
    (op : BinOp) (n : Attrs) (l r e : Ast) (x y : Option ℕ) (v : ℕ)
    → reduce op n l r ≡ some e
    → binary_meaning op x (right_operand op r y) ≡ some v
    → (x >>= λ a. y >>= λ b. binary_value op a b) ≡ some v
unfolding binary_meaning
reduced_both mul n l r e x y v h m = m
reduced_both div n l r e x y v h m = m
reduced_both _ n l r e x y v h m = cc

nonneg_literal-eval :
    (env : Env) (e : Ast) (a : ℕ)
    → nonneg_literal e ≡ true
    → eval env e ≡ some a
    → is_negative a ≡ false
unfolding eval
nonneg_literal-eval env (node int_literal b cs) a h m =
    let same : long_of b ≡ a = cc (signed_only-eq-some b (some (long_of b)) m).1 in
    rw same at (not-eq-true _ h)
nonneg_literal-eval env _ a h m = cc

module _ (env : Env) (n : Attrs) (l r e : Ast) (a b v : ℕ) (u : n.is_unsigned ≡ false)
    (p : eval env l ≡ some a) (q : eval env r ≡ some b) where
  reduced_mul :
      (lv rv : Option ℕ)
      → pow2_value (literal l) ≡ lv
      → pow2_value (literal r) ≡ rv
      → reduce_mul n l r lv rv ≡ some e
      → mul_long a b ≡ v
      → eval env e ≡ some v
  reduced_mul lv (some w) hl hr h m =
      let (c, lit, is, power) = pow2_value_inv (literal r) w hr in
      let k = power.exponent in
      let b_power : b ≡ 2 ^ k = literal_is env r c b w lit is q ∙ power.is_power in
      let shape : shifted n true l w ≡ e = cc h in
      rw (← shape) (
        eval-shifted env n true l w a k u p power.found power.small
        ∙ cc (mul_long-power a k power.small, b_power, m))
  reduced_mul (some w) none hl hr h m =
      let (c, lit, is, power) = pow2_value_inv (literal l) w hl in
      let k = power.exponent in
      let a_power : a ≡ 2 ^ k = literal_is env l c a w lit is p ∙ power.is_power in
      let shape : shifted n true r w ≡ e = cc h in
      rw (← shape) (
        eval-shifted env n true r w b k u q power.found power.small
        ∙ cc (mul_long-power b k power.small, mul_long_comm a b, a_power, m))
  reduced_mul none none hl hr h m = cc

  reduced_div :
      (rv : Option ℕ)
      → pow2_value (literal r) ≡ rv
      → reduce_div n l rv ≡ some e
      → div_long a b ≡ v
      → eval env e ≡ some v
  reduced_div none hr h m = cc
  reduced_div (some w) hr h m =
      let (c, lit, is, power) = pow2_value_inv (literal r) w hr in
      let k = power.exponent in
      let b_power : b ≡ 2 ^ k = literal_is env r c b w lit is q ∙ power.is_power in
      let signed = eval-signed env l a p in
      elim (Bool-cases (nonneg_literal l)) [
        | inl t ↦
            let shape : shifted n false l w ≡ e = cc (rw (signed, t) at h) in
            rw (← shape) (
              eval-shifted env n false l w a k u p power.found power.small
              ∙ cc (
                div_long-power a k power.small (rw power.is_power at power.below)
                    (nonneg_literal-eval env l a t p),
                b_power,
                m,
              ))
        | inr f ↦ absurd (nothing (rw (signed, f) at h))
      ]
    where
      nothing : none ≡ some e → ⊥
      nothing p = cc

reduced :
    (env : Env) (op : BinOp) (n : Attrs) (l r e : Ast) (a b v : ℕ)
    → n.is_unsigned ≡ false
    → eval env l ≡ some a
    → eval env r ≡ some b
    → reduce op n l r ≡ some e
    → binary_value op a b ≡ some v
    → eval env e ≡ some v
unfolding binary_value
reduced env mul n l r e a b v u p q h w = reduced_mul env n l r e a b v u p q _ _ refl refl h (cc)
reduced env div n l r e a b v u p q h w =
    reduced_div env n l r e a b v u p q _ refl h (guarded-eq _ _ v w)
reduced env _ n l r e a b v u p q h w = cc

-- Where strength reduction rewrites an expression that has a value, the new expression has the same
-- value.
pub strength_reduction_sound :
    (env : Env) (e e' : Ast)
    → strength_reduction e ≡ some e'
    → (v : ℕ) → eval env e ≡ some v
    → eval env e' ≡ some v
unfolding strength_reduction
strength_reduction_sound env (node binary_op n (cons l (cons r nil))) e' h v m =
    let op = binary_op_of n.value in
    let (u, s) = binary_eval env n l r v m in
    let both = reduced_both op n l r e' (eval env l) (eval env r) v h s in
    let (a, p, t) = >>=-eq-some (eval env l) _ both in
    let (b, q, w) = >>=-eq-some (eval env r) _ t in reduced env op n l r e' a b v u p q h w
strength_reduction_sound env _ e' h v m = cc
