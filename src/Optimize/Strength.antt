-- ===== src/Optimize/Strength.antt =====
-- Strength reduction, a block of `optimize_expr`: a product or quotient by a power of two.
use claudec.Base.{
  ℕ, zero, suc, ◌+◌, ◌-◌, ◌/◌, bit_and, Bool, true, false, not, ◌&&◌, ◌||◌, Option, none, some, ltb,
  ◌==◌, if◌then◌else◌, codes,
}
use claudec.CType.{int}
use claudec.Ast.{binary_op, Attrs, Ast, node, nil, cons}
use claudec.Long.{is_negative}
use claudec.Optimize.{BinOp, mul, div, binary_op_of, literal, long_of, new_literal}
use claudec.Optimize.Identities.{unsigned_of}

-- `v > 1 && (v & (v - 1)) == 0`, where `v > 1` is a test of signed numbers.
abbrev pub is_pow2 : ℕ → Bool
is_pow2 v = not (is_negative v) && ltb 1 v && (bit_and v (v - 1) == 0)

abbrev pub pow2_value : Option Attrs → Option ℕ
pow2_value none = none
pow2_value (some a) = if is_pow2 (long_of a) then some (long_of a) else none

-- `while (tmp > 1) { tmp >>= 1; shift++; }` on a positive number, with fuel.
unfoldable pub shift_loop : ℕ → ℕ → ℕ → ℕ
shift_loop zero tmp shift = shift
shift_loop (suc fuel) tmp shift =
    let more = shift_loop fuel (tmp / 2) (shift + 1) in if ltb 1 tmp then more else shift

-- A `long` above 1 is halved at most 63 times.
unfoldable pub shift_of : ℕ → ℕ
shift_of v = shift_loop 64 v 0

-- `left_nonneg`
abbrev pub nonneg_literal : Ast → Bool
nonneg_literal e = elim (literal e) [ none ↦ false | some a ↦ not (is_negative (long_of a)) ]

-- The node is reused with a new operator and the operands `x` and the shift.
abbrev pub shifted : Attrs → Bool → Ast → ℕ → Ast
shifted n left x v =
    node binary_op (record n { value = some (if left then codes "<<" else codes ">>") })
      (cons x (cons (new_literal (shift_of v) int false) nil))

abbrev pub reduce_mul : Attrs → Ast → Ast → Option ℕ → Option ℕ → Option Ast
reduce_mul n l r lv (some v) = some (shifted n true l v)
reduce_mul n l r (some v) none = some (shifted n true r v)
reduce_mul n l r none none = none

abbrev pub reduce_div : Attrs → Ast → Option ℕ → Option Ast
reduce_div n l (some v) =
    if unsigned_of l || nonneg_literal l then some (shifted n false l v) else none
reduce_div n l none = none

abbrev pub reduce : BinOp → Attrs → Ast → Ast → Option Ast
reduce mul n l r = reduce_mul n l r (pow2_value (literal l)) (pow2_value (literal r))
reduce div n l r = reduce_div n l (pow2_value (literal r))
reduce _ n l r = none

unfoldable pub strength_reduction : Ast → Option Ast
strength_reduction (node binary_op n (cons l (cons r nil))) = reduce (binary_op_of n.value) n l r
strength_reduction _ = none
