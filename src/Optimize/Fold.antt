-- ===== src/Optimize/Fold.antt =====
-- Blocks of `optimize_expr` on literal operands: binary folding, short circuits, unary folding.
use claudec.Base.{
  ℕ, bit_and, bit_or, bit_xor, Bool, true, false, not, Option, none, some, ◌==◌, if◌then◌else◌,
}
use claudec.CType.{int}
use claudec.Ast.{binary_op, unary_op, Attrs, Ast, node, nil, cons}
use claudec.Long.{
  add_long, sub_long, mul_long, div_long, rem_long, shl_long, shr_long, lt_long, neg_long, not_long,
  of_bool,
}
use claudec.Optimize.{
  BinOp, add, sub, mul, div, rem, and_bits, or_bits, xor_bits, shl, shr, lt, le, gt, ge, eq, ne,
  and_then, or_else, UnOp, minus, plus, logical_not, complement, binary_op_of, unary_op_of, literal,
  long_of, new_literal, zero_literal, one_literal,
}

-- `result`, and whether `result_is_bool`; `none` where `do_fold` is 0.
unfoldable pub fold_binary : BinOp → ℕ → ℕ → Option (ℕ × Bool)
fold_binary add l r = some (add_long l r, false)
fold_binary sub l r = some (sub_long l r, false)
fold_binary mul l r = some (mul_long l r, false)
fold_binary div l r = if r == 0 then none else some (div_long l r, false)
fold_binary rem l r = if r == 0 then none else some (rem_long l r, false)
fold_binary and_bits l r = some (bit_and l r, false)
fold_binary or_bits l r = some (bit_or l r, false)
fold_binary xor_bits l r = some (bit_xor l r, false)
fold_binary shl l r = some (shl_long l r, false)
fold_binary shr l r = some (shr_long l r, false)
fold_binary lt l r = some (of_bool (lt_long l r), true)
fold_binary le l r = some (of_bool (not (lt_long r l)), true)
fold_binary gt l r = some (of_bool (lt_long r l), true)
fold_binary ge l r = some (of_bool (not (lt_long l r)), true)
fold_binary eq l r = some (of_bool (l == r), true)
fold_binary ne l r = some (of_bool (not (l == r)), true)
fold_binary and_then l r = none
fold_binary or_else l r = none
fold_binary BinOp.other l r = none

-- A truth value has type int, and any other result the type of the left operand.
abbrev pub typed_result : Attrs → Option (ℕ × Bool) → Option Ast
typed_result a none = none
typed_result a (some (v, true)) = some (new_literal v int false)
typed_result a (some (v, false)) = some (new_literal v a.decl_type a.is_unsigned)

abbrev pub fold_literals : BinOp → Option Attrs → Option Attrs → Option Ast
fold_literals op none r = none
fold_literals op (some a) none = none
fold_literals op (some a) (some b) = typed_result a (fold_binary op (long_of a) (long_of b))

unfoldable pub binary_folding : Ast → Option Ast
binary_folding (node binary_op n (cons l (cons r nil))) =
    fold_literals (binary_op_of n.value) (literal l) (literal r)
binary_folding _ = none

-- The literal for `rval != 0`.
abbrev pub truth_literal : Attrs → Ast
truth_literal b = if long_of b == 0 then zero_literal else one_literal

abbrev pub decide_right : Option Attrs → Option Ast
decide_right none = none
decide_right (some b) = some (truth_literal b)

abbrev pub short_circuit : BinOp → Option Attrs → Option Attrs → Option Ast
short_circuit and_then (some a) r = if long_of a == 0 then some zero_literal else decide_right r
short_circuit or_else (some a) r = if long_of a == 0 then decide_right r else some one_literal
short_circuit _ _ _ = none

unfoldable pub logical_folding : Ast → Option Ast
logical_folding (node binary_op n (cons l (cons r nil))) =
    short_circuit (binary_op_of n.value) (literal l) (literal r)
logical_folding _ = none

unfoldable pub fold_unary : UnOp → ℕ → Option (ℕ × Bool)
fold_unary minus v = some (neg_long v, false)
fold_unary plus v = some (v, false)
fold_unary logical_not v = some (of_bool (v == 0), true)
fold_unary complement v = some (not_long v, false)
fold_unary UnOp.other v = none

abbrev pub fold_operand : UnOp → Option Attrs → Option Ast
fold_operand op none = none
fold_operand op (some a) = typed_result a (fold_unary op (long_of a))

unfoldable pub unary_folding : Ast → Option Ast
unary_folding (node unary_op n (cons x nil)) = fold_operand (unary_op_of n.value) (literal x)
unary_folding _ = none
