-- ===== src/Optimize/Eval.antt =====
-- What an expression of type `long` means: the arithmetic that the compiled program does on it.
--
-- Only expressions without side effects and without unsigned parts have a meaning here: literals,
-- variables, the unary and binary operators, `?:` and casts. Sums, products and left shifts wrap.
-- The meaning is `none` where C leaves it undefined: a division by zero, the quotient and remainder
-- of LONG_MIN by -1, and a shift by 64 or more.
use claudec.Base.{
  ℕ, ◌+◌, ◌-◌, ◌%◌, ◌^◌, bit_and, bit_or, bit_xor, Bool, true, not, ◌&&◌, Option, none, some, leb,
  ◌==◌, if◌then◌else◌, Bytes, ◌>>=◌,
}
use claudec.CType.{TypeKind, bool, char, short, int, long, long_long}
use claudec.Ast.{
  int_literal, var_ref, unary_op, binary_op, conditional_expr, cast, Attrs, Ast, node, nil, cons,
}
use claudec.Long.{
  long_mod, all_ones, add_long, sub_long, mul_long, div_long, rem_long, shl_long, shr_long, lt_long,
  neg_long, not_long, of_bool,
}
use claudec.Optimize.{
  BinOp, add, sub, mul, div, rem, and_bits, or_bits, xor_bits, shl, shr, lt, le, gt, ge, eq, ne,
  and_then, or_else, UnOp, minus, plus, logical_not, complement, binary_op_of, unary_op_of, long_of,
  is_value,
}

-- The values of the variables. A variable of another type has none.
abbrev pub Env : Type 0
Env = Bytes → Option ℕ

abbrev pub guarded : Bool → ℕ → Option ℕ
guarded undefined v = if undefined then none else some v

abbrev pub no_quotient : ℕ → ℕ → Bool
no_quotient l r = if r == 0 then true else (l == 2 ^ 63) && (r == all_ones)

-- The operators that evaluate both operands.
unfoldable pub binary_value : BinOp → ℕ → ℕ → Option ℕ
binary_value add l r = some (add_long l r)
binary_value sub l r = some (sub_long l r)
binary_value mul l r = some (mul_long l r)
binary_value div l r = guarded (no_quotient l r) (div_long l r)
binary_value rem l r = guarded (no_quotient l r) (rem_long l r)
binary_value and_bits l r = some (bit_and l r)
binary_value or_bits l r = some (bit_or l r)
binary_value xor_bits l r = some (bit_xor l r)
binary_value shl l r = guarded (leb 64 r) (shl_long l r)
binary_value shr l r = guarded (leb 64 r) (shr_long l r)
binary_value lt l r = some (of_bool (lt_long l r))
binary_value le l r = some (of_bool (not (lt_long r l)))
binary_value gt l r = some (of_bool (lt_long r l))
binary_value ge l r = some (of_bool (not (lt_long l r)))
binary_value eq l r = some (of_bool (l == r))
binary_value ne l r = some (of_bool (not (l == r)))
binary_value _ l r = none

abbrev pub truth : ℕ → Option ℕ
truth v = some (of_bool (not (v == 0)))

-- `&&` and `||` leave the right operand alone where the left one decides.
unfoldable pub binary_meaning : BinOp → Option ℕ → Option ℕ → Option ℕ
binary_meaning and_then l r = l >>= λ a. if a == 0 then some 0 else (r >>= truth)
binary_meaning or_else l r = l >>= λ a. if a == 0 then (r >>= truth) else some 1
binary_meaning op l r = l >>= λ a. r >>= λ b. binary_value op a b

unfoldable pub unary_value : UnOp → ℕ → Option ℕ
unary_value minus v = some (neg_long v)
unary_value plus v = some v
unary_value logical_not v = some (of_bool (v == 0))
unary_value complement v = some (not_long v)
unary_value UnOp.other v = none

-- The number that the `w` low bits stand for in two's complement.
abbrev pub sign_extend : ℕ → ℕ → ℕ → ℕ
sign_extend half whole v =
    let low = v % whole in if leb half low then low + (long_mod - whole) else low

-- Conversion to a signed type.
unfoldable pub convert : TypeKind → ℕ → Option ℕ
convert bool v = truth v
convert char v = some (sign_extend (2 ^ 7) (2 ^ 8) v)
convert short v = some (sign_extend (2 ^ 15) (2 ^ 16) v)
convert int v = some (sign_extend (2 ^ 31) (2 ^ 32) v)
convert long v = some v
convert long_long v = some v
convert _ v = none

abbrev pub signed_only : Attrs → Option ℕ → Option ℕ
signed_only a o = if a.is_unsigned then none else o

abbrev pub variable : Env → Option Bytes → Option ℕ
variable env none = none
variable env (some x) = env x

-- A literal zero on the right of `!=` may be unsigned: to differ from 0 does not depend on it.
abbrev pub right_operand : BinOp → Ast → Option ℕ → Option ℕ
right_operand ne r o = if is_value 0 r then some 0 else o
right_operand _ r o = o

unfoldable pub eval : Env → Ast → Option ℕ
eval env (node int_literal a cs) = signed_only a (some (long_of a))
eval env (node var_ref a cs) = signed_only a (variable env a.value)
eval env (node unary_op a (cons x nil)) =
    signed_only a (eval env x >>= unary_value (unary_op_of a.value))
eval env (node binary_op a (cons l (cons r nil))) = signed_only a (
    binary_meaning (binary_op_of a.value) (eval env l)
      (right_operand (binary_op_of a.value) r (eval env r)))
eval env (node conditional_expr a (cons c (cons t (cons f nil)))) =
    let yes_value = eval env t in
    let no_value = eval env f in
    signed_only a (eval env c >>= λ v. if v == 0 then no_value else yes_value)
eval env (node cast a (cons x nil)) = signed_only a (eval env x >>= convert a.decl_type)
eval env _ = none
