-- ===== src/Optimize/Identities.antt =====
-- Blocks of `optimize_expr` on operands that need not be literals: double negation, algebraic
-- identities, logical simplification and the conditional expression.
use claudec.Base.{Bool, true, false, Option, none, some, ◌==◌, if◌then◌else◌, codes, str_eq}
use claudec.CType.{TypeKind, void, int}
use claudec.Ast.{
  binary_op, unary_op, var_ref, conditional_expr, Attrs, Ast, null, node, nil, cons, no_attrs,
}
use claudec.Long.{all_ones}
use claudec.Optimize.{
  BinOp, add, sub, mul, div, and_bits, or_bits, xor_bits, and_then, or_else, UnOp, minus,
  logical_not, text, binary_op_of, unary_op_of, literal, long_of, is_value, is_literal,
  literal_text, zero_literal, one_literal,
}

abbrev pub is_null : Ast → Bool
is_null null = true
is_null (node _ _ _) = false

-- The operand of a unary node, with the operator of that node.
abbrev pub unary_operand : Ast → Option (UnOp × Ast)
unary_operand (node unary_op n (cons x nil)) = some (unary_op_of n.value, x)
unary_operand _ = none

-- `(x != 0)` as a new node.
abbrev pub differs_from_zero : Ast → Ast
differs_from_zero x =
    node binary_op (record (no_attrs (some (codes "!="))) { decl_type = int })
      (cons x (cons zero_literal nil))

abbrev pub without_doubles : UnOp → Option (UnOp × Ast) → Option Ast
without_doubles logical_not (some (logical_not, x)) =
    if is_null x then none else if is_literal x then none else some (differs_from_zero x)
without_doubles minus (some (minus, x)) =
    if is_null x then none else if is_literal x then none else some x
without_doubles _ _ = none

-- `!!x` and `-(-x)`.
unfoldable pub double_operators : Ast → Option Ast
double_operators (node unary_op n (cons inner nil)) =
    without_doubles (unary_op_of n.value) (unary_operand inner)
double_operators _ = none

abbrev pub type_of : Ast → TypeKind
type_of null = void
type_of (node _ a _) = a.decl_type

abbrev pub unsigned_of : Ast → Bool
unsigned_of null = false
unsigned_of (node _ a _) = a.is_unsigned

-- The zero with the type of an operand.
abbrev pub zero_like : Ast → Ast
zero_like e = literal_text (codes "0") (type_of e) (unsigned_of e)

abbrev pub same_var : Ast → Ast → Bool
same_var (node var_ref a _) (node var_ref b _) = str_eq (text a.value) (text b.value)
same_var _ _ = false

-- The identity rules for an operator come before its zero rules.
unfoldable pub identity : BinOp → Ast → Ast → Option Ast
identity add l r = if is_value 0 r then some l else if is_value 0 l then some r else none
identity sub l r =
    if is_value 0 r then some l else if same_var l r then some (zero_like l) else none
identity mul l r =
    if is_value 1 r
    then some l
    else if is_value 1 l
    then some r
    else if is_value 0 r
    then some (zero_like l)
    else if is_value 0 l
    then some (zero_like r)
    else none
identity div l r =
    if is_value 1 r then some l else if is_value 0 l then some (zero_like r) else none
identity or_bits l r = if is_value 0 r then some l else if is_value 0 l then some r else none
identity and_bits l r =
    if is_value all_ones r
    then some l
    else if is_value all_ones l
    then some r
    else if is_value 0 r
    then some (zero_like l)
    else if is_value 0 l
    then some (zero_like r)
    else none
identity xor_bits l r = if same_var l r then some (zero_like l) else none
identity _ l r = none

unfoldable pub algebraic_identities : Ast → Option Ast
algebraic_identities (node binary_op n (cons l (cons r nil))) = identity (binary_op_of n.value) l r
algebraic_identities _ = none

-- The node reused for `x && nonzero` and `x || 0`.
abbrev pub as_test : Attrs → Attrs
as_test n = record n { value = some (codes "!="); decl_type = int }

abbrev pub simplify_logical : BinOp → Attrs → Ast → Ast → Option Attrs → Option Ast
simplify_logical and_then n l r (some b) =
    if long_of b == 0
    then some zero_literal
    else some (node binary_op (as_test n) (cons l (cons zero_literal nil)))
simplify_logical or_else n l r (some b) =
    if long_of b == 0
    then some (node binary_op (as_test n) (cons l (cons r nil)))
    else some one_literal
simplify_logical _ _ _ _ _ = none

unfoldable pub logical_simplification : Ast → Option Ast
logical_simplification (node binary_op n (cons l (cons r nil))) =
    simplify_logical (binary_op_of n.value) n l r (literal r)
logical_simplification _ = none

abbrev pub choose_branch : Option Attrs → Ast → Ast → Option Ast
choose_branch none t f = none
choose_branch (some c) t f = if long_of c == 0 then some f else some t

unfoldable pub conditional_folding : Ast → Option Ast
conditional_folding (node conditional_expr n (cons c (cons t (cons f nil)))) =
    choose_branch (literal c) t f
conditional_folding _ = none
