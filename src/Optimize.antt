-- ===== src/Optimize.antt =====
-- The tree optimizer, src/optimize.c: what its rules share.
--
-- `Fold`, `Identities`, `Strength` and `Types` hold the rewrite blocks of `optimize_expr`, each a
-- function that answers `none` where the block falls through. `Expr` and `Stmt` hold the two walks.
-- `Eval` gives expressions a meaning, and `Sound` shows that the walk over expressions keeps it.
pub mod Fold
pub mod Identities
pub mod Strength
pub mod Types
pub mod Expr
pub mod Stmt
pub mod Eval
pub mod Sound
use claudec.Base.{
  ℕ, ◌+◌, Bool, true, false, Option, none, some, [], if◌then◌else◌, ◌==◌, Bytes, codes, str_eq,
}
use claudec.CType.{TypeKind, int}
use claudec.Ast.{int_literal, Attrs, Ast, node, nil, no_attrs}
use claudec.Long.Text.{strtol, print_long}

-- The operators that the `strcmp` chains tell apart.
pub data BinOp : Type 0 where
  add sub mul div rem and_bits or_bits xor_bits shl shr : BinOp
  lt le gt ge eq ne and_then or_else other : BinOp

pub data UnOp : Type 0 where
  minus plus logical_not complement other : UnOp

abbrev pub text : Option Bytes → Bytes
text none = []
text (some v) = v

unfoldable pub binary_op_of : Option Bytes → BinOp
binary_op_of v =
    if str_eq (text v) (codes "+")
    then add
    else if str_eq (text v) (codes "-")
    then sub
    else if str_eq (text v) (codes "*")
    then mul
    else if str_eq (text v) (codes "/")
    then div
    else if str_eq (text v) (codes "%")
    then rem
    else if str_eq (text v) (codes "&")
    then and_bits
    else if str_eq (text v) (codes "|")
    then or_bits
    else if str_eq (text v) (codes "^")
    then xor_bits
    else if str_eq (text v) (codes "<<")
    then shl
    else if str_eq (text v) (codes ">>")
    then shr
    else if str_eq (text v) (codes "<")
    then lt
    else if str_eq (text v) (codes "<=")
    then le
    else if str_eq (text v) (codes ">")
    then gt
    else if str_eq (text v) (codes ">=")
    then ge
    else if str_eq (text v) (codes "==")
    then eq
    else if str_eq (text v) (codes "!=")
    then ne
    else if str_eq (text v) (codes "&&")
    then and_then
    else if str_eq (text v) (codes "||")
    then or_else
    else BinOp.other

unfoldable pub unary_op_of : Option Bytes → UnOp
unary_op_of v =
    if str_eq (text v) (codes "-")
    then minus
    else if str_eq (text v) (codes "+")
    then plus
    else if str_eq (text v) (codes "!")
    then logical_not
    else if str_eq (text v) (codes "~")
    then complement
    else UnOp.other

-- The fields of a node that is an AST_INT_LITERAL.
abbrev pub literal : Ast → Option Attrs
literal (node int_literal a _) = some a
literal _ = none

-- `strtol(node->value, NULL, 0)`
abbrev pub long_of : Attrs → ℕ
long_of a = strtol (text a.value)

-- A literal with the value `v`.
abbrev pub is_value : ℕ → Ast → Bool
is_value v e = elim (literal e) [ none ↦ false | some a ↦ long_of a == v ]

abbrev pub is_literal : Ast → Bool
is_literal e = elim (literal e) [ none ↦ false | some _ ↦ true ]

abbrev pub literal_text : Bytes → TypeKind → Bool → Ast
literal_text v k u =
    node int_literal (record (no_attrs (some v)) { decl_type = k; is_unsigned = u }) nil

abbrev pub new_literal : ℕ → TypeKind → Bool → Ast
new_literal v = literal_text (print_long v)

-- What the source writes for `ast_new(AST_INT_LITERAL, "0")` and "1", with the type int.
abbrev pub zero_literal : Ast
zero_literal = literal_text (codes "0") int false

abbrev pub one_literal : Ast
one_literal = literal_text (codes "1") int false

-- The next block is tried where this one falls through.
infixr 20 ◌or_try◌
abbrev pub ◌or_try◌ : Option Ast → Option Ast → Option Ast
some e or_try o = some e
none or_try o = o
