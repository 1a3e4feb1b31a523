-- ===== src/Parser/Constant.antt =====
-- `eval_const_primary` to `eval_const_expr`, src/parser.c: a constant is evaluated while it is read. A
-- `long` is its bit pattern, overflow wraps, and the processor masks the count of a shift.
use claudec.Base.{
  ℕ, zero, suc, not, Option, none, some, List, [], ◌∷◌, ◌==◌, if◌then◌else◌, Bytes, codes, str_eq,
}
use claudec.Long.{
  add_long, sub_long, mul_long, neg_long, not_long, div_long, rem_long, shl_long, shr_long, lt_long,
  of_bool,
}
use claudec.CType.{
  TypeKind, CType, Fields, null as null_type, type, no_field, field, kind_eq, type_size,
}
use claudec.Ast.{NodeType, Attrs, Ast, Children, null, node, cons}
use claudec.Preprocessor.Operator.{traps}
use claudec.Lexer.{TokenType}
use claudec.Lexer.Codes.{token_eq}
use claudec.Parser.{
  EnumConst, Parsed, done, error, no_fuel, ◌>>=◌, Parse, is, is_one_of, advance, parser_expect,
  size,
}
use claudec.Parser.Tables.{find_enum_const}
use claudec.Parser.TypeNames.{type_starts, begins_type}
use claudec.Parser.Types.{info, base_of, type_kind}
use claudec.Parser.Calls.{Calls, type_name}
use claudec.Parser.Unary.{is_open_array}

unfoldable pub literal_constant : Parse ℕ
literal_constant p = do p' ← advance p; done (p.current.long_value, p')

abbrev pub named_constant : Option EnumConst → Parse ℕ
named_constant none p = error (codes "error: %s is not an integer constant expression")
named_constant (some c) p = do p' ← advance p; done (c.value, p')

-- The tokens that begin a cast.
abbrev pub const_cast_starts : List TokenType
const_cast_starts =
    TokenType.void ∷ TokenType.char ∷ TokenType.short ∷ TokenType.int ∷ TokenType.long
    ∷ TokenType.signed ∷ TokenType.unsigned ∷ TokenType.float ∷ TokenType.double ∷ TokenType.const
    ∷ TokenType.volatile ∷ []

-- After a parenthesis. The type of a cast is read, and the value is not converted.
unfoldable pub cast_or_constant : Calls → Parse ℕ
cast_or_constant b p =
    if begins_type const_cast_starts p
    then (do (_, p₁) ← type_name b p; (_, p₂) ← parser_expect TokenType.rparen p₁; b.const_unary p₂)
    else (do (v, p₁) ← b.const_expr p; (_, p₂) ← parser_expect TokenType.rparen p₁; done (v, p₂))

-- The size of a value of a kind.
abbrev pub kind_size : TypeKind → ℕ
kind_size TypeKind.pointer = 8
kind_size TypeKind.long = 8
kind_size TypeKind.long_long = 8
kind_size TypeKind.unsigned_long_long = 8
kind_size TypeKind.double = 8
kind_size TypeKind.short = 2
kind_size TypeKind.char = 1
kind_size TypeKind.bool = 1
kind_size _ = 4

abbrev pub typed_size : CType → TypeKind → ℕ
typed_size null_type kind = kind_size kind
typed_size t kind = (info t).size

-- The first field of the name, and 4 if there is none.
unfoldable pub field_size : Fields → Bytes → ℕ
field_size no_field name = 4
field_size (field f t fs) name =
    if str_eq f.name name then typed_size t f.kind else field_size fs name

abbrev pub fields_of : CType → Fields
fields_of null_type = no_field
fields_of (type i b ps fs) = fs

-- The struct that the first child points to, if its type says so.
abbrev pub pointed_struct : NodeType → Children → CType
pointed_struct NodeType.arrow_access (cons (node t a cs) ds) =
    if kind_eq (type_kind a.full_type) TypeKind.pointer then base_of a.full_type else null_type
pointed_struct _ _ = null_type

abbrev pub or_empty : Option Bytes → Bytes
or_empty none = []
or_empty (some s) = s

abbrev pub member_or_kind_size : CType → Attrs → ℕ
member_or_kind_size null_type a = kind_size a.decl_type
member_or_kind_size t a = field_size (fields_of t) (or_empty a.value)

abbrev pub attrs_size : CType → NodeType → Attrs → Children → ℕ
attrs_size null_type t a cs = member_or_kind_size (pointed_struct t cs) a
attrs_size full_type t a cs = type_size full_type

-- The size of an expression, by what the parser has put into its node.
unfoldable pub expr_size : Ast → ℕ
expr_size null = 4
expr_size (node t a cs) = attrs_size a.full_type t a cs

unfoldable pub const_sizeof_type : CType → Parse ℕ
const_sizeof_type t p =
    if kind_eq (type_kind t) TypeKind.void
    then error (codes "error: sizeof applied to void type in constant expression")
    else if is_open_array t
    then error (codes "error: sizeof applied to incomplete array type in constant expression")
    else (do (_, p') ← parser_expect TokenType.rparen p; done (type_size t, p'))

-- After `sizeof` and a parenthesis.
unfoldable pub const_sizeof_in_parens : Calls → Parse ℕ
const_sizeof_in_parens b p =
    if begins_type (TokenType.enum ∷ type_starts) p
    then (do (t, p') ← type_name b p; const_sizeof_type t p')
    else (do
      (e, p₁) ← b.expression p
      (_, p₂) ← parser_expect TokenType.rparen p₁
      done (expr_size e, p₂))

unfoldable pub const_sizeof : Calls → Parse ℕ
const_sizeof b p =
    if is TokenType.lparen p
    then (do p' ← advance p; const_sizeof_in_parens b p')
    else error (codes "error: sizeof requires a parenthesized type name in a constant expression")

unfoldable pub eval_const_primary : Calls → Parse ℕ
eval_const_primary b p =
    if is TokenType.int_literal p
    then literal_constant p
    else if is TokenType.char_literal p
    then literal_constant p
    else if is TokenType.identifier p
    then named_constant (find_enum_const p.enum_consts p.current.value) p
    else if is TokenType.lparen p
    then (do p' ← advance p; cast_or_constant b p')
    else if is TokenType.sizeof p
    then (do p' ← advance p; const_sizeof b p')
    else error (codes "error: %s is not an integer constant expression")

-- An operator before an operand.
unfoldable pub const_signed : (ℕ → ℕ) → Parse ℕ → Parse ℕ
const_signed f const_unary p = do p₁ ← advance p; (v, p₂) ← const_unary p₁; done (f v, p₂)

unfoldable pub eval_const_unary : Calls → Parse ℕ
eval_const_unary b p =
    if is TokenType.minus p
    then const_signed neg_long b.const_unary p
    else if is TokenType.plus p
    then const_signed (λ v. v) b.const_unary p
    else if is TokenType.tilde p
    then const_signed not_long b.const_unary p
    else if is TokenType.bang p
    then const_signed (λ v. of_bool (v == 0)) b.const_unary p
    else eval_const_primary b p

-- What a level does with the values at an operator.
abbrev pub Apply : Type 0
Apply = TokenType → ℕ → ℕ → Parsed ℕ

-- The loop of a level with its operators, with fuel.
unfoldable pub const_rest : ℕ → List TokenType → Apply → Parse ℕ → ℕ → Parse ℕ
const_rest zero ops apply operand val p = no_fuel
const_rest (suc fuel) ops apply operand val p =
    let rest = (do
      p₁ ← advance p
      (rhs, p₂) ← operand p₁
      v ← apply p.current.token_type val rhs
      const_rest fuel ops apply operand v p₂) in
    if is_one_of ops p then rest else done (val, p)

unfoldable pub const_level : List TokenType → Apply → Parse ℕ → Parse ℕ
const_level ops apply operand p = do
  (val, p') ← operand p
  const_rest (suc (size p')) ops apply operand val p'

-- The quotient of the least `long` by -1 does not exist, and the process is ended by a signal.
abbrev pub const_divide : (ℕ → ℕ → ℕ) → ℕ → ℕ → Parsed ℕ
const_divide f a b =
    if b == 0
    then error (codes "error: division by zero in constant expression")
    else if traps a b
    then error (codes "SIGFPE")
    else done (f a b)

abbrev pub multiplicative : Apply
multiplicative op a b =
    if token_eq op TokenType.star
    then done (mul_long a b)
    else if token_eq op TokenType.slash
    then const_divide div_long a b
    else const_divide rem_long a b

abbrev pub additive : Apply
additive op a b = if token_eq op TokenType.plus then done (add_long a b) else done (sub_long a b)

abbrev pub shifted : Apply
shifted op a b =
    if token_eq op TokenType.left_shift then done (shl_long a b) else done (shr_long a b)

abbrev pub relational : Apply
relational op a b =
    if token_eq op TokenType.lt
    then done (of_bool (lt_long a b))
    else if token_eq op TokenType.le
    then done (of_bool (not (lt_long b a)))
    else if token_eq op TokenType.gt
    then done (of_bool (lt_long b a))
    else done (of_bool (not (lt_long a b)))

abbrev pub equality : Apply
equality op a b =
    if token_eq op TokenType.eq then done (of_bool (a == b)) else done (of_bool (not (a == b)))
