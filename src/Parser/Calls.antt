-- ===== src/Parser/Calls.antt =====
-- What the parsers of src/parser.c call again, and what several of them do: the arguments of a call
-- and the operators of a level.
use claudec.Base.{ℕ, zero, suc, Bool, Option, some, List, if◌then◌else◌, Bytes}
use claudec.Ast.{NodeType, Ast, ast_add_child}
use claudec.Lexer.{TokenType}
use claudec.Parser.{
  Parser, done, no_fuel, ◌>>=◌, Parse, is, is_one_of, advance, parser_expect, parser_node, size,
}
use claudec.Parser.TypeNames.{parse_type_name}
use claudec.CType.{CType}

-- The parsers that are called again behind a token that was passed.
pub record Calls : Type 0 where
  pub expression : Parse Ast
  pub assignment : Parse Ast
  pub conditional : Parse Ast
  pub cast : Parse Ast
  pub unary : Parse Ast
  pub initializer : Parse Ast
  pub const_expr : Parse ℕ
  pub const_unary : Parse ℕ
  -- That two types are the same object.
  pub same_object : CType → CType → Bool

abbrev pub type_name : Calls → Parse CType
type_name b p = parse_type_name b.const_expr p

abbrev pub with_child : Parser → NodeType → Option Bytes → Ast → Ast
with_child p t value a = ast_add_child (parser_node p t value) a

abbrev pub with_children : Parser → NodeType → Option Bytes → Ast → Ast → Ast
with_children p t value a b = ast_add_child (with_child p t value a) b

-- `while (parser->current.type == TOKEN_COMMA) ...` of a call, with fuel.
unfoldable pub more_arguments : ℕ → Parse Ast → Ast → Parse Ast
more_arguments zero assignment call p = no_fuel
more_arguments (suc fuel) assignment call p =
    let rest = (do
      p₁ ← advance p
      (a, p₂) ← assignment p₁
      more_arguments fuel assignment (ast_add_child call a) p₂) in
    if is TokenType.comma p then rest else done (call, p)

abbrev pub some_arguments : Parse Ast → Ast → Parse Ast
some_arguments assignment call p = if is TokenType.rparen p then done (call, p) else (do
  (a, p₁) ← assignment p
  more_arguments (suc (size p₁)) assignment (ast_add_child call a) p₁)

-- The arguments up to the closing parenthesis, as children of the call.
unfoldable pub call_arguments : Parse Ast → Ast → Parse Ast
call_arguments assignment call p = do
  (c, p₁) ← some_arguments assignment call p
  (_, p₂) ← parser_expect TokenType.rparen p₁
  done (c, p₂)

-- The loop of a level with its operators, with fuel.
unfoldable pub binary_rest : ℕ → List TokenType → Parse Ast → Ast → Parse Ast
binary_rest zero ops operand left p = no_fuel
binary_rest (suc fuel) ops operand left p =
    let rest = (do
      p₁ ← advance p
      (right, p₂) ← operand p₁
      binary_rest fuel ops operand
          (with_children p₂ NodeType.binary_op (some p.current.value) left right) p₂) in
    if is_one_of ops p then rest else done (left, p)

unfoldable pub binary_level : List TokenType → Parse Ast → Parse Ast
binary_level ops operand p = do
  (left, p') ← operand p
  binary_rest (suc (size p')) ops operand left p'
