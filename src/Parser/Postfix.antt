-- ===== src/Parser/Postfix.antt =====
-- `parse_postfix_suffixes` and `parse_postfix`, src/parser.c.
use claudec.Base.{
  ℕ, zero, suc, Bool, true, false, Option, none, some, List, [], ◌∷◌, if◌then◌else◌, codes,
}
use claudec.CType.{CType}
use claudec.Ast.{NodeType, Ast, null, node}
use claudec.Lexer.{TokenType}
use claudec.Parser.{
  Parser, done, error, no_fuel, ◌>>=◌, Parse, is, is_one_of, advance, parser_expect, restore, size,
}
use claudec.Parser.TypeNames.{type_starts, begins_type}
use claudec.Parser.Calls.{Calls, type_name, with_child, with_children, call_arguments}
use claudec.Parser.Initializer.{build_compound_literal}
use claudec.Parser.Primary.{parse_primary}

abbrev pub node_type : Ast → Option NodeType
node_type null = none
node_type (node t a cs) = some t

-- What an index may follow.
abbrev pub is_subscript_base : Option NodeType → Bool
is_subscript_base (some NodeType.var_ref) = true
is_subscript_base (some NodeType.deref) = true
is_subscript_base (some NodeType.array_index) = true
is_subscript_base (some NodeType.member_access) = true
is_subscript_base (some NodeType.arrow_access) = true
is_subscript_base (some NodeType.compound_literal) = true
is_subscript_base (some NodeType.string_literal) = true
is_subscript_base _ = false

unfoldable pub call_suffix : Calls → Ast → Parse Ast
call_suffix b expr p = do
  p' ← advance p
  call_arguments b.assignment (with_child p' NodeType.indirect_call none expr) p'

unfoldable pub index_suffix : Calls → Ast → Parse Ast
index_suffix b expr p =
    if is_subscript_base (node_type expr)
    then (do
      p₁ ← advance p
      (index, p₂) ← b.expression p₁
      (_, p₃) ← parser_expect TokenType.rbracket p₂
      done (with_children p₃ NodeType.array_index none expr index, p₃))
    else error (codes "error: subscript base must be an identifier")

unfoldable pub field_suffix : NodeType → Ast → Parse Ast
field_suffix access expr p = do
  p₁ ← advance p
  (field, p₂) ← parser_expect TokenType.identifier p₁
  done (with_child p₂ access (some field.value) expr, p₂)

unfoldable pub inc_dec_suffix : Ast → Parse Ast
inc_dec_suffix expr p = do
  p' ← advance p
  done (with_child p' NodeType.postfix_inc_dec (some p.current.value) expr, p')

-- A round of the loop.
unfoldable pub suffix : Calls → Ast → Parse Ast
suffix b expr p =
    if is TokenType.lparen p
    then call_suffix b expr p
    else if is TokenType.lbracket p
    then index_suffix b expr p
    else if is TokenType.dot p
    then field_suffix NodeType.member_access expr p
    else if is TokenType.arrow p
    then field_suffix NodeType.arrow_access expr p
    else inc_dec_suffix expr p

abbrev pub suffix_starts : List TokenType
suffix_starts =
    TokenType.increment ∷ TokenType.decrement ∷ TokenType.lbracket ∷ TokenType.lparen
    ∷ TokenType.dot ∷ TokenType.arrow ∷ []

-- The loop, with fuel.
unfoldable pub suffixes : ℕ → Calls → Ast → Parse Ast
suffixes zero b expr p = no_fuel
suffixes (suc fuel) b expr p =
    let rest = (do (e, p') ← suffix b expr p; suffixes fuel b e p') in
    if is_one_of suffix_starts p then rest else done (expr, p)

unfoldable pub parse_postfix_suffixes : Calls → Ast → Parse Ast
parse_postfix_suffixes b expr p = suffixes (suc (size p)) b expr p

unfoldable pub primary_postfix : Calls → Parse Ast
primary_postfix b p = do (base, p') ← parse_primary b p; parse_postfix_suffixes b base p'

abbrev pub literal_postfix : Calls → CType → Parse Ast
literal_postfix b t p = do
  (base, p') ← build_compound_literal b t p
  parse_postfix_suffixes b base p'

-- After a type name: a compound literal, if a brace follows the parenthesis.
abbrev pub literal_or_primary : Calls → Parser → CType → Parse Ast
literal_or_primary b start t p =
    if is TokenType.rparen p
    then (do
      p' ← advance p
      if is TokenType.lbrace p'
          then literal_postfix b t p'
          else primary_postfix b (restore start p'))
    else primary_postfix b (restore start p)

-- After a parenthesis.
abbrev pub type_or_primary : Calls → Parser → Parse Ast
type_or_primary b start p =
    if begins_type type_starts p
    then (do (t, p') ← type_name b p; literal_or_primary b start t p')
    else primary_postfix b (restore start p)

unfoldable pub parse_postfix : Calls → Parse Ast
parse_postfix b p =
    if is TokenType.lparen p
    then (do p' ← advance p; type_or_primary b p p')
    else primary_postfix b p
