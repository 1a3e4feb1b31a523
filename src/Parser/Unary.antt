-- ===== src/Parser/Unary.antt =====
-- `parse_unary` and `parse_cast`, src/parser.c.
use claudec.Base.{
  Bool, true, false, not, ◌&&◌, Option, none, some, List, [], ◌∷◌, ◌==◌, if◌then◌else◌, codes,
}
use claudec.CType.{TypeKind, CType, null as null_type, kind_eq}
use claudec.Ast.{NodeType, Attrs, Ast, ast_add_child}
use claudec.Lexer.{TokenType}
use claudec.Parser.{
  Parser, done, error, ◌>>=◌, Parse, is, is_one_of, advance, parser_expect, parser_node, with_attrs,
  restore,
}
use claudec.Parser.TypeNames.{type_starts, begins_type}
use claudec.Parser.Types.{info, type_kind}
use claudec.Parser.Calls.{Calls, type_name, with_child}
use claudec.Parser.Initializer.{build_compound_literal}
use claudec.Parser.Postfix.{node_type, parse_postfix_suffixes, parse_postfix}

-- An array type whose length is left out.
abbrev pub is_open_array : CType → Bool
is_open_array t = kind_eq (type_kind t) TypeKind.array && ((info t).length == 0)

abbrev pub has_fields_or_elements : TypeKind → Bool
has_fields_or_elements TypeKind.struct = true
has_fields_or_elements TypeKind.union = true
has_fields_or_elements TypeKind.array = true
has_fields_or_elements _ = false

abbrev pub sizeof_attrs : CType → Attrs → Attrs
sizeof_attrs t a = record a {
  decl_type = type_kind t;
  full_type = if has_fields_or_elements (type_kind t) then t else null_type;
}

-- After the type.
unfoldable pub sizeof_type : CType → Parse Ast
sizeof_type t p =
    if kind_eq (type_kind t) TypeKind.void
    then error (codes "error: sizeof applied to void type")
    else if is_open_array t
    then error (codes "error: sizeof applied to incomplete array type")
    else (do
      (_, p') ← parser_expect TokenType.rparen p
      done (with_attrs (sizeof_attrs t) (parser_node p' NodeType.sizeof_type none), p'))

-- After `sizeof` and a parenthesis.
unfoldable pub sizeof_in_parens : Calls → Parse Ast
sizeof_in_parens b p =
    if begins_type type_starts p
    then (do (t, p') ← type_name b p; sizeof_type t p')
    else if is TokenType.rparen p
    then error (codes "error: expected expression or type in sizeof")
    else (do
      (a, p₁) ← b.expression p
      (_, p₂) ← parser_expect TokenType.rparen p₁
      done (with_child p₂ NodeType.sizeof_expr none a, p₂))

-- After `sizeof`.
unfoldable pub sizeof_operand : Calls → Parse Ast
sizeof_operand b p =
    if is TokenType.lparen p
    then (do p' ← advance p; sizeof_in_parens b p')
    else (do (a, p') ← b.unary p; done (with_child p' NodeType.sizeof_expr none a, p'))

abbrev pub is_addressable : Option NodeType → Bool
is_addressable (some NodeType.var_ref) = true
is_addressable (some NodeType.array_index) = true
is_addressable (some NodeType.member_access) = true
is_addressable (some NodeType.arrow_access) = true
is_addressable (some NodeType.compound_literal) = true
is_addressable _ = false

-- The operators that keep their text, before an operand.
unfoldable pub named_unary : NodeType → Parse Ast → Parse Ast
named_unary t unary p = do
  p₁ ← advance p
  (a, p₂) ← unary p₁
  done (with_child p₂ t (some p.current.value) a, p₂)

abbrev pub address_of : Ast → Parse Ast
address_of a p =
    if is_addressable (node_type a)
    then done (with_child p NodeType.addr_of none a, p)
    else error (codes "error: address-of requires an lvalue")

abbrev pub inc_dec : List TokenType
inc_dec = TokenType.increment ∷ TokenType.decrement ∷ []

abbrev pub signs : List TokenType
signs = TokenType.plus ∷ TokenType.minus ∷ TokenType.bang ∷ TokenType.tilde ∷ []

unfoldable pub parse_unary : Calls → Parse Ast
parse_unary b p =
    if is TokenType.sizeof p
    then (do p' ← advance p; sizeof_operand b p')
    else if is_one_of inc_dec p
    then named_unary NodeType.prefix_inc_dec b.unary p
    else if is TokenType.ampersand p
    then (do p₁ ← advance p; (a, p₂) ← b.unary p₁; address_of a p₂)
    else if is TokenType.star p
    then (do p₁ ← advance p; (a, p₂) ← b.unary p₁; done (with_child p₂ NodeType.deref none a, p₂))
    else if is_one_of signs p
    then named_unary NodeType.unary_op b.unary p
    else parse_postfix b p

abbrev pub cast_attrs : CType → Attrs → Attrs
cast_attrs t a = record a {
  decl_type = type_kind t;
  is_unsigned = not (info t).is_signed;
  full_type = if kind_eq (type_kind t) TypeKind.pointer then t else null_type;
}

abbrev pub cast_node : Parser → CType → Ast → Ast
cast_node p t a = ast_add_child (with_attrs (cast_attrs t) (parser_node p NodeType.cast none)) a

-- After a type in parentheses.
unfoldable pub cast_or_literal : Calls → CType → Parse Ast
cast_or_literal b t p =
    if is TokenType.lbrace p
    then (do (l, p') ← build_compound_literal b t p; parse_postfix_suffixes b l p')
    else if is_open_array t
    then error (codes "error: array type in cast has omitted size")
    else (do (a, p') ← b.cast p; done (cast_node p' t a, p'))

-- After a parenthesis.
abbrev pub type_or_unary : Calls → Parser → Parse Ast
type_or_unary b start p =
    if begins_type type_starts p
    then (do
      (t, p₁) ← type_name b p
      (_, p₂) ← parser_expect TokenType.rparen p₁
      cast_or_literal b t p₂)
    else parse_unary b (restore start p)

unfoldable pub parse_cast : Calls → Parse Ast
parse_cast b p =
    if is TokenType.lparen p then (do p' ← advance p; type_or_unary b p p') else parse_unary b p
