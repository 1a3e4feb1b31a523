-- ===== src/Parser/Tags.antt =====
-- `parse_enum_specifier`, `parse_struct_specifier` and `parse_union_specifier`, src/parser.c. At the body of
-- a struct or a union the model ends.
use claudec.Base.{
  ℕ, zero, suc, Bool, true, false, Option, none, some, [], ◌∷◌, ◌++◌, Bytes, codes, if◌then◌else◌,
}
use claudec.Long.{add_long}
use claudec.CType.{CType, type_int, type_struct, type_union}
use claudec.Lexer.{TokenType}
use claudec.Parser.{
  EnumConst, Parser, Parsed, done, error, beyond, no_fuel, ◌>>=◌, Parse, is, advance, parser_expect,
  size,
}
use claudec.Parser.Tables.{find_enum_const, refer, define_enum_tag, declare_enum_tag}

-- `if (parser->current.type == k) parser->current = lexer_next_token(parser->lexer);`
abbrev pub skip_if : TokenType → Parser → Parsed Parser
skip_if k p = if is k p then advance p else done p

-- Whether there is an enumerator of the name already.
abbrev pub is_const : Option EnumConst → Bool
is_const none = false
is_const (some c) = true

-- The value after `=`, or the next one.
unfoldable pub enum_value : Parse ℕ → ℕ → Parse ℕ
enum_value eval_const_expr next_val p =
    if is TokenType.assign p
    then (do p₁ ← advance p; (v, p₂) ← eval_const_expr p₁; done (v, p₂))
    else done (next_val, p)

abbrev pub with_const : Bytes → ℕ → Parser → Parser
with_const name value p = record p {
  enum_consts = p.enum_consts ++ record { name = name; value = value } ∷ [];
}

-- What follows the name of an enumerator, with the next value.
unfoldable pub enumerator_rest : Parse ℕ → Bytes → ℕ → Parse ℕ
enumerator_rest eval_const_expr ename next_val p =
    if is_const (find_enum_const p.enum_consts ename)
    then error (codes "error: duplicate enumerator '%s'")
    else (do
      (v, p₁) ← enum_value eval_const_expr next_val p
      p₂ ← skip_if TokenType.comma (with_const ename v p₁)
      done (add_long v 1, p₂))

-- The loop over the enumerators, with fuel.
unfoldable pub enumerators : ℕ → Parse ℕ → ℕ → Parse ℕ
enumerators zero eval_const_expr next_val p = no_fuel
enumerators (suc fuel) eval_const_expr next_val p =
    let rest = (do
      p₁ ← advance p
      (n, p₂) ← enumerator_rest eval_const_expr p.current.value next_val p₁
      enumerators fuel eval_const_expr n p₂) in
    if is TokenType.rbrace p
    then done (next_val, p)
    else if is TokenType.identifier p
    then rest
    else error (codes "error: expected identifier in enumerator list, got '%s'")

abbrev pub defined_tag : Option Bytes → Parser → Parser
defined_tag none p = p
defined_tag (some tag) p = record p { enum_tags = define_enum_tag p.enum_tags tag }

-- After the opening brace.
unfoldable pub enum_body : Parse ℕ → Option Bytes → Parse CType
enum_body eval_const_expr tag p = do
  (_, p₁) ← enumerators (suc (size p)) eval_const_expr 0 (defined_tag tag p)
  (_, p₂) ← parser_expect TokenType.rbrace p₁
  done (type_int, p₂)

-- Without a body.
abbrev pub enum_reference : Option Bytes → Parse CType
enum_reference none p = error (codes "error: expected identifier or '{' after 'enum'")
enum_reference (some tag) p =
    done (type_int, record p { enum_tags = declare_enum_tag p.enum_tags tag })

unfoldable pub enum_rest : Parse ℕ → Option Bytes → Parse CType
enum_rest eval_const_expr tag p =
    if is TokenType.lbrace p
    then (do p' ← advance p; enum_body eval_const_expr tag p')
    else enum_reference tag p

-- The tag, where there is one.
unfoldable pub enum_tag : Parse (Option Bytes)
enum_tag p =
    if is TokenType.identifier p
    then (do p' ← advance p; done (some p.current.value, p'))
    else done (none, p)

unfoldable pub parse_enum_specifier : Parse ℕ → Parse CType
parse_enum_specifier eval_const_expr p = do
  p₁ ← advance p
  (tag, p₂) ← enum_tag p₁
  enum_rest eval_const_expr tag p₂

-- A tag without a body.
abbrev pub struct_reference : Bytes → Parser → CType × Parser
struct_reference tag p =
    let r = refer (type_struct 0 0) p.struct_tags tag in (r.0, record p { struct_tags = r.1 })

abbrev pub union_reference : Bytes → Parser → CType × Parser
union_reference tag p =
    let r = refer (type_union 0 0) p.union_tags tag in (r.0, record p { union_tags = r.1 })

abbrev pub without_body : (Parser → CType × Parser) → Parse CType
without_body reference p = if is TokenType.lbrace p then beyond else done (reference p)

-- After the keyword.
unfoldable pub tag_or_body : (Bytes → Parser → CType × Parser) → Bytes → Parse CType
tag_or_body reference message p =
    if is TokenType.identifier p
    then (do p' ← advance p; without_body (reference p.current.value) p')
    else if is TokenType.lbrace p
    then beyond
    else error message

unfoldable pub tagged_type : (Bytes → Parser → CType × Parser) → Bytes → Parse CType
tagged_type reference message p = do p' ← advance p; tag_or_body reference message p'

abbrev pub parse_struct_specifier : Parse CType
parse_struct_specifier p =
    tagged_type struct_reference (codes "error: expected identifier or '{' after 'struct'") p

abbrev pub parse_union_specifier : Parse CType
parse_union_specifier p =
    tagged_type union_reference (codes "error: expected identifier or '{' after 'union'") p
