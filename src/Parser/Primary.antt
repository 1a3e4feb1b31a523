-- ===== src/Parser/Primary.antt =====
-- `parse_primary`, src/parser.c. That the length of a string exceeds an `int` is not modelled.
use claudec.Base.{
  ℕ, zero, suc, ◌+◌, Bool, true, false, not, ◌||◌, Option, none, some, ◌++◌, ◌==◌, ltb,
  if◌then◌else◌, Bytes, codes, str_eq, length,
}
use claudec.CType.{TypeKind, CType, type_char, type_float, type_double, type_array, type_kind_name}
use claudec.Ast.{NodeType, Attrs, Ast, null, node, child_count}
use claudec.Long.Text.{print_long}
use claudec.Lexer.{TokenType}
use claudec.Parser.{
  EnumConst, FuncSig, Parser, Parsed, done, error, no_fuel, ◌>>=◌, Parse, is, advance,
  parser_expect, parser_node, with_attrs, store, size,
}
use claudec.Parser.Tables.{parser_find_function, find_enum_const}
use claudec.Parser.Types.{type_kind}
use claudec.Parser.Calls.{Calls, type_name, with_child, with_children, call_arguments}

-- The bytes of the string literals that follow, with fuel.
unfoldable pub adjacent_strings : ℕ → Bytes → Parse Bytes
adjacent_strings zero bytes p = no_fuel
adjacent_strings (suc fuel) bytes p =
    let rest = (do p' ← advance p; adjacent_strings fuel (bytes ++ p.current.value) p') in
    if is TokenType.string_literal p then rest else done (bytes, p)

-- A string literal with its type.
abbrev pub string_node : Parser → Bytes → Ast
string_node p s =
    with_attrs
      (λ a. record a {
        byte_length = length s;
        decl_type = TypeKind.array;
        full_type = type_array type_char (length s + 1);
      })
      (parser_node p NodeType.string_literal (some s))

-- Only the bytes of several literals are stored again.
abbrev pub stored_if : Bool → Bytes → Parser → Parser
stored_if b s p = if b then store s p else p

unfoldable pub string_primary : Parse Ast
string_primary p = do
  p₁ ← advance p
  (s, p₂) ← adjacent_strings (suc (size p₁)) p.current.value p₁
  done (string_node p₁ s, stored_if (is TokenType.string_literal p₁) s p₂)

unfoldable pub int_primary : Parse Ast
int_primary p = do
  (t, p') ← parser_expect TokenType.int_literal p
  done (
    with_attrs (λ a. record a { decl_type = t.literal_type; is_unsigned = t.is_unsigned })
        (parser_node p' NodeType.int_literal (some t.value)),
    p',
  )

abbrev pub float_attrs : Bool → Attrs → Attrs
float_attrs true a = record a { decl_type = TypeKind.float; full_type = type_float }
float_attrs false a = record a { decl_type = TypeKind.double; full_type = type_double }

unfoldable pub float_primary : Parse Ast
float_primary p = do
  p' ← advance p
  done (
    with_attrs (float_attrs (is TokenType.float_literal p))
        (parser_node p' NodeType.float_literal (some p.current.value)),
    p',
  )

unfoldable pub char_primary : Parse Ast
char_primary p = do
  p' ← advance p
  done (
    with_attrs (λ a. record a { byte_length = 1; decl_type = TypeKind.int })
        (parser_node p' NodeType.char_literal (some p.current.value)),
    p',
  )

-- `__func__`
abbrev pub func_name : Option Bytes → Parse Ast
func_name none p = error (codes "error: '__func__' used outside of a function body")
func_name (some name) p = do p' ← advance p; done (string_node p' name, store name p')

abbrev pub second_argument : Parser → Parsed Parser
second_argument p =
    if is TokenType.comma p
    then advance p
    else error (codes "error: __builtin_va_start requires exactly 2 arguments")

abbrev pub va_start_arguments : Calls → Parse Ast
va_start_arguments b p =
    if p.current_func_is_variadic
    then (do
      (a, p₁) ← b.assignment p
      p₂ ← second_argument p₁
      (c, p₃) ← b.assignment p₂
      (_, p₄) ← parser_expect TokenType.rparen p₃
      done (with_children p NodeType.builtin_va_start (some (codes "__builtin_va_start")) a c, p₄))
    else error (codes "error: __builtin_va_start used outside a variadic function")

unfoldable pub va_start : Calls → Parse Ast
va_start b p = do
  p₁ ← advance p
  (_, p₂) ← parser_expect TokenType.lparen p₁
  va_start_arguments b p₂

unfoldable pub va_end : Calls → Parse Ast
va_end b p = do
  p₁ ← advance p
  (_, p₂) ← parser_expect TokenType.lparen p₁
  (a, p₃) ← b.assignment p₂
  (_, p₄) ← parser_expect TokenType.rparen p₃
  done (with_child p₂ NodeType.builtin_va_end (some (codes "__builtin_va_end")) a, p₄)

unfoldable pub va_copy : Calls → Parse Ast
va_copy b p = do
  p₁ ← advance p
  (_, p₂) ← parser_expect TokenType.lparen p₁
  (a, p₃) ← b.assignment p₂
  (_, p₄) ← parser_expect TokenType.comma p₃
  (c, p₅) ← b.assignment p₄
  (_, p₆) ← parser_expect TokenType.rparen p₅
  done (with_children p₂ NodeType.builtin_va_copy (some (codes "__builtin_va_copy")) a c, p₆)

abbrev pub va_arg_node : Parser → Ast → CType → Ast
va_arg_node p a t =
    with_attrs
      (λ x. record x {
        decl_type = type_kind t;
        full_type = t;
        value = some (type_kind_name (type_kind t));
      })
      (with_child p NodeType.builtin_va_arg none a)

unfoldable pub va_arg : Calls → Parse Ast
va_arg b p = do
  p₁ ← advance p
  (_, p₂) ← parser_expect TokenType.lparen p₁
  (a, p₃) ← b.assignment p₂
  (_, p₄) ← parser_expect TokenType.comma p₃
  (t, p₅) ← type_name b p₄
  (_, p₆) ← parser_expect TokenType.rparen p₅
  done (va_arg_node p₂ a t, p₆)

abbrev pub enum_const_node : Parser → EnumConst → Ast
enum_const_node p c =
    with_attrs (λ a. record a { decl_type = TypeKind.int })
      (parser_node p NodeType.int_literal (some (print_long c.value)))

abbrev pub arguments_of : Ast → ℕ
arguments_of null = 0
arguments_of (node t a cs) = child_count cs

-- The number of arguments that a function takes.
abbrev pub accepts_count : Option ℕ → Bool → ℕ → Bool
accepts_count none at_least n = true
accepts_count (some k) at_least n = if at_least then not (ltb n k) else k == n

abbrev pub accepts : FuncSig → ℕ → Bool
accepts s n = if s.has_no_prototype then true else accepts_count s.param_count s.is_variadic n

-- The test of the number of arguments, and the type of the call.
unfoldable pub checked_call : FuncSig → Ast → Parse Ast
checked_call s call p =
    if accepts s (arguments_of call)
    then done (with_attrs (λ a. record a { decl_type = s.return_type }) call, p)
    else error (codes "error: function '%s' expects %d arguments, got %d")

-- After the opening parenthesis.
abbrev pub call_of : Parse Ast → Bytes → Option FuncSig → Parse Ast
call_of assignment name (some s) p = do
  (call, p') ← call_arguments assignment (parser_node p NodeType.function_call (some name)) p
  checked_call s call p'
call_of assignment name none p =
    call_arguments assignment
      (with_child p NodeType.indirect_call none (parser_node p NodeType.var_ref (some name))) p

abbrev pub called : Parse Ast → Bytes → Parse Ast
called assignment name p =
    if is TokenType.lparen p
    then (do
      (_, p') ← parser_expect TokenType.lparen p
      call_of assignment name (parser_find_function p' name) p')
    else done (parser_node p NodeType.var_ref (some name), p)

-- A name that has no other meaning: the callee of a call, or a variable.
unfoldable pub name_primary : Parse Ast → Parse Ast
name_primary assignment p = do
  (t, p₁) ← parser_expect TokenType.identifier p
  called assignment t.value p₁

abbrev pub enum_or_name : Parse Ast → Option EnumConst → Parse Ast
enum_or_name assignment (some c) p = do
  p' ← advance p
  done (enum_const_node p' c, store (print_long c.value) p')
enum_or_name assignment none p = name_primary assignment p

unfoldable pub identifier_primary : Calls → Parse Ast
identifier_primary b p =
    let name = p.current.value in
    if str_eq name (codes "__func__")
    then func_name p.current_func_name p
    else if str_eq name (codes "__builtin_va_start")
    then va_start b p
    else if str_eq name (codes "__builtin_va_end")
    then va_end b p
    else if str_eq name (codes "__builtin_va_copy")
    then va_copy b p
    else if str_eq name (codes "__builtin_va_arg")
    then va_arg b p
    else enum_or_name b.assignment (find_enum_const p.enum_consts name) p

unfoldable pub paren_primary : Parse Ast → Parse Ast
paren_primary expression p = do
  (_, p₁) ← parser_expect TokenType.lparen p
  (a, p₂) ← expression p₁
  (_, p₃) ← parser_expect TokenType.rparen p₂
  done (a, p₃)

unfoldable pub parse_primary : Calls → Parse Ast
parse_primary b p =
    if is TokenType.int_literal p
    then int_primary p
    else if is TokenType.float_literal p || is TokenType.double_literal p
    then float_primary p
    else if is TokenType.string_literal p
    then string_primary p
    else if is TokenType.char_literal p
    then char_primary p
    else if is TokenType.identifier p
    then identifier_primary b p
    else if is TokenType.lparen p
    then paren_primary b.expression p
    else error (codes "error: expected expression, got '%s'")
