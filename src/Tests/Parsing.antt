-- ===== src/Tests/Parsing.antt =====
-- Runs of the parser and of the dump.
use claudec.Base.{
  none, some, [], ◌∷◌, ◌++◌, ◌≡◌, true, false, Bool, refl, arith, Bytes, codes, str_eq,
  if◌then◌else◌,
}
use claudec.CType.{TypeKind, CType, null, type_struct}
use claudec.Memory.{ok}
use claudec.Lexer.{TokenType, lexer_init, token_set_pos, with_text}
use claudec.Lexer.Escape.{read_string}
use claudec.Parser.{Parser, done}
use claudec.Parser.Tables.{
  is_taken, parser_find_typedef, parser_register_typedef, parser_leave_scope, enter_scope,
}
use claudec.Parser.Knot.{type_name_at}
use claudec.Parser.Runs.{Reads}
use claudec.Parser.Grammar.{TypeName}
use claudec.Ast.{StorageClass}
use claudec.Parser.Scopes.{
  entry, nothing, registers, parser_leave_scope-restores, parser_find_typedef-register,
}
use claudec.Parser.Sound.Whole.{type_name_at-TypeName}
use claudec.Ast.Print.{escape_byte, escape_bytes}
use claudec.Ast.Readable.{Readable, read_again, read_string-escape_bytes}

-- That two types are the same object, where every two types are other objects.
abbrev apart : CType → CType → Bool
apart t u = false

-- A parser at a token of a type, with a text behind it.
abbrev parser_at : TokenType → Bytes → Bytes → Parser
parser_at k value rest =
    let l = lexer_init rest none in
    record {
      lexer = l;
      current = with_text (token_set_pos l) k value;
      funcs = [];
      globals = [];
      loop_depth = 0;
      switch_depth = 0;
      typedefs = [];
      scope_depth = 0;
      enum_consts = [];
      enum_tags = [];
      struct_tags = [];
      union_tags = [];
      current_func_is_variadic = false;
      current_func_name = none;
    }

-- With an enumerator, a typedef, a function and the tag of a struct.
abbrev with_names : Parser → Parser
with_names p = record p {
  enum_consts = record { name = codes "N"; value = 3 } ∷ [];
  typedefs = entry (codes "word") TypeKind.long null 0 ∷ [];
  funcs =
      record {
        name = codes "f";
        param_count = some 2;
        has_definition = true;
        return_type = TypeKind.int;
        param_types = TypeKind.int ∷ (TypeKind.int ∷ []);
        storage_class = StorageClass.sc_none;
        is_variadic = false;
        has_no_prototype = false;
      }
      ∷ [];
  struct_tags = record { tag = codes "s"; tag_type = type_struct 8 4 } ∷ [];
}

abbrev at_expression : Parser
at_expression = with_names (
    parser_at TokenType.identifier (codes "a")
      (codes "[i] += -b->c * (word) f(N, sizeof(struct s)) ? x : y, z;"))

abbrev at_initializer : Parser
at_initializer =
    with_names (parser_at TokenType.lbrace (codes "{") (codes ".x = 1, [N] = { 3 }, };"))

abbrev at_constant : Parser
at_constant = with_names (
    parser_at TokenType.lparen (codes "(")
      (codes "1 << N) - 3 * sizeof(enum { A, B }) > B ? 7 : 0]"))

abbrev at_type : Parser
at_type = with_names (parser_at TokenType.const (codes "const") (codes "word * const * [N])"))

type_name_at-TypeName_example : Reads TypeName at_type (type_name_at apart at_type)
type_name_at-TypeName_example = type_name_at-TypeName apart at_type

abbrev with_outer : Parser
with_outer = record at_type { typedefs = entry (codes "word") TypeKind.int null 0 ∷ [] }

abbrev in_block : Parser
in_block = enter_scope with_outer

abbrev with_inner : Parser
with_inner = record in_block {
  typedefs =
      entry (codes "word") TypeKind.int null 0 ∷ (entry (codes "word") TypeKind.long null 1 ∷ []);
}

inner_registered :
    parser_register_typedef (codes "word") TypeKind.long null in_block ≡ done with_inner
unfolding parser_register_typedef is_taken str_eq
inner_registered = refl

parser_leave_scope-restores_example :
    ((parser_leave_scope with_inner).typedefs ≡ with_outer.typedefs)
    × ((parser_leave_scope with_inner).scope_depth ≡ 0)
parser_leave_scope-restores_example =
    parser_leave_scope-restores with_outer with_inner (omega arith, tt)
      (registers (codes "word") TypeKind.long null inner_registered nothing)

parser_find_typedef-register_example : parser_find_typedef with_inner (codes "word") ≡ (
    if str_eq (codes "word") (codes "word")
    then some (entry (codes "word") TypeKind.long null 1)
    else parser_find_typedef in_block (codes "word"))
parser_find_typedef-register_example =
    parser_find_typedef-register (codes "word") (codes "word") TypeKind.long null in_block
      with_inner inner_registered

abbrev dumped : Bytes
dumped = b'a' ∷ 10 ∷ 0 ∷ b'x' ∷ b'"' ∷ []

dumped-Readable : Readable dumped
unfolding Readable
dumped-Readable = (refl, (refl, (refl, (refl, (refl, tt)))))

read_string-escape_bytes_example :
    read_string 20 (escape_bytes dumped ++ (b'"' ∷ codes " (length 5)")) ≡ ok (read_again dumped)
read_string-escape_bytes_example =
    read_string-escape_bytes dumped (codes " (length 5)") 20 dumped-Readable
      (unfold escape_bytes escape_byte in omega arith)
