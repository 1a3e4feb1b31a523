-- ===== src/Ast/Print.antt =====
-- The dump of a tree: src/ast_pretty_printer.c. What `printf` and `putchar` write is the list of its
-- bytes. A text that is NULL is written as glibc does.
use claudec.Base.{
  ℕ, ◌+◌, ◌*◌, Option, none, some, List, [], ◌∷◌, ◌++◌, ◌==◌, if◌then◌else◌, Bytes, codes, str_eq,
  take, replicate,
}
use claudec.CType.{TypeKind, CType, null as null_type, type, type_kind_name}
use claudec.Long.Text.{print_decimal}
use claudec.Lexer.{char_at}
use claudec.Ast.{
  StorageClass, sc_extern, sc_static, sc_auto, sc_register, NodeType, Attrs, Ast, Children, null,
  node, nil, cons,
}

record OperatorName : Type 0 where
  symbol : Bytes
  name : Bytes

abbrev named : Bytes → Bytes → OperatorName
named s n = record { symbol = s; name = n }

-- The tests of `operator_name`, in their order.
operator_names : List OperatorName
operator_names =
    named (codes "+") (codes "ADD")
    ∷ named (codes "-") (codes "SUBTRACT")
    ∷ named (codes "*") (codes "MULTIPLY")
    ∷ named (codes "/") (codes "DIVIDE")
    ∷ named (codes "==") (codes "EQUAL")
    ∷ named (codes "!=") (codes "NOTEQUAL")
    ∷ named (codes "<") (codes "LESSTHAN")
    ∷ named (codes "<=") (codes "LESSTHANOREQUAL")
    ∷ named (codes ">") (codes "GREATERTHAN")
    ∷ named (codes ">=") (codes "GREATERTHANOREQUAL")
    ∷ named (codes "!") (codes "NOT")
    ∷ named (codes "&&") (codes "AND")
    ∷ named (codes "||") (codes "OR")
    ∷ named (codes "&") (codes "BITAND")
    ∷ named (codes "^") (codes "BITXOR")
    ∷ named (codes "|") (codes "BITOR")
    ∷ named (codes "++") (codes "INCREMENT")
    ∷ named (codes "--") (codes "DECREMENT")
    ∷ []

find_name : List OperatorName → Bytes → Bytes
find_name [] op = op
find_name (o ∷ os) op = if str_eq op o.symbol then o.name else find_name os op

unfoldable pub operator_name : Bytes → Bytes
unfolding operator_names find_name
operator_name op = find_name operator_names op

unfoldable pub ast_print_indent : ℕ → Bytes
ast_print_indent depth = replicate (depth * 2) b' '

abbrev storage_text : StorageClass → Bytes
storage_text sc_extern = codes "extern "
storage_text sc_static = codes "static "
storage_text sc_auto = codes "auto "
storage_text sc_register = codes "register "
storage_text _ = []

unfoldable pub ast_print_decl_qualifiers : Attrs → Bytes
ast_print_decl_qualifiers a =
    storage_text a.storage_class
    ++ ((if a.is_const then codes "const " else [])
        ++ (if a.is_unsigned then codes "unsigned " else []))

abbrev print_of_kind : TypeKind → Bytes → Bytes
print_of_kind TypeKind.pointer base = base ++ codes "*"
print_of_kind kind base = type_kind_name kind ++ codes " "

unfoldable pub ast_print_type : CType → Bytes
ast_print_type null_type = []
ast_print_type (type i base ps fs) = print_of_kind i.kind (ast_print_type base)

abbrev pub text_of : Option Bytes → Bytes
text_of none = codes "(null)"
text_of (some s) = s

abbrev line : Bytes → Bytes → Bytes
line label s = label ++ (s ++ b'\n' ∷ [])

-- A declaration with its type before the name.
abbrev pointer_or_scalar : CType → TypeKind → Bytes → Bytes
pointer_or_scalar (type i base ps fs) TypeKind.pointer name =
    ast_print_type (type i base ps fs) ++ name
pointer_or_scalar t kind name = type_kind_name kind ++ (codes " " ++ name)

abbrev array_or_other : CType → TypeKind → Bytes → Bytes
array_or_other (type i base ps fs) TypeKind.array name =
    ast_print_type base ++ (name ++ (codes "[" ++ (print_decimal i.length ++ codes "]")))
array_or_other t kind name = pointer_or_scalar t kind name

abbrev declared : Attrs → Bytes
declared a =
    ast_print_decl_qualifiers a ++ pointer_or_scalar a.full_type a.decl_type (text_of a.value)

abbrev declared_variable : Attrs → Bytes
declared_variable a =
    ast_print_decl_qualifiers a ++ array_or_other a.full_type a.decl_type (text_of a.value)

-- The bytes that a string literal has as escapes.
unfoldable pub escape_byte : ℕ → Bytes
escape_byte b =
    if b == b'\n'
    then codes "\\n"
    else if b == b'\t'
    then codes "\\t"
    else if b == b'\r'
    then codes "\\r"
    else if b == b'\\'
    then codes "\\\\"
    else if b == b'"'
    then codes "\\\""
    else if b == 0
    then codes "\\0"
    else b ∷ []

unfoldable pub escape_char : ℕ → Bytes
escape_char b = if b == b'\'' then codes "\\'" else escape_byte b

unfoldable pub escape_bytes : Bytes → Bytes
escape_bytes [] = []
escape_bytes (b ∷ bs) = escape_byte b ++ escape_bytes bs

abbrev char_text : ℕ → Bytes
char_text b = codes "'" ++ (escape_char b ++ (codes "' (" ++ (print_decimal b ++ codes ")")))

-- The first `byte_length` bytes of the value.
abbrev string_text : ℕ → Bytes → Bytes
string_text n s =
    codes "\""
    ++ (escape_bytes (take n s) ++ (codes "\" (length " ++ (print_decimal n ++ codes ")")))

abbrev assignment_text : Bytes → Bytes
assignment_text [] = []
assignment_text s = codes " " ++ s

abbrev assigned_text : Option Bytes → Bytes
assigned_text none = []
assigned_text (some s) = assignment_text s

abbrev designator_text : Option Bytes → ℕ → Bytes
designator_text (some name) i = codes "." ++ name
designator_text none i = codes "[" ++ (print_decimal i ++ codes "]")

abbrev label_text : Option Bytes → Bytes
label_text none = codes "?"
label_text (some s) = s

abbrev child_value : Ast → Bytes
child_value null = []
child_value (node t a cs) = text_of a.value

-- A section of `case` has its label as the first child.
abbrev case_label : Children → Bytes
case_label nil = []
case_label (cons c cs) = child_value c

-- The line of a node without its indent.
unfoldable pub node_line : NodeType → Attrs → Children → Bytes
node_line NodeType.translation_unit a cs = line (codes "TranslationUnit:") []
node_line NodeType.function_decl a cs = line (codes "FunctionDecl: ") (declared a)
node_line NodeType.param a cs = line (codes "Parameter: ") (declared a)
node_line NodeType.block a cs = line (codes "Block") []
node_line NodeType.decl_list a cs = line (codes "DeclList:") []
node_line NodeType.declaration a cs = line (codes "VariableDeclaration: ") (declared_variable a)
node_line NodeType.return_statement a cs = line (codes "ReturnStmt:") []
node_line NodeType.int_literal a cs = line (codes "IntLiteral: ") (text_of a.value)
node_line NodeType.float_literal a cs = line (codes "FloatLiteral: ") (text_of a.value)
node_line NodeType.char_literal a cs =
    line (codes "CharLiteral: ") (char_text (char_at (text_of a.value) 0))
node_line NodeType.string_literal a cs =
    line (codes "StringLiteral: ") (string_text a.byte_length (text_of a.value))
node_line NodeType.var_ref a cs = line (codes "VariableExpression: ") (text_of a.value)
node_line NodeType.binary_op a cs = line (codes "Binary: ") (operator_name (text_of a.value))
node_line NodeType.unary_op a cs = line (codes "Unary: ") (operator_name (text_of a.value))
node_line NodeType.assignment a cs = line (codes "Assignment:") (assigned_text a.value)
node_line NodeType.expression_stmt a cs = line (codes "ExpressionStatement") []
node_line NodeType.if_statement a cs = line (codes "IfStmt:") []
node_line NodeType.while_statement a cs = line (codes "WhileStmt:") []
node_line NodeType.do_while_statement a cs = line (codes "DoWhileStmt:") []
node_line NodeType.for_statement a cs = line (codes "ForStmt:") []
node_line NodeType.switch_statement a cs = line (codes "SwitchStmt:") []
node_line NodeType.default_section a cs = line (codes "DefaultSection:") []
node_line NodeType.case_section a cs = line (codes "CaseSection: ") (case_label cs)
node_line NodeType.break_statement a cs = line (codes "BreakStmt") []
node_line NodeType.continue_statement a cs = line (codes "ContinueStmt") []
node_line NodeType.goto_statement a cs = line (codes "GotoStmt: ") (text_of a.value)
node_line NodeType.label_statement a cs = line (codes "LabelStmt: ") (text_of a.value)
node_line NodeType.prefix_inc_dec a cs =
    line (codes "PrefixIncDec: ") (operator_name (text_of a.value))
node_line NodeType.postfix_inc_dec a cs =
    line (codes "PostfixIncDec: ") (operator_name (text_of a.value))
node_line NodeType.function_call a cs = line (codes "FunctionCall: ") (text_of a.value)
node_line NodeType.indirect_call a cs = line (codes "IndirectCall:") []
node_line NodeType.cast a cs = line (codes "Cast: ") (type_kind_name a.decl_type)
node_line NodeType.addr_of a cs = line (codes "AddressOf:") []
node_line NodeType.deref a cs = line (codes "Dereference:") []
node_line NodeType.array_index a cs = line (codes "ArrayIndex:") []
node_line NodeType.sizeof_type a cs = line (codes "SizeofType: ") (type_kind_name a.decl_type)
node_line NodeType.sizeof_expr a cs = line (codes "SizeofExpr:") []
node_line NodeType.conditional_expr a cs = line (codes "Conditional:") []
node_line NodeType.comma_expr a cs = line (codes "CommaExpr:") []
node_line NodeType.typedef_decl a cs = line (codes "TypedefDecl: ") (text_of a.value)
node_line NodeType.member_access a cs = line (codes "MemberAccess: ") (text_of a.value)
node_line NodeType.arrow_access a cs = line (codes "ArrowAccess: ") (text_of a.value)
node_line NodeType.initializer_list a cs = line (codes "InitializerList:") []
node_line NodeType.designated_init a cs =
    line (codes "DESIGNATED_INIT(") (designator_text a.value a.byte_length ++ codes ")")
node_line NodeType.compound_literal a cs =
    line (codes "COMPOUND_LITERAL(") (label_text a.value ++ codes ")")
node_line NodeType.builtin_va_start a cs = line (codes "BuiltinVaStart:") []
node_line NodeType.builtin_va_end a cs = line (codes "BuiltinVaEnd:") []
node_line NodeType.builtin_va_copy a cs = line (codes "BuiltinVaCopy:") []
node_line NodeType.builtin_va_arg a cs = line (codes "BuiltinVaArg: ") (text_of a.value)

-- A section of `case` shows its second child only, and one of `default` its first. All others, `for`
-- with its NULL children too, show what they have.
unfoldable mutual
  pub ast_pretty_print : Ast → ℕ → Bytes
  ast_pretty_print null depth = []
  ast_pretty_print (node NodeType.case_section a (cons c (cons d ds))) depth =
      ast_print_indent depth
      ++ (node_line NodeType.case_section a (cons c nil) ++ ast_pretty_print d (depth + 1))
  ast_pretty_print (node NodeType.case_section a cs) depth =
      ast_print_indent depth ++ node_line NodeType.case_section a cs
  ast_pretty_print (node NodeType.default_section a (cons c cs)) depth =
      ast_print_indent depth
      ++ (node_line NodeType.default_section a nil ++ ast_pretty_print c (depth + 1))
  ast_pretty_print (node t a cs) depth =
      ast_print_indent depth ++ (node_line t a cs ++ print_children cs (depth + 1))

  pub print_children : Children → ℕ → Bytes
  print_children nil depth = []
  print_children (cons c cs) depth = ast_pretty_print c depth ++ print_children cs depth
