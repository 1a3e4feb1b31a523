-- ===== src/Ast.antt =====
-- The syntax tree: include/ast.h and src/ast.c.
--
-- An `ASTNode *` is `null` or a node with its kind, its plain fields and its children. The array of
-- children is a list, so `child_count` is its length. Nodes are owned by one parent each, so a tree
-- stands for the heap that it occupies, and `ast_free` is the dropping of a tree.
pub mod Clone
pub mod Print
pub mod Readable
use claudec.Base.{ℕ, suc, Bool, false, Option, none, Bytes}
use claudec.CType.{TypeKind, void, CType, null as null_type}

pub data StorageClass : Type 0 where
  sc_none sc_extern sc_static sc_typedef sc_auto sc_register : StorageClass

pub data NodeType : Type 0 where
  translation_unit function_decl param return_statement : NodeType
  int_literal float_literal string_literal char_literal : NodeType
  binary_op unary_op : NodeType
  if_statement while_statement do_while_statement for_statement switch_statement : NodeType
  default_section case_section : NodeType
  break_statement continue_statement goto_statement label_statement : NodeType
  block expression_stmt declaration assignment var_ref : NodeType
  prefix_inc_dec postfix_inc_dec function_call indirect_call : NodeType
  cast addr_of deref array_index sizeof_type sizeof_expr : NodeType
  conditional_expr comma_expr decl_list typedef_decl member_access arrow_access : NodeType
  initializer_list designated_init compound_literal : NodeType
  builtin_va_start builtin_va_end builtin_va_copy builtin_va_arg : NodeType

-- The fields but `type` and the children. A text is `none` where the pointer is NULL.
pub record Attrs : Type 0 where
  pub value : Option Bytes
  pub decl_type : TypeKind
  pub result_type : TypeKind
  pub full_type : CType
  pub byte_length : ℕ
  pub storage_class : StorageClass
  pub is_const : Bool
  pub is_unsigned : Bool
  pub is_variadic : Bool
  pub is_no_prototype : Bool
  pub src_file : Option Bytes
  pub src_line : ℕ
  pub src_col : ℕ

mutual
  pub data Ast : Type 0 where
    null : Ast
    node : NodeType → Attrs → Children → Ast

  pub data Children : Type 0 where
    nil : Children
    cons : Ast → Children → Children

abbrev pub no_attrs : Option Bytes → Attrs
no_attrs v = record {
  value = v;
  decl_type = void;
  result_type = void;
  full_type = null_type;
  byte_length = 0;
  storage_class = sc_none;
  is_const = false;
  is_unsigned = false;
  is_variadic = false;
  is_no_prototype = false;
  src_file = none;
  src_line = 0;
  src_col = 0;
}

abbrev pub ast_new : NodeType → Option Bytes → Ast
ast_new t v = node t (no_attrs v) nil

abbrev pub append : Children → Children → Children
append nil ds = ds
append (cons c cs) ds = cons c (append cs ds)

-- The parent is not NULL.
unfoldable pub ast_add_child : Ast → Ast → Ast
ast_add_child null child = null
ast_add_child (node t a cs) child = node t a (append cs (cons child nil))

abbrev pub child_count : Children → ℕ
child_count nil = 0
child_count (cons c cs) = suc (child_count cs)

-- The fields that `ast_clone` copies to a new node.
abbrev pub cloned_attrs : Attrs → Attrs
cloned_attrs a = record (no_attrs a.value) {
  decl_type = a.decl_type;
  result_type = a.result_type;
  full_type = a.full_type;
  byte_length = a.byte_length;
  storage_class = a.storage_class;
  is_const = a.is_const;
  is_unsigned = a.is_unsigned;
  is_variadic = a.is_variadic;
  src_file = a.src_file;
  src_line = a.src_line;
  src_col = a.src_col;
}

-- The loop adds the clones to a copy that has `done` already.
unfoldable mutual
  pub ast_clone : Ast → Ast
  ast_clone null = null
  ast_clone (node t a cs) = node t (cloned_attrs a) (clone_onto nil cs)

  pub clone_onto : Children → Children → Children
  clone_onto done nil = done
  clone_onto done (cons c cs) = clone_onto (append done (cons (ast_clone c) nil)) cs
