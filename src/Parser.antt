-- ===== src/Parser.antt =====
-- The parser: src/parser.c and include/parser.h.
--
-- A `Vec` of entries is the list of them, so `func_count` and `typedef_count` are its length, and that
-- memory runs out is not modelled. A call takes the parser and gives the parser that it leaves. A
-- message of PARSER_ERROR is its format, without the position and the arguments.
pub mod Tables
pub mod Types
pub mod TypeNames
pub mod Calls
pub mod Initializer
pub mod Primary
pub mod Postfix
pub mod Unary
pub mod Binary
pub mod Constant
pub mod Levels
pub mod Knot
pub mod Tags
pub mod Names
pub mod Nodes
pub mod Runs
pub mod Symbols
pub mod Grammar
pub mod Values
pub mod Words
pub mod Scopes
pub mod Sound
use claudec.Base.{
  ℕ, suc, ◌+◌, Bool, true, false, Option, none, some, List, [], ◌∷◌, ◌++◌, if◌then◌else◌, Bytes,
  codes, length, get_elem?,
}
use claudec.CType.{TypeKind, CType}
use claudec.Ast.{StorageClass, NodeType, Attrs, Ast, null, node, nil, no_attrs}
use claudec.Memory.{Outcome, ok, fatal, stuck}
use claudec.Lexer.{TokenType, Token, Lexer}
use claudec.Lexer.Codes.{token_eq}
use claudec.Lexer.Next.{lexer_next_token, is_eof}

pub record EnumConst : Type 0 where
  pub name : Bytes
  pub value : ℕ

pub record EnumTag : Type 0 where
  pub tag : Bytes
  pub is_defined : Bool

-- `StructTag` and `UnionTag`. The type is NULL until the body is parsed.
pub record StructTag : Type 0 where
  pub tag : Bytes
  pub tag_type : CType

pub record TypedefEntry : Type 0 where
  pub name : Bytes
  pub kind : TypeKind
  pub full_type : CType
  pub scope_depth : ℕ

-- The number of parameters is `none` where the source has -1.
pub record FuncSig : Type 0 where
  pub name : Bytes
  pub param_count : Option ℕ
  pub has_definition : Bool
  pub return_type : TypeKind
  pub param_types : List TypeKind
  pub storage_class : StorageClass
  pub is_variadic : Bool
  pub has_no_prototype : Bool

pub record GlobalObjSig : Type 0 where
  pub name : Bytes
  pub kind : TypeKind
  pub storage_class : StorageClass
  pub full_type : CType
  pub is_defined : Bool

pub record Parser : Type 0 where
  pub lexer : Lexer
  pub current : Token
  pub funcs : List FuncSig
  pub globals : List GlobalObjSig
  pub loop_depth : ℕ
  pub switch_depth : ℕ
  pub typedefs : List TypedefEntry
  pub scope_depth : ℕ
  pub enum_consts : List EnumConst
  pub enum_tags : List EnumTag
  pub struct_tags : List StructTag
  pub union_tags : List StructTag
  pub current_func_is_variadic : Bool
  pub current_func_name : Option Bytes

-- `error` is an exit with a message, `broken` a token that leaves its buffer, and `no_fuel` is for a
-- run that would go on. `beyond` is the body of a struct or a union, whose layout is not modelled.
pub data Parsed (A : Type 0) : Type 0 where
  done : A → Parsed A
  error : Bytes → Parsed A
  broken : Parsed A
  beyond : Parsed A
  no_fuel : Parsed A

infixl 5 ◌>>=◌
abbrev pub ◌>>=◌ : {A B : Type 0} → Parsed A → (A → Parsed B) → Parsed B
done a >>= f = f a
error m >>= f = error m
broken >>= f = broken
beyond >>= f = beyond
no_fuel >>= f = no_fuel

abbrev pub lexed : {A : Type 0} → Outcome A → Parsed A
lexed (ok a) = done a
lexed (fatal m) = error m
lexed stuck = broken

-- A parser of a phrase that stands for a value.
abbrev pub Parse : Type 0 → Type 0
Parse A = Parser → Parsed (A × Parser)

abbrev pub is : TokenType → Parser → Bool
is k p = token_eq p.current.token_type k

abbrev pub is_one_of : List TokenType → Parser → Bool
is_one_of [] p = false
is_one_of (k ∷ ks) p = if is k p then true else is_one_of ks p

-- `parser->current = lexer_next_token(parser->lexer);`
unfoldable pub advance : Parser → Parsed Parser
advance p = do (t, l) ← lexed (lexer_next_token p.lexer); done (record p { lexer = l; current = t })

unfoldable pub parser_expect : TokenType → Parse Token
parser_expect k p =
    if is k p
    then (do p' ← advance p; done (p.current, p'))
    else error (codes "error: expected %s, got %s ('%s')")

-- `parser->current.file ? parser->current.file->path : NULL`
abbrev pub path_of : List Bytes → Option ℕ → Option Bytes
path_of pool none = none
path_of pool (some i) = get_elem? pool i

unfoldable pub parser_node : Parser → NodeType → Option Bytes → Ast
parser_node p t value =
    node t
      (record (no_attrs value) {
        src_file = path_of p.lexer.file_pool p.current.file;
        src_line = p.current.line;
        src_col = p.current.col;
      })
      nil

-- Assignments to fields of a node that was made.
abbrev pub with_attrs : (Attrs → Attrs) → Ast → Ast
with_attrs f null = null
with_attrs f (node t a cs) = node t (f a) cs

-- `parser->lexer->pos = saved_pos; parser->current = saved_token;`. The other fields of the lexer keep
-- what the lookahead made of them.
unfoldable pub restore : Parser → Parser → Parser
restore saved p = record p {
  lexer = record p.lexer { rest = saved.lexer.rest; pos = saved.lexer.pos };
  current = saved.current;
}

-- `node->value = lexer_store_bytes(parser->lexer, ...)` as far as the lexer goes.
unfoldable pub store : Bytes → Parser → Parser
store s p = record p { lexer = record p.lexer { str_pool = p.lexer.str_pool ++ s ∷ [] } }

unfoldable pub parser_init : Lexer → Parsed Parser
parser_init l = do
  (t, l') ← lexed (lexer_next_token l)
  done (record {
    lexer = l';
    current = t;
    funcs = [];
    globals = [];
    loop_depth = 0;
    switch_depth = 0;
    typedefs = [];
    scope_depth = 0;
    enum_consts = [];
    enum_tags = [];
    struct_tags = [];
    union_tags = [];
    current_func_is_variadic = false;
    current_func_name = none;
  })

unfoldable pub parser_free : Parser → Parser
parser_free p = record p {
  funcs = [];
  globals = [];
  typedefs = [];
  enum_consts = [];
  enum_tags = [];
  struct_tags = [];
  union_tags = [];
}

-- What is left to read: nothing at the end of the file, and else the current token and the text.
unfoldable pub size : Parser → ℕ
size p = if is_eof p.current.token_type then 0 else suc (length p.lexer.rest)
