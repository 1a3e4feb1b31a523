-- ===== src/Parser/Grammar.antt =====
-- What expressions, initializers, constants and the names of types mean: the grammar of C for them, with
-- the tree, the value or the type of each phrase. A phrase stands between two views of the text. `q` is where a node takes its position from.
use claudec.Base.{
  ℕ, suc, ◌+◌, ◌<◌, ◌==◌, ◌||◌, ◌++◌, List, [], ◌∷◌, if◌then◌else◌, ◌%◌, ◌^◌, Bool, true, false,
  Option, none, some, Bytes, codes, ◌≡◌,
}
use claudec.CType.{
  TypeKind, CType, type_int, type_struct, type_union, type_size, type_float, type_double,
}
use claudec.Ast.{NodeType, Ast, ast_add_child, ast_clone}
use claudec.Lexer.{TokenType}
use claudec.Parser.{
  EnumConst, StructTag, FuncSig, TypedefEntry, Parser, done, parser_node, with_attrs,
}
use claudec.Parser.Types.{type_kind}
use claudec.Parser.Calls.{with_child, with_children}
use claudec.Parser.Primary.{arguments_of}
use claudec.Parser.Initializer.{literal_node, sized, scalar_full_type}
use claudec.Parser.Postfix.{node_type, is_subscript_base}
use claudec.Parser.Unary.{is_open_array}
use claudec.Parser.Binary.{conditional_node}
use claudec.Parser.Names.{FirstConst, NoConst, FirstFunction, LastTypedef, Refers}
use claudec.Parser.Nodes.{
  Assigned, enumerator_node, text_node, next_argument_node, conversion_node, type_size_node,
  Accepts, Addressable, Assignable,
}
use claudec.Parser.Runs.{View, Next, names}
use claudec.Parser.Values.{operation, Sign}
use claudec.Parser.Words.{Specifier, ArrayOf, TypedefType, Stars, Qualified}
use claudec.Parser.TypeNames.{max_array_dims}
use claudec.Parser.Constant.{expr_size}
use claudec.Long.{is_negative, add_long}
use claudec.Parser.Symbols.{Infix, Prefix, Access, Assign, Aggregate, is_scalar, Strings, Optional}

-- Level 0 are the primary expressions, 1 the postfix, 2 the unary and 3 the cast expressions, 4 to 13
-- those with two operands, 14 the conditional expressions, 15 the assignments and 16 the whole.
-- The arguments of a call, and the elements of a list, come with the tree that has the former ones.
pub data Category : Type 0 where
  level : ℕ → Category
  arguments more_arguments elements : Ast → Category
  initializer element literal_list : Category
  designated : Option Bytes → ℕ → Category
  literal : CType → Category

-- The view after an enumerator is declared, and after the tags are others.
abbrev pub declared : Bytes → ℕ → View → View
declared name value v = (
  v.0,
  (
    v.1.0,
    record (names v) { consts = (names v).consts ++ record { name = name; value = value } ∷ [] },
  ),
)

abbrev pub with_structs : List StructTag → View → View
with_structs tags v = (v.0, (v.1.0, record (names v) { struct_tags = tags }))

abbrev pub with_unions : List StructTag → View → View
with_unions tags v = (v.0, (v.1.0, record (names v) { union_tags = tags }))

mutual
  pub data Derives : Category → View → View → Ast → Type 0 where
    integer :
        (q : Parser) {v w : View}
        → Next TokenType.int_literal v w
        → Derives (level 0) v w (
            with_attrs
              (λ a. record a { decl_type = v.0.literal_type; is_unsigned = v.0.is_unsigned })
              (parser_node q NodeType.int_literal (some v.0.value)))
    float_number :
        (q : Parser) {v w : View}
        → Next TokenType.float_literal v w
        → Derives (level 0) v w (
            with_attrs
              (λ a. record a { decl_type = TypeKind.float; full_type = type_float })
              (parser_node q NodeType.float_literal (some v.0.value)))
    double_number :
        (q : Parser) {v w : View}
        → Next TokenType.double_literal v w
        → Derives (level 0) v w (
            with_attrs
              (λ a. record a { decl_type = TypeKind.double; full_type = type_double })
              (parser_node q NodeType.float_literal (some v.0.value)))
    strings :
        (q : Parser) {v v' w : View} {s : Bytes}
        → Next TokenType.string_literal v v'
        → Strings v.0.value v' w s
        → Derives (level 0) v w (text_node q s)
    character :
        (q : Parser) {v w : View}
        → Next TokenType.char_literal v w
        → Derives (level 0) v w (
            with_attrs
              (λ a. record a { byte_length = 1; decl_type = TypeKind.int })
              (parser_node q NodeType.char_literal (some v.0.value)))
    function_name :
        (q : Parser) (name : Bytes) {v w : View}
        → v.0.value ≡ codes "__func__"
        → (names v).func_name ≡ some name
        → Next TokenType.identifier v w
        → Derives (level 0) v w (text_node q name)
    va_start :
        (q : Parser) {v v₁ v₂ v₃ v₄ v₅ w : View} {a b : Ast}
        → v.0.value ≡ codes "__builtin_va_start"
        → Next TokenType.identifier v v₁
        → Next TokenType.lparen v₁ v₂
        → Derives (level 15) v₂ v₃ a
        → Next TokenType.comma v₃ v₄
        → Derives (level 15) v₄ v₅ b
        → Next TokenType.rparen v₅ w
        → Derives
            (level 0)
            v
            w
            (with_children q NodeType.builtin_va_start (some (codes "__builtin_va_start")) a b)
    va_end :
        (q : Parser) {v v₁ v₂ v₃ w : View} {a : Ast}
        → v.0.value ≡ codes "__builtin_va_end"
        → Next TokenType.identifier v v₁
        → Next TokenType.lparen v₁ v₂
        → Derives (level 15) v₂ v₃ a
        → Next TokenType.rparen v₃ w
        → Derives
            (level 0)
            v
            w
            (with_child q NodeType.builtin_va_end (some (codes "__builtin_va_end")) a)
    va_copy :
        (q : Parser) {v v₁ v₂ v₃ v₄ v₅ w : View} {a b : Ast}
        → v.0.value ≡ codes "__builtin_va_copy"
        → Next TokenType.identifier v v₁
        → Next TokenType.lparen v₁ v₂
        → Derives (level 15) v₂ v₃ a
        → Next TokenType.comma v₃ v₄
        → Derives (level 15) v₄ v₅ b
        → Next TokenType.rparen v₅ w
        → Derives
            (level 0)
            v
            w
            (with_children q NodeType.builtin_va_copy (some (codes "__builtin_va_copy")) a b)
    va_arg :
        (q : Parser) {v v₁ v₂ v₃ v₄ v₅ w : View} {a : Ast} {t : CType}
        → v.0.value ≡ codes "__builtin_va_arg"
        → Next TokenType.identifier v v₁
        → Next TokenType.lparen v₁ v₂
        → Derives (level 15) v₂ v₃ a
        → Next TokenType.comma v₃ v₄
        → TypeName v₄ v₅ t
        → Next TokenType.rparen v₅ w
        → Derives (level 0) v w (next_argument_node q a t)
    constant :
        (q : Parser) (c : EnumConst) {v w : View}
        → FirstConst v.0.value c (names v).consts
        → Next TokenType.identifier v w
        → Derives (level 0) v w (enumerator_node q c)
    variable :
        (q : Parser) {v w : View}
        → NoConst v.0.value (names v).consts
        → Next TokenType.identifier v w
        → Derives (level 0) v w (parser_node q NodeType.var_ref (some v.0.value))
    call :
        (q : Parser) (s : FuncSig) {v v₁ v₂ v₃ w : View} {a : Ast}
        → FirstFunction v.0.value s (names v).funcs
        → Next TokenType.identifier v v₁
        → Next TokenType.lparen v₁ v₂
        → Derives (arguments (parser_node q NodeType.function_call (some v.0.value))) v₂ v₃ a
        → Next TokenType.rparen v₃ w
        → Accepts s (arguments_of a)
        → Derives (level 0) v w (with_attrs (λ x. record x { decl_type = s.return_type }) a)
    parens :
        {v v₁ v₂ w : View} {a : Ast}
        → Next TokenType.lparen v v₁
        → Derives (level 16) v₁ v₂ a
        → Next TokenType.rparen v₂ w
        → Derives (level 0) v w a
    lift : {l : ℕ} {v w : View} {a : Ast} → Derives (level l) v w a → Derives (level (suc l)) v w a
    -- The callee is any postfix expression.
    indirect_call :
        (q : Parser) {v v₁ v₂ v₃ w : View} {a c : Ast}
        → Derives (level 1) v v₁ a
        → Next TokenType.lparen v₁ v₂
        → Derives (arguments (with_child q NodeType.indirect_call none a)) v₂ v₃ c
        → Next TokenType.rparen v₃ w
        → Derives (level 1) v w c
    index :
        (q : Parser) {v v₁ v₂ v₃ w : View} {a b : Ast}
        → Derives (level 1) v v₁ a
        → is_subscript_base (node_type a) ≡ true
        → Next TokenType.lbracket v₁ v₂
        → Derives (level 16) v₂ v₃ b
        → Next TokenType.rbracket v₃ w
        → Derives (level 1) v w (with_children q NodeType.array_index none a b)
    field :
        (q : Parser) {k : TokenType} {t : NodeType} {v v₁ v₂ w : View} {a : Ast}
        → Access k t
        → Derives (level 1) v v₁ a
        → Next k v₁ v₂
        → Next TokenType.identifier v₂ w
        → Derives (level 1) v w (with_child q t (some v₂.0.value) a)
    postfix_of :
        (q : Parser) {k : TokenType} {v v₁ w : View} {a : Ast}
        → Prefix k NodeType.prefix_inc_dec
        → Derives (level 1) v v₁ a
        → Next k v₁ w
        → Derives (level 1) v w (with_child q NodeType.postfix_inc_dec (some v₁.0.value) a)
    compound :
        {v v₁ v₂ v₃ w : View} {a : Ast} {t : CType}
        → Next TokenType.lparen v v₁
        → TypeName v₁ v₂ t
        → Next TokenType.rparen v₂ v₃
        → Derives (literal t) v₃ w a
        → Derives (level 1) v w a
    -- A parenthesis before the name of a type is looked behind, so that the enumerators in it are declared.
    looked_behind :
        {v v₁ v₂ w : View} {a : Ast} {t : CType}
        → Next TokenType.lparen v v₁
        → TypeName v₁ v₂ t
        → Derives (level 1) (v.0, (v.1.0, names v₂)) w a
        → Derives (level 1) v w a
    size_of :
        (q : Parser) {v v₁ w : View} {a : Ast}
        → Next TokenType.sizeof v v₁
        → Derives (level 2) v₁ w a
        → Derives (level 2) v w (with_child q NodeType.sizeof_expr none a)
    size_of_type :
        (q : Parser) {v v₁ v₂ v₃ w : View} {t : CType}
        → Next TokenType.sizeof v v₁
        → Next TokenType.lparen v₁ v₂
        → TypeName v₂ v₃ t
        → is_open_array t ≡ false
        → Next TokenType.rparen v₃ w
        → Derives (level 2) v w (type_size_node q t)
    prefix_of :
        (q : Parser) {k : TokenType} {t : NodeType} {v v₁ w : View} {a : Ast}
        → Prefix k t
        → Next k v v₁
        → Derives (level 2) v₁ w a
        → Derives (level 2) v w (with_child q t (some v.0.value) a)
    address :
        (q : Parser) {v v₁ w : View} {a : Ast}
        → Next TokenType.ampersand v v₁
        → Derives (level 2) v₁ w a
        → Addressable (node_type a)
        → Derives (level 2) v w (with_child q NodeType.addr_of none a)
    dereference :
        (q : Parser) {v v₁ w : View} {a : Ast}
        → Next TokenType.star v v₁
        → Derives (level 2) v₁ w a
        → Derives (level 2) v w (with_child q NodeType.deref none a)
    cast_to :
        (q : Parser) {v v₁ v₂ v₃ w : View} {a : Ast} {t : CType}
        → Next TokenType.lparen v v₁
        → TypeName v₁ v₂ t
        → Next TokenType.rparen v₂ v₃
        → is_open_array t ≡ false
        → Derives (level 3) v₃ w a
        → Derives (level 3) v w (conversion_node q t a)
    binary :
        (q : Parser) {l : ℕ} {k : TokenType} {v v₁ v₂ w : View} {a b : Ast}
        → Infix (suc l) k
        → Derives (level (suc l)) v v₁ a
        → Next k v₁ v₂
        → Derives (level l) v₂ w b
        → Derives (level (suc l)) v w (with_children q NodeType.binary_op (some v₁.0.value) a b)
    choice :
        (q : Parser) {v v₁ v₂ v₃ v₄ w : View} {c a b : Ast}
        → Derives (level 13) v v₁ c
        → Next TokenType.question v₁ v₂
        → Derives (level 16) v₂ v₃ a
        → Next TokenType.colon v₃ v₄
        → Derives (level 14) v₄ w b
        → Derives (level 14) v w (conditional_node q c a b)
    assign_name :
        (q : Parser) {k : TokenType} {o : Option Bytes} {v v₁ v₂ w : View} {a u : Ast}
        → Assign k o
        → Next TokenType.identifier v v₁
        → Next k v₁ v₂
        → Derives (level 15) v₂ w a
        → Assigned q (parser_node q NodeType.var_ref (some v.0.value)) a o u
        → Derives (level 15) v w (with_child q NodeType.assignment (some v.0.value) u)
    assign_lvalue :
        (q : Parser) {k : TokenType} {o : Option Bytes} {v v₁ v₂ w : View} {lhs a u : Ast}
        → Assign k o
        → Derives (level 14) v v₁ lhs
        → Assignable (node_type lhs)
        → Next k v₁ v₂
        → Derives (level 15) v₂ w a
        → Assigned q (ast_clone lhs) a o u
        → Derives (level 15) v w (with_children q NodeType.assignment none lhs u)
    comma_of :
        (q : Parser) {v v₁ v₂ w : View} {a b : Ast}
        → Derives (level 16) v v₁ a
        → Next TokenType.comma v₁ v₂
        → Derives (level 15) v₂ w b
        → Derives (level 16) v w (with_children q NodeType.comma_expr (some (codes ",")) a b)
    no_arguments : {c : Ast} {v : View} → Derives (arguments c) v v c
    some_arguments :
        {c c' a : Ast} {v v₁ w : View}
        → Derives (level 15) v v₁ a
        → Derives (more_arguments (ast_add_child c a)) v₁ w c'
        → Derives (arguments c) v w c'
    last_argument : {c : Ast} {v : View} → Derives (more_arguments c) v v c
    next_argument :
        {c c' a : Ast} {v v₁ v₂ w : View}
        → Next TokenType.comma v v₁
        → Derives (level 15) v₁ v₂ a
        → Derives (more_arguments (ast_add_child c a)) v₂ w c'
        → Derives (more_arguments c) v w c'
    plain_initializer :
        {v w : View} {a : Ast} → Derives (level 15) v w a → Derives initializer v w a
    list_initializer :
        {v w : View} {a : Ast} → Derives literal_list v w a → Derives initializer v w a
    empty_list :
        (q : Parser) {v v₁ w : View}
        → Next TokenType.lbrace v v₁
        → Next TokenType.rbrace v₁ w
        → Derives literal_list v w (parser_node q NodeType.initializer_list none)
    list_of :
        (q : Parser) {v v₁ v₂ v₃ w : View} {a l : Ast}
        → Next TokenType.lbrace v v₁
        → Derives element v₁ v₂ a
        → Derives
            (elements (ast_add_child (parser_node q NodeType.initializer_list none) a))
            v₂
            v₃
            l
        → Next TokenType.rbrace v₃ w
        → Derives literal_list v w l
    last_element : {l : Ast} {v : View} → Derives (elements l) v v l
    -- A comma may stand behind the last element.
    end_comma : {l : Ast} {v w : View} → Next TokenType.comma v w → Derives (elements l) v w l
    next_element :
        {l l' a : Ast} {v v₁ v₂ w : View}
        → Next TokenType.comma v v₁
        → Derives element v₁ v₂ a
        → Derives (elements (ast_add_child l a)) v₂ w l'
        → Derives (elements l) v w l'
    plain_element : {v w : View} {a : Ast} → Derives initializer v w a → Derives element v w a
    field_element :
        {v v₁ v₂ w : View} {a : Ast}
        → Next TokenType.dot v v₁
        → Next TokenType.identifier v₁ v₂
        → Derives (designated (some v₁.0.value) 0) v₂ w a
        → Derives element v w a
    index_element :
        (n : ℕ) {v v₁ v₂ v₃ w : View} {a : Ast}
        → Next TokenType.lbracket v v₁
        → Value 14 v₁ v₂ n
        → Next TokenType.rbracket v₂ v₃
        → Derives (designated none (n % 2 ^ 32)) v₃ w a
        → Derives element v w a
    designator :
        (q : Parser) {name : Option Bytes} {n : ℕ} {v v₁ w : View} {a : Ast}
        → Next TokenType.assign v v₁
        → Derives initializer v₁ w a
        → Derives (designated name n) v w (
            ast_add_child
              (with_attrs
                (λ x. record x { byte_length = n })
                (parser_node q NodeType.designated_init name))
              a)
    struct_literal :
        (q : Parser) (label : Bytes) {k : TypeKind} {t : CType} {v w : View} {a : Ast}
        → type_kind t ≡ k
        → Aggregate k
        → Derives initializer v w a
        → Derives (literal t) v w (literal_node q label k t false a)
    array_literal :
        (q : Parser) (label : Bytes) (u : Bool) {t : CType} {v w : View} {a : Ast}
        → type_kind t ≡ TypeKind.array
        → Derives initializer v w a
        → Derives (literal t) v w (literal_node q label (type_kind t) (sized t a) u a)
    scalar_literal :
        (q : Parser) (label : Bytes) (u : Bool) (k : TypeKind) {t : CType} {v v₁ v₂ v₃ w : View}
        {a : Ast}
        → type_kind t ≡ k
        → is_scalar k ≡ true
        → Next TokenType.lbrace v v₁
        → Derives (level 15) v₁ v₂ a
        → Optional TokenType.comma v₂ v₃
        → Next TokenType.rbrace v₃ w
        → Derives (literal t) v w (literal_node q label k (scalar_full_type t) u a)

  -- Level 2 are the operands with their signs, 4 to 13 those with two operands, and 14 is the whole.
  pub data Value : ℕ → View → View → ℕ → Type 0 where
    number_value : {v w : View} → Next TokenType.int_literal v w → Value 2 v w v.0.long_value
    character_value : {v w : View} → Next TokenType.char_literal v w → Value 2 v w v.0.long_value
    constant_value :
        (c : EnumConst) {v w : View}
        → FirstConst v.0.value c (names v).consts
        → Next TokenType.identifier v w
        → Value 2 v w c.value
    parens_value :
        {v v₁ v₂ w : View} {n : ℕ}
        → Next TokenType.lparen v v₁
        → Value 14 v₁ v₂ n
        → Next TokenType.rparen v₂ w
        → Value 2 v w n
    -- A cast leaves the value as it is.
    cast_value :
        {v v₁ v₂ v₃ w : View} {t : CType} {n : ℕ}
        → Next TokenType.lparen v v₁
        → TypeName v₁ v₂ t
        → Next TokenType.rparen v₂ v₃
        → Value 2 v₃ w n
        → Value 2 v w n
    size_of_type_value :
        {v v₁ v₂ v₃ w : View} {t : CType}
        → Next TokenType.sizeof v v₁
        → Next TokenType.lparen v₁ v₂
        → TypeName v₂ v₃ t
        → is_open_array t ≡ false
        → Next TokenType.rparen v₃ w
        → Value 2 v w (type_size t)
    size_of_value :
        {v v₁ v₂ v₃ w : View} {a : Ast}
        → Next TokenType.sizeof v v₁
        → Next TokenType.lparen v₁ v₂
        → Derives (level 16) v₂ v₃ a
        → Next TokenType.rparen v₃ w
        → Value 2 v w (expr_size a)
    sign_of :
        {k : TokenType} {f : ℕ → ℕ} {v v₁ w : View} {n : ℕ}
        → Sign k f
        → Next k v v₁
        → Value 2 v₁ w n
        → Value 2 v w (f n)
    lift_value : {l : ℕ} {v w : View} {n : ℕ} → Value l v w n → Value (suc l) v w n
    binary_value :
        {l : ℕ} {k : TokenType} {v v₁ v₂ w : View} {a b n : ℕ}
        → Infix (suc l) k
        → Value (suc l) v v₁ a
        → Next k v₁ v₂
        → Value l v₂ w b
        → operation k a b ≡ done n
        → Value (suc l) v w n
    choice_value :
        {v v₁ v₂ v₃ v₄ w : View} {c a b : ℕ}
        → Value 13 v v₁ c
        → Next TokenType.question v₁ v₂
        → Value 14 v₂ v₃ a
        → Next TokenType.colon v₃ v₄
        → Value 14 v₄ w b
        → Value 14 v w (if c == 0 then b else a)

  -- The dimensions behind those that were read. The first one may be left out.
  pub data Dims : ℕ → View → View → List ℕ → Type 0 where
    no_dim : {i : ℕ} {v : View} → Dims i v v []
    open_dim :
        {i : ℕ} {v v₁ v₂ w : View} {ds : List ℕ}
        → i == 0 ≡ true
        → Next TokenType.lbracket v v₁
        → Next TokenType.rbracket v₁ v₂
        → Dims (i + 1) v₂ w ds
        → Dims i v w (0 ∷ ds)
    dim :
        {i : ℕ} (n : ℕ) {v v₁ v₂ v₃ w : View} {ds : List ℕ}
        → i < max_array_dims
        → Next TokenType.lbracket v v₁
        → Value 14 v₁ v₂ n
        → (n == 0) || is_negative n ≡ false
        → Next TokenType.rbracket v₂ v₃
        → Dims (i + 1) v₃ w ds
        → Dims i v w ((n % 2 ^ 32) ∷ ds)

  pub data TypeName : View → View → CType → Type 0 where
    type_name :
        {f : CType → CType} {t u t' : CType} {ds : List ℕ} {v v₁ v₂ v₃ w : View}
        → Qualified v v₁ f
        → BaseType v₁ v₂ t
        → Stars (f t) v₂ v₃ u
        → Dims 0 v₃ w ds
        → ArrayOf u ds t'
        → TypeName v w t'

  -- The types of one specifier: keywords, a typedef, an enumeration or a tag.
  pub data BaseType : View → View → CType → Type 0 where
    keywords : {t : CType} {v w : View} → Specifier t v w → BaseType v w t
    typedef_name :
        (e : TypedefEntry) {t : CType} {v v' w : View}
        → LastTypedef v.0.value e (names v).typedefs
        → Next TokenType.identifier v v'
        → Optional TokenType.int v' w
        → TypedefType e t
        → BaseType v w t
    enumeration :
        {n : ℕ} {v v₁ v₂ v₃ v₄ w : View}
        → Next TokenType.enum v v₁
        → Optional TokenType.identifier v₁ v₂
        → Next TokenType.lbrace v₂ v₃
        → Enumerators 0 v₃ v₄ n
        → Next TokenType.rbrace v₄ w
        → BaseType v w type_int
    enum_tag :
        {v v₁ w : View}
        → Next TokenType.enum v v₁
        → Next TokenType.identifier v₁ w
        → BaseType v w type_int
    struct_tag :
        {t : CType} {tags : List StructTag} {v v₁ w : View}
        → Next TokenType.struct v v₁
        → Next TokenType.identifier v₁ w
        → Refers (type_struct 0 0) v₁.0.value (names w).struct_tags tags t
        → BaseType v (with_structs tags w) t
    union_tag :
        {t : CType} {tags : List StructTag} {v v₁ w : View}
        → Next TokenType.union v v₁
        → Next TokenType.identifier v₁ w
        → Refers (type_union 0 0) v₁.0.value (names w).union_tags tags t
        → BaseType v (with_unions tags w) t

  -- Enumerators from the value that the first one has without `=`.
  pub data Enumerators : ℕ → View → View → ℕ → Type 0 where
    no_enumerator : {n : ℕ} {v : View} → Enumerators n v v n
    enumerator :
        {n m k : ℕ} {v v₁ v₂ v₃ w : View}
        → Next TokenType.identifier v v₁
        → NoConst v.0.value (names v₁).consts
        → EnumValue n v₁ v₂ m
        → Optional TokenType.comma (declared v.0.value m v₂) v₃
        → Enumerators (add_long m 1) v₃ w k
        → Enumerators n v w k

  pub data EnumValue : ℕ → View → View → ℕ → Type 0 where
    next_value : {n : ℕ} {v : View} → EnumValue n v v n
    given_value :
        {n m : ℕ} {v v₁ w : View} → Next TokenType.assign v v₁ → Value 14 v₁ w m → EnumValue n v w m
