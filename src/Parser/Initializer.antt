-- ===== src/Parser/Initializer.antt =====
-- `parse_initializer_element` to `build_compound_literal`, src/parser.c.
use claudec.Base.{
  ℕ, zero, suc, ◌+◌, ◌%◌, ◌^◌, Bool, true, false, not, ◌&&◌, Option, none, some, List, [], ◌∷◌,
  ◌++◌, ◌==◌, ltb, if◌then◌else◌, Bytes, codes, take,
}
use claudec.CType.{TypeKind, CType, null as null_type, kind_eq, type_array, type_kind_name}
use claudec.Ast.{NodeType, Attrs, Ast, Children, null, node, nil, cons, ast_add_child}
use claudec.Long.{is_negative}
use claudec.Long.Text.{print_long}
use claudec.Lexer.{TokenType}
use claudec.Parser.{
  StructTag, Parser, done, error, no_fuel, ◌>>=◌, Parse, is, is_one_of, advance, parser_expect,
  parser_node, with_attrs, store, size,
}
use claudec.Parser.Types.{info, base_of, type_kind}
use claudec.Parser.Tags.{skip_if}
use claudec.Parser.Calls.{Calls}

-- The `=` and the initializer of a designator. A second designator is refused.
unfoldable pub designated : Parse Ast → Option Bytes → ℕ → Parse Ast
designated initializer value index p =
    if is_one_of (TokenType.dot ∷ TokenType.lbracket ∷ []) p
    then error (codes "error: chained designators not yet supported")
    else (do
      (_, p₁) ← parser_expect TokenType.assign p
      (a, p₂) ← initializer p₁
      done (
        ast_add_child
            (with_attrs (λ x. record x { byte_length = index })
              (parser_node p₁ NodeType.designated_init value))
            a,
        p₂,
      ))

unfoldable pub array_designator : Parse Ast → ℕ → Parse Ast
array_designator initializer index p =
    if is_negative index
    then error (codes "error: array designator index must be non-negative")
    else (do
      (_, p') ← parser_expect TokenType.rbracket p
      designated initializer none (index % 2 ^ 32) p')

unfoldable pub parse_initializer_element : Calls → Parse Ast
parse_initializer_element b p =
    if is TokenType.dot p
    then (do
      p₁ ← advance p
      (t, p₂) ← parser_expect TokenType.identifier p₁
      designated b.initializer (some t.value) 0 p₂)
    else if is TokenType.lbracket p
    then (do p₁ ← advance p; (index, p₂) ← b.const_expr p₁; array_designator b.initializer index p₂)
    else b.initializer p

-- The elements behind the first one, up to the brace, with fuel. A comma may stand before it.
unfoldable pub more_elements : ℕ → Parse Ast → Ast → Parse Ast
more_elements zero element list p = no_fuel
more_elements (suc fuel) element list p =
    let next = λ (q : Parser). (do
      (a, q') ← element q
      more_elements fuel element (ast_add_child list a) q') in
    let rest = (do p₁ ← advance p; if is TokenType.rbrace p₁ then done (list, p₁) else next p₁) in
    if is TokenType.comma p then rest else done (list, p)

abbrev pub closed_list : Ast → Parse Ast
closed_list list p =
    if is TokenType.rbrace p
    then (do p' ← advance p; done (list, p'))
    else error (codes "error: expected '}' to close initializer list")

-- After the opening brace.
unfoldable pub braced_list : Parse Ast → Parse Ast
braced_list element p =
    let list = parser_node p NodeType.initializer_list none in
    if is TokenType.rbrace p then (do p' ← advance p; done (list, p')) else (do
      (a, p₁) ← element p
      (l, p₂) ← more_elements (suc (size p₁)) element (ast_add_child list a) p₁
      closed_list l p₂)

module _ (b : Calls) where
  unfoldable pub parse_initializer : Parse Ast → Parse Ast
  parse_initializer parse_assignment_expression p =
      if is TokenType.lbrace p
      then (do p' ← advance p; braced_list (parse_initializer_element b) p')
      else parse_assignment_expression p

abbrev pub cursor_at : Ast → ℕ → ℕ
cursor_at (node NodeType.designated_init a cs) cur = elim a.value [
  | none ↦ a.byte_length
  | some name ↦ cur
]
cursor_at _ cur = cur

abbrev pub max : ℕ → ℕ → ℕ
max a b = if ltb a b then b else a

-- The loop over the elements, and the greatest index that the cursor has.
unfoldable pub last_index : Children → ℕ → ℕ → ℕ
last_index nil cur max_idx = max_idx
last_index (cons c cs) cur max_idx =
    last_index cs (cursor_at c cur + 1) (max max_idx (cursor_at c cur))

abbrev pub children_of : Ast → Children
children_of null = nil
children_of (node t a cs) = cs

abbrev length_of : Children → ℕ
length_of nil = 0
length_of cs = last_index cs 0 0 + 1

unfoldable pub infer_compound_literal_array_length : Ast → ℕ
infer_compound_literal_array_length list = length_of (children_of list)

-- The tag of the first entry whose type is the same object.
unfoldable pub tag_of : (CType → CType → Bool) → List StructTag → CType → Option Bytes
tag_of same [] t = none
tag_of same (s ∷ ss) t = if same s.tag_type t then some s.tag else tag_of same ss t

abbrev pub or_anon : Option Bytes → Bytes
or_anon none = codes "<anon>"
or_anon (some tag) = tag

-- `t->base ? type_kind_name(t->base->kind) : "?"`
abbrev pub base_name : CType → Bytes
base_name null_type = codes "?"
base_name t = type_kind_name (type_kind t)

abbrev pub array_label : CType → ℕ → Bytes
array_label base n =
    if n == 0
    then base_name base ++ codes "[]"
    else base_name base ++ (codes "[" ++ (print_long n ++ codes "]"))

-- The types that are not signed, without those that say so by their kind.
abbrev pub is_plain_unsigned : CType → Bool
is_plain_unsigned t =
    not (info t).is_signed
    && (not (kind_eq (type_kind t) TypeKind.bool)
        && not (kind_eq (type_kind t) TypeKind.unsigned_long_long))

abbrev pub scalar_label : CType → Bytes
scalar_label t =
    (if is_plain_unsigned t then codes "unsigned " else []) ++ type_kind_name (type_kind t)

abbrev pub label_of : (CType → CType → Bool) → Parser → CType → TypeKind → Bytes
label_of s p t TypeKind.struct = codes "struct " ++ or_anon (tag_of s p.struct_tags t)
label_of s p t TypeKind.union = codes "union " ++ or_anon (tag_of s p.union_tags t)
label_of s p t TypeKind.array = array_label (base_of t) (info t).length
label_of s p t TypeKind.pointer = base_name (base_of t) ++ codes " *"
label_of s p t _ = scalar_label t

-- `snprintf(label_buf, 128, ...)`
unfoldable pub type_label : (CType → CType → Bool) → Parser → CType → Bytes
type_label s p t = take 127 (label_of s p t (type_kind t))

abbrev pub literal_attrs : Bytes → TypeKind → CType → Bool → Attrs → Attrs
literal_attrs label kind t is_unsigned a = record a {
  value = some label;
  decl_type = kind;
  full_type = t;
  is_unsigned = is_unsigned;
  byte_length = 0;
}

-- The literal, begun at `p`, with its label, its types and its child.
abbrev pub literal_node : Parser → Bytes → TypeKind → CType → Bool → Ast → Ast
literal_node p label kind t is_unsigned child =
    ast_add_child
      (with_attrs (literal_attrs label kind t is_unsigned)
        (parser_node p NodeType.compound_literal (some label)))
      child

-- An array whose length is left out has the length that its elements need, and at least one.
abbrev pub sized : CType → Ast → CType
sized t list =
    let n = infer_compound_literal_array_length list in
    if (info t).length == 0 then type_array (base_of t) (if n == 0 then 1 else n) else t

abbrev pub has_base : CType → Bool
has_base null_type = false
has_base _ = true

abbrev pub element_is_unsigned : CType → Bool
element_is_unsigned u = has_base (base_of u) && is_plain_unsigned (base_of u)

-- The second label is made only where the length was inferred.
abbrev pub array_literal : Parser → Bytes → CType → Ast → Parser → Ast × Parser
array_literal start label t list p =
    let is_open = (info t).length == 0 in
    let u = sized t list in
    let label' = take 127 (array_label (base_of u) (info u).length) in
    (
      literal_node start (if is_open then label' else label) (type_kind t) u (element_is_unsigned u)
          list,
      if is_open then store label' p else p,
    )

abbrev pub scalar_full_type : CType → CType
scalar_full_type t = if kind_eq (type_kind t) TypeKind.pointer then t else null_type

-- A braced expression, from the brace on, with the comma that may follow it.
unfoldable pub braced_scalar : Calls → Parse Ast
braced_scalar b p = do
  p₁ ← advance p
  (a, p₂) ← b.assignment p₁
  p₃ ← skip_if TokenType.comma p₂
  (_, p₄) ← parser_expect TokenType.rbrace p₃
  done (a, p₄)

-- By the kind of the type. `start` is where the literal begins.
abbrev pub literal_by_kind : Calls → Parser → Bytes → CType → TypeKind → Parse Ast
literal_by_kind b start label t TypeKind.void p =
    error (codes "error: invalid type for compound literal")
literal_by_kind b start label t TypeKind.function p =
    error (codes "error: invalid type for compound literal")
literal_by_kind b start label t TypeKind.struct p = do
  (list, p') ← b.initializer p
  done (literal_node start label TypeKind.struct t false list, p')
literal_by_kind b start label t TypeKind.union p = do
  (list, p') ← b.initializer p
  done (literal_node start label TypeKind.union t false list, p')
literal_by_kind b start label t TypeKind.array p = do
  (list, p') ← b.initializer p
  done (array_literal start label t list p')
literal_by_kind b start label t kind p = do
  (a, p') ← braced_scalar b p
  done (literal_node start label kind (scalar_full_type t) (is_plain_unsigned t) a, p')

-- The current token is the opening brace.
unfoldable pub build_compound_literal : Calls → CType → Parse Ast
build_compound_literal b t p =
    let label = type_label b.same_object p t in
    literal_by_kind b (store label p) label t (type_kind t) (store label p)
