-- ===== src/Parser/Tables.antt =====
-- The tables of the parser: `parser_find_typedef` to `build_array_type_from_dims`, src/parser.c.
use claudec.Base.{
  ℕ, ◌+◌, ◌-◌, Bool, ◌&&◌, Option, none, some, List, [], ◌∷◌, ◌++◌, ltb, ◌==◌, if◌then◌else◌, Bytes,
  codes, str_eq,
}
use claudec.CType.{TypeKind, CType, null, type, type_array}
use claudec.Parser.{
  EnumConst, EnumTag, StructTag, TypedefEntry, FuncSig, GlobalObjSig, Parser, Parsed, done, error,
}

-- From the last entry to the first.
unfoldable pub last_typedef : List TypedefEntry → Bytes → Option TypedefEntry
last_typedef [] name = none
last_typedef (e ∷ es) name = elim (last_typedef es name) [
  | some later ↦ some later
  | none ↦ if str_eq e.name name then some e else none
]

unfoldable pub parser_find_typedef : Parser → Bytes → Option TypedefEntry
parser_find_typedef p name = last_typedef p.typedefs name

-- A typedef of this name in the scope.
unfoldable pub is_taken : List TypedefEntry → ℕ → Bytes → Bool
is_taken [] depth name = Bool.false
is_taken (e ∷ es) depth name =
    if (e.scope_depth == depth) && str_eq e.name name then Bool.true else is_taken es depth name

unfoldable pub parser_register_typedef : Bytes → TypeKind → CType → Parser → Parsed Parser
parser_register_typedef name kind full_type p =
    if is_taken p.typedefs p.scope_depth name
    then error (codes "error: duplicate typedef '%s' in this scope")
    else done (record p {
      typedefs =
          p.typedefs
          ++ record { name = name; kind = kind; full_type = full_type; scope_depth = p.scope_depth }
            ∷ [];
    })

-- The entries that the loop keeps are moved to the front.
unfoldable pub entries_below : ℕ → List TypedefEntry → List TypedefEntry
entries_below depth [] = []
entries_below depth (e ∷ es) =
    if ltb e.scope_depth depth then e ∷ entries_below depth es else entries_below depth es

unfoldable pub parser_leave_scope : Parser → Parser
parser_leave_scope p = record p {
  typedefs = entries_below p.scope_depth p.typedefs;
  scope_depth = p.scope_depth - 1;
}

-- `parser->scope_depth++;`
abbrev pub enter_scope : Parser → Parser
enter_scope p = record p { scope_depth = p.scope_depth + 1 }

unfoldable pub find_function : List FuncSig → Bytes → Option FuncSig
find_function [] name = none
find_function (s ∷ ss) name = if str_eq s.name name then some s else find_function ss name

unfoldable pub parser_find_function : Parser → Bytes → Option FuncSig
parser_find_function p name = find_function p.funcs name

unfoldable pub find_global : List GlobalObjSig → Bytes → Option GlobalObjSig
find_global [] name = none
find_global (g ∷ gs) name = if str_eq g.name name then some g else find_global gs name

unfoldable pub parser_find_global : Parser → Bytes → Option GlobalObjSig
parser_find_global p name = find_global p.globals name

unfoldable pub find_tag : List StructTag → Bytes → Option StructTag
find_tag [] tag = none
find_tag (s ∷ ss) tag = if str_eq s.tag tag then some s else find_tag ss tag

unfoldable pub parser_find_struct_tag : Parser → Bytes → Option StructTag
parser_find_struct_tag p tag = find_tag p.struct_tags tag

-- The loop over `enum_consts` of `parse_primary` and `eval_const_primary`.
unfoldable pub find_enum_const : List EnumConst → Bytes → Option EnumConst
find_enum_const [] name = none
find_enum_const (c ∷ cs) name = if str_eq c.name name then some c else find_enum_const cs name

-- The first dimension is the outermost.
unfoldable pub build_array_type_from_dims : CType → List ℕ → CType
build_array_type_from_dims elem_type [] = elem_type
build_array_type_from_dims elem_type (d ∷ ds) =
    type_array (build_array_type_from_dims elem_type ds) d

-- The type of the first entry with the tag, where it has one, and else the new one, which the entry then
-- has. `if (!st->type) st->type = type_struct(0, 0); return st->type;`
abbrev pub typed_or : CType → StructTag → List StructTag → CType → CType × List StructTag
typed_or new s ss null = (new, record s { tag_type = new } ∷ ss)
typed_or new s ss (type i b ps fs) = (type i b ps fs, s ∷ ss)

-- `parser_register_struct_tag` and `parser_register_union_tag`, with the type of the entry.
unfoldable pub refer : CType → List StructTag → Bytes → CType × List StructTag
refer new [] tag = (new, record { tag = tag; tag_type = new } ∷ [])
refer new (s ∷ ss) tag =
    let (t, rest) = refer new ss tag in
    if str_eq s.tag tag then typed_or new s ss s.tag_type else (t, s ∷ rest)

-- The loops over `enum_tags` of `parse_enum_specifier`.
unfoldable pub has_enum_tag : List EnumTag → Bytes → Bool
has_enum_tag [] tag = Bool.false
has_enum_tag (t ∷ ts) tag = if str_eq t.tag tag then Bool.true else has_enum_tag ts tag

unfoldable pub define_enum_tag : List EnumTag → Bytes → List EnumTag
define_enum_tag [] tag = record { tag = tag; is_defined = Bool.true } ∷ []
define_enum_tag (t ∷ ts) tag =
    let rest = define_enum_tag ts tag in
    if str_eq t.tag tag then record t { is_defined = Bool.true } ∷ ts else t ∷ rest

abbrev pub declare_enum_tag : List EnumTag → Bytes → List EnumTag
declare_enum_tag ts tag =
    if has_enum_tag ts tag then ts else ts ++ record { tag = tag; is_defined = Bool.false } ∷ []
