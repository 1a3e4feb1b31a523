-- ===== src/Parser/Nodes.antt =====
-- The nodes that phrases stand for, and what C asks of a callee, an operand of `&` and a target.
use claudec.Base.{
  ℕ, ◌+◌, ◌≤◌, true, false, not, Option, none, some, ◌==◌, ltb, Bytes, codes, ◌≡◌, refl, sym, arith,
  inl, inr, Bool-cases, ==_iff, if◌then◌else◌, length,
}
use claudec.CType.{TypeKind, CType, null as no_type, type_char, type_array, type_kind_name, kind_eq}
use claudec.Long.Text.{print_long}
use claudec.Ast.{NodeType, Ast, ast_add_child}
use claudec.Parser.{EnumConst, FuncSig, Parser, parser_node, with_attrs}
use claudec.Parser.Types.{info, type_kind}
use claudec.Parser.Calls.{with_child, with_children}
use claudec.Parser.Primary.{accepts_count, accepts}
use claudec.Parser.Unary.{is_addressable, has_fields_or_elements}
use claudec.Parser.Binary.{bin_op, assigned, is_assignable}
use claudec.Lexer.{TokenType}
use claudec.Lexer.Codes.{token_eq}
use claudec.Parser.Symbols.{
  Assign, simple, add, subtract, multiply, divide, modulo, shift_left, shift_right, intersect,
  differ, unite,
}

-- An enumerator is an `int` literal with its value in decimal.
abbrev pub enumerator_node : Parser → EnumConst → Ast
enumerator_node q c =
    with_attrs (λ a. record a { decl_type = TypeKind.int })
      (parser_node q NodeType.int_literal (some (print_long c.value)))

-- A string literal is an array of its bytes and the closing zero.
abbrev pub text_node : Parser → Bytes → Ast
text_node q s =
    with_attrs
      (λ a. record a {
        byte_length = length s;
        decl_type = TypeKind.array;
        full_type = type_array type_char (length s + 1);
      })
      (parser_node q NodeType.string_literal (some s))

abbrev pub next_argument_node : Parser → Ast → CType → Ast
next_argument_node q a t =
    with_attrs
      (λ x. record x {
        decl_type = type_kind t;
        full_type = t;
        value = some (type_kind_name (type_kind t));
      })
      (with_child q NodeType.builtin_va_arg none a)

-- A cast has the kind and the sign of its type, and the type itself where that is a pointer.
abbrev pub conversion_node : Parser → CType → Ast → Ast
conversion_node q t a =
    ast_add_child
      (with_attrs
        (λ x. record x {
          decl_type = type_kind t;
          is_unsigned = not (info t).is_signed;
          full_type = if kind_eq (type_kind t) TypeKind.pointer then t else no_type;
        })
        (parser_node q NodeType.cast none))
      a

-- `sizeof` has the kind of the type, and the type itself where that is no scalar.
abbrev pub type_size_node : Parser → CType → Ast
type_size_node q t =
    with_attrs
      (λ x. record x {
        decl_type = type_kind t;
        full_type = if has_fields_or_elements (type_kind t) then t else no_type;
      })
      (parser_node q NodeType.sizeof_type none)

-- A function takes so many arguments: any number without a prototype, as many as it has parameters, or
-- more where it takes any number behind them.
pub data Accepts (s : FuncSig) (n : ℕ) : Type 0 where
  no_prototype : s.has_no_prototype ≡ true → Accepts s n
  unknown_count : s.param_count ≡ none → Accepts s n
  at_least : (k : ℕ) → s.param_count ≡ some k → s.is_variadic ≡ true → k ≤ n → Accepts s n
  exactly : (k : ℕ) → s.param_count ≡ some k → s.is_variadic ≡ false → n ≡ k → Accepts s n

pub accepts-Accepts : (s : FuncSig) (n : ℕ) → accepts s n ≡ true → Accepts s n
accepts-Accepts s n h = elim (Bool-cases s.has_no_prototype) [
  | inl e ↦ no_prototype e
  | inr e ↦ by_count s.param_count refl (rw e at h)
]
  where
    by_count :
        (o : Option ℕ) → s.param_count ≡ o → accepts_count o s.is_variadic n ≡ true → Accepts s n
    by_count none e h = unknown_count e
    by_count (some k) e h = elim (Bool-cases s.is_variadic) [
      | inl v ↦ let enough : not (ltb n k) ≡ true = rw v at h in at_least k e v (ground arith)
      | inr v ↦ let same : (k == n) ≡ true = rw v at h in exactly k e v (sym ((==_iff k n).0 same))
    ]

-- The nodes whose address can be taken.
pub data Addressable : Option NodeType → Type 0 where
  variable : Addressable (some NodeType.var_ref)
  element : Addressable (some NodeType.array_index)
  member : Addressable (some NodeType.member_access)
  pointed_member : Addressable (some NodeType.arrow_access)
  literal : Addressable (some NodeType.compound_literal)

pub is_addressable-Addressable : (t : Option NodeType) → is_addressable t ≡ true → Addressable t
is_addressable-Addressable (some NodeType.var_ref) h = variable
is_addressable-Addressable (some NodeType.array_index) h = element
is_addressable-Addressable (some NodeType.member_access) h = member
is_addressable-Addressable (some NodeType.arrow_access) h = pointed_member
is_addressable-Addressable (some NodeType.compound_literal) h = literal
is_addressable-Addressable _ h = cc

-- The nodes that can be assigned to.
pub data Assignable : Option NodeType → Type 0 where
  pointee : Assignable (some NodeType.deref)
  target_variable : Assignable (some NodeType.var_ref)
  target_element : Assignable (some NodeType.array_index)
  target_member : Assignable (some NodeType.member_access)
  target_pointed : Assignable (some NodeType.arrow_access)

pub is_assignable-Assignable : (t : Option NodeType) → is_assignable t ≡ true → Assignable t
is_assignable-Assignable (some NodeType.deref) h = pointee
is_assignable-Assignable (some NodeType.var_ref) h = target_variable
is_assignable-Assignable (some NodeType.array_index) h = target_element
is_assignable-Assignable (some NodeType.member_access) h = target_member
is_assignable-Assignable (some NodeType.arrow_access) h = target_pointed
is_assignable-Assignable _ h = cc

-- What `a op= b` assigns is `a op b`, and what `a = b` assigns is b.
pub data Assigned (q : Parser) (a b : Ast) : Option Bytes → Ast → Type 0 where
  only : Assigned q a b none b
  applied :
      (op : Bytes) → Assigned q a b (some op) (with_children q NodeType.binary_op (some op) a b)

pub assigned-Assigned :
    (q : Parser) (a b : Ast) (o : Option Bytes) → Assigned q a b o (assigned q o a b)
assigned-Assigned q a b none = only
assigned-Assigned q a b (some op) = applied op

simple-bin_op : (t : TokenType) → token_eq t TokenType.assign ≡ true → bin_op t ≡ none
simple-bin_op TokenType.assign h = refl
simple-bin_op _ h = cc

add-bin_op : (t : TokenType) → token_eq t TokenType.plus_assign ≡ true → bin_op t ≡ some (codes "+")
add-bin_op TokenType.plus_assign h = refl
add-bin_op _ h = cc

subtract-bin_op :
    (t : TokenType) → token_eq t TokenType.minus_assign ≡ true → bin_op t ≡ some (codes "-")
subtract-bin_op TokenType.minus_assign h = refl
subtract-bin_op _ h = cc

multiply-bin_op :
    (t : TokenType) → token_eq t TokenType.star_assign ≡ true → bin_op t ≡ some (codes "*")
multiply-bin_op TokenType.star_assign h = refl
multiply-bin_op _ h = cc

divide-bin_op :
    (t : TokenType) → token_eq t TokenType.slash_assign ≡ true → bin_op t ≡ some (codes "/")
divide-bin_op TokenType.slash_assign h = refl
divide-bin_op _ h = cc

modulo-bin_op :
    (t : TokenType) → token_eq t TokenType.percent_assign ≡ true → bin_op t ≡ some (codes "%")
modulo-bin_op TokenType.percent_assign h = refl
modulo-bin_op _ h = cc

shift_left-bin_op :
    (t : TokenType) → token_eq t TokenType.left_shift_assign ≡ true → bin_op t ≡ some (codes "<<")
shift_left-bin_op TokenType.left_shift_assign h = refl
shift_left-bin_op _ h = cc

shift_right-bin_op :
    (t : TokenType) → token_eq t TokenType.right_shift_assign ≡ true → bin_op t ≡ some (codes ">>")
shift_right-bin_op TokenType.right_shift_assign h = refl
shift_right-bin_op _ h = cc

intersect-bin_op :
    (t : TokenType) → token_eq t TokenType.amp_assign ≡ true → bin_op t ≡ some (codes "&")
intersect-bin_op TokenType.amp_assign h = refl
intersect-bin_op _ h = cc

differ-bin_op :
    (t : TokenType) → token_eq t TokenType.caret_assign ≡ true → bin_op t ≡ some (codes "^")
differ-bin_op TokenType.caret_assign h = refl
differ-bin_op _ h = cc

unite-bin_op :
    (t : TokenType) → token_eq t TokenType.pipe_assign ≡ true → bin_op t ≡ some (codes "|")
unite-bin_op TokenType.pipe_assign h = refl
unite-bin_op _ h = cc

-- The operator of an assignment is the one of the table.
pub bin_op-Assign :
    {k : TokenType} {o : Option Bytes} (t : TokenType)
    → Assign k o
    → token_eq t k ≡ true
    → bin_op t ≡ o
bin_op-Assign t simple h = simple-bin_op t h
bin_op-Assign t add h = add-bin_op t h
bin_op-Assign t subtract h = subtract-bin_op t h
bin_op-Assign t multiply h = multiply-bin_op t h
bin_op-Assign t divide h = divide-bin_op t h
bin_op-Assign t modulo h = modulo-bin_op t h
bin_op-Assign t shift_left h = shift_left-bin_op t h
bin_op-Assign t shift_right h = shift_right-bin_op t h
bin_op-Assign t intersect h = intersect-bin_op t h
bin_op-Assign t differ h = differ-bin_op t h
bin_op-Assign t unite h = unite-bin_op t h
