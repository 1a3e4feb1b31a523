-- ===== src/Parser/Binary.antt =====
-- `parse_term` to `parse_expression`, src/parser.c.
use claudec.Base.{
  ℕ, zero, suc, Bool, true, false, Option, none, some, List, [], ◌∷◌, if◌then◌else◌, Bytes, codes,
}
use claudec.Ast.{NodeType, Ast, ast_add_child, ast_clone}
use claudec.Lexer.{TokenType}
use claudec.Parser.{
  Parser, done, error, no_fuel, ◌>>=◌, Parse, is, is_one_of, advance, parser_node, restore, size,
}
use claudec.Parser.Calls.{Calls, with_child, with_children, binary_level}
use claudec.Parser.Postfix.{node_type}
use claudec.Parser.Unary.{parse_cast}

abbrev pub term_ops : List TokenType
term_ops = TokenType.star ∷ TokenType.slash ∷ TokenType.percent ∷ []

abbrev pub additive_ops : List TokenType
additive_ops = TokenType.plus ∷ TokenType.minus ∷ []

abbrev pub shift_ops : List TokenType
shift_ops = TokenType.left_shift ∷ TokenType.right_shift ∷ []

abbrev pub relational_ops : List TokenType
relational_ops = TokenType.lt ∷ TokenType.le ∷ TokenType.gt ∷ TokenType.ge ∷ []

abbrev pub equality_ops : List TokenType
equality_ops = TokenType.eq ∷ TokenType.ne ∷ []

module _ (b : Calls) where
  unfoldable pub parse_term : Parse Ast
  parse_term p = binary_level term_ops (parse_cast b) p

  unfoldable pub parse_additive : Parse Ast
  parse_additive p = binary_level additive_ops parse_term p

  unfoldable pub parse_shift : Parse Ast
  parse_shift p = binary_level shift_ops parse_additive p

  unfoldable pub parse_relational : Parse Ast
  parse_relational p = binary_level relational_ops parse_shift p

  unfoldable pub parse_equality : Parse Ast
  parse_equality p = binary_level equality_ops parse_relational p

  unfoldable pub parse_bitwise_and : Parse Ast
  parse_bitwise_and p = binary_level (TokenType.ampersand ∷ []) parse_equality p

  unfoldable pub parse_bitwise_xor : Parse Ast
  parse_bitwise_xor p = binary_level (TokenType.caret ∷ []) parse_bitwise_and p

  unfoldable pub parse_bitwise_or : Parse Ast
  parse_bitwise_or p = binary_level (TokenType.pipe ∷ []) parse_bitwise_xor p

  unfoldable pub parse_logical_and : Parse Ast
  parse_logical_and p = binary_level (TokenType.and_and ∷ []) parse_bitwise_or p

  unfoldable pub parse_logical_or : Parse Ast
  parse_logical_or p = binary_level (TokenType.or_or ∷ []) parse_logical_and p

abbrev pub conditional_node : Parser → Ast → Ast → Ast → Ast
conditional_node p c a b = ast_add_child (with_children p NodeType.conditional_expr none c a) b

-- After the second operand.
unfoldable pub else_branch : Calls → Ast → Ast → Parse Ast
else_branch b c x p =
    if is TokenType.colon p
    then (do p₁ ← advance p; (y, p₂) ← b.conditional p₁; done (conditional_node p₂ c x y, p₂))
    else error (codes "error: expected ':' in conditional expression")

-- After the question mark.
unfoldable pub branches : Calls → Ast → Parse Ast
branches b c p =
    if is TokenType.colon p
    then error (codes "error: expected expression after '?'")
    else (do (x, p') ← b.expression p; else_branch b c x p')

unfoldable pub parse_conditional : Calls → Parse Ast
parse_conditional b p = do
  (c, p₁) ← parse_logical_or b p
  if is TokenType.question p₁ then (do p₂ ← advance p₁; branches b c p₂) else done (c, p₁)

abbrev pub assignment_ops : List TokenType
assignment_ops =
    TokenType.assign ∷ TokenType.plus_assign ∷ TokenType.minus_assign ∷ TokenType.star_assign
    ∷ TokenType.slash_assign ∷ TokenType.percent_assign ∷ TokenType.left_shift_assign
    ∷ TokenType.right_shift_assign ∷ TokenType.amp_assign ∷ TokenType.caret_assign
    ∷ TokenType.pipe_assign ∷ []

-- The operator of a compound assignment, and none for `=`.
abbrev pub bin_op : TokenType → Option Bytes
bin_op TokenType.assign = none
bin_op TokenType.plus_assign = some (codes "+")
bin_op TokenType.minus_assign = some (codes "-")
bin_op TokenType.star_assign = some (codes "*")
bin_op TokenType.slash_assign = some (codes "/")
bin_op TokenType.percent_assign = some (codes "%")
bin_op TokenType.left_shift_assign = some (codes "<<")
bin_op TokenType.right_shift_assign = some (codes ">>")
bin_op TokenType.amp_assign = some (codes "&")
bin_op TokenType.caret_assign = some (codes "^")
bin_op _ = some (codes "|")

-- What is assigned: `a op= b` is `a = a op b`.
abbrev pub assigned : Parser → Option Bytes → Ast → Ast → Ast
assigned p none a rhs = rhs
assigned p (some op) a rhs = with_children p NodeType.binary_op (some op) a rhs

-- From the operator on, with a name before it.
unfoldable pub name_assignment : Calls → Bytes → Parse Ast
name_assignment b name p = do
  p₁ ← advance p
  (rhs, p₂) ← b.assignment p₁
  done (
    with_child p₂ NodeType.assignment (some name) (
        assigned p₂ (bin_op p.current.token_type) (parser_node p₂ NodeType.var_ref (some name))
          rhs),
    p₂,
  )

abbrev pub is_assignable : Option NodeType → Bool
is_assignable (some NodeType.deref) = true
is_assignable (some NodeType.var_ref) = true
is_assignable (some NodeType.array_index) = true
is_assignable (some NodeType.member_access) = true
is_assignable (some NodeType.arrow_access) = true
is_assignable _ = false

-- From the operator on, with an expression before it.
unfoldable pub lvalue_assignment : Calls → Ast → Parse Ast
lvalue_assignment b lhs p =
    if is_assignable (node_type lhs)
    then (do
      p₁ ← advance p
      (rhs, p₂) ← b.assignment p₁
      done (
        with_children p₂ NodeType.assignment none lhs
            (assigned p₂ (bin_op p.current.token_type) (ast_clone lhs) rhs),
        p₂,
      ))
    else error (codes "error: assignment target must be an lvalue")

unfoldable pub conditional_or_assignment : Calls → Parse Ast
conditional_or_assignment b p = do
  (lhs, p') ← parse_conditional b p
  if is_one_of assignment_ops p' then lvalue_assignment b lhs p' else done (lhs, p')

-- After an identifier.
abbrev pub after_name : Calls → Parser → Parse Ast
after_name b start p =
    if is_one_of assignment_ops p
    then name_assignment b start.current.value p
    else conditional_or_assignment b (restore start p)

unfoldable pub parse_assignment_expression : Calls → Parse Ast
parse_assignment_expression b p =
    if is TokenType.identifier p
    then (do p' ← advance p; after_name b p p')
    else conditional_or_assignment b p

-- The loop over the commas, with fuel.
unfoldable pub comma_rest : ℕ → Parse Ast → Ast → Parse Ast
comma_rest zero assignment left p = no_fuel
comma_rest (suc fuel) assignment left p =
    let rest = (do
      p₁ ← advance p
      (right, p₂) ← assignment p₁
      comma_rest fuel assignment
          (with_children p₂ NodeType.comma_expr (some (codes ",")) left right) p₂) in
    if is TokenType.comma p then rest else done (left, p)

unfoldable pub parse_expression : Calls → Parse Ast
parse_expression b p = do
  (left, p') ← parse_assignment_expression b p
  comma_rest (suc (size p')) (parse_assignment_expression b) left p'
