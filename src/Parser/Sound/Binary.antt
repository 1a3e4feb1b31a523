-- ===== src/Parser/Sound/Binary.antt =====
-- `parse_term` to `parse_expression`, src/parser.c, read expressions from left to right.
use claudec.Base.{
  Option, Bytes, sym, subst, ℕ, zero, suc, ◌<◌, ◌≤◌, true, some, List, ◌≡◌, refl, arith, codes,
}
use claudec.Ast.{NodeType, Ast, ast_clone}
use claudec.Lexer.{TokenType}
use claudec.Parser.{parser_node, Parser, Parse, is, is_one_of, restore, size}
use claudec.Parser.Nodes.{is_assignable-Assignable, Assigned, assigned-Assigned, bin_op-Assign}
use claudec.Lexer.Codes.{token_eq}
use claudec.Parser.Names.{names_of}
use claudec.Parser.Calls.{Calls, with_children, binary_rest, binary_level}
use claudec.Parser.Postfix.{node_type}
use claudec.Parser.Unary.{parse_cast}
use claudec.Parser.Binary.{
  term_ops, additive_ops, shift_ops, relational_ops, equality_ops, parse_term, parse_additive,
  parse_shift, parse_relational, parse_equality, parse_bitwise_and, parse_bitwise_xor,
  parse_bitwise_or, parse_logical_and, parse_logical_or, else_branch, branches, parse_conditional,
  assignment_ops, bin_op, assigned, name_assignment, is_assignable, lvalue_assignment,
  conditional_or_assignment, parse_assignment_expression, comma_rest, parse_expression,
}
use claudec.Parser.Runs.{
  View, view, Runs, returned, failed, Reads, Parses, >>=-Runs, Runs-map, Runs-if, >>=-advance,
  AllOf, one_of, Stands, Next-names, restored-Runs,
}
use claudec.Parser.Symbols.{
  Infix, times, over, remainder, plus, minus, left, right, below, at_most, above, at_least, equal,
  unequal, both_bits, one_bit, any_bit, both, either, Assign, simple, add, subtract, multiply,
  divide, modulo, shift_left, shift_right, intersect, differ, unite,
}
use claudec.Parser.Grammar.{
  Derives, level, lift, binary, choice, assign_name, assign_lvalue, comma_of,
}
use claudec.Parser.Sound.{Sounds}
use claudec.Parser.Sound.Unary.{parse_cast-Parses}

-- The operators of a level.
abbrev Operators : ℕ → List TokenType → Type 0
Operators l ks = AllOf (λ k. Infix (suc l) k × Stands k) ks

module _ (l n : ℕ) (ks : List TokenType) (ops : Operators l ks) (operand : Parse Ast)
    (reads : Parses (Derives (level l)) n operand) where
  binary_rest-Runs :
      (fuel : ℕ) (v : View) (a : Ast) (p : Parser)
      → size p < fuel
      → size p < n
      → Derives (level (suc l)) v (view p) a
      → Runs (λ a w. Derives (level (suc l)) v w a) (size p) (binary_rest fuel ks operand a p)
  unfolding binary_rest
  binary_rest-Runs zero v a p f h x = absurd (omega arith)
  binary_rest-Runs (suc fuel) v a p f h x =
      Runs-if (is_one_of ks p)
        (λ e.
          let (k, (i, s), j) = one_of ks p ops e in
          >>=-advance k p s j (λ q y d. >>=-Runs (reads q (omega arith)) (λ r z le.
            Runs-map
              (binary_rest-Runs fuel v
                (with_children r.1 NodeType.binary_op (some p.current.value) a r.0) r.1
                (omega arith) (omega arith) (binary r.1 i x y z))
              (omega arith) (λ c w u. u))))
        (λ _. returned x (omega arith))

  binary_level-Parses : Parses (Derives (level (suc l))) n (binary_level ks operand)
  unfolding binary_level
  binary_level-Parses p h = >>=-Runs (reads p h) (λ r x le.
      Runs-map
        (binary_rest-Runs (suc (size r.1)) (view p) r.0 r.1 (omega arith) (omega arith) (lift x)) le
        (λ a w y. y))

module _ (n : ℕ) (b : Calls) (sound : Sounds n b) where
  parse_term-Parses : Parses (Derives (level 4)) (suc n) (parse_term b)
  unfolding parse_term
  parse_term-Parses =
      binary_level-Parses 3 (suc n) term_ops
        ((times, refl), ((over, refl), ((remainder, refl), tt))) (parse_cast b)
        (parse_cast-Parses n b sound)

  parse_additive-Parses : Parses (Derives (level 5)) (suc n) (parse_additive b)
  unfolding parse_additive
  parse_additive-Parses =
      binary_level-Parses 4 (suc n) additive_ops ((plus, refl), ((minus, refl), tt)) (parse_term b)
        parse_term-Parses

  parse_shift-Parses : Parses (Derives (level 6)) (suc n) (parse_shift b)
  unfolding parse_shift
  parse_shift-Parses =
      binary_level-Parses 5 (suc n) shift_ops ((left, refl), ((right, refl), tt)) (parse_additive b)
        parse_additive-Parses

  parse_relational-Parses : Parses (Derives (level 7)) (suc n) (parse_relational b)
  unfolding parse_relational
  parse_relational-Parses =
      binary_level-Parses 6 (suc n) relational_ops
        ((below, refl), ((at_most, refl), ((above, refl), ((at_least, refl), tt)))) (parse_shift b)
        parse_shift-Parses

  parse_equality-Parses : Parses (Derives (level 8)) (suc n) (parse_equality b)
  unfolding parse_equality
  parse_equality-Parses =
      binary_level-Parses 7 (suc n) equality_ops ((equal, refl), ((unequal, refl), tt))
        (parse_relational b) parse_relational-Parses

  parse_bitwise_and-Parses : Parses (Derives (level 9)) (suc n) (parse_bitwise_and b)
  unfolding parse_bitwise_and
  parse_bitwise_and-Parses =
      binary_level-Parses 8 (suc n) _ ((both_bits, refl), tt) (parse_equality b)
        parse_equality-Parses

  parse_bitwise_xor-Parses : Parses (Derives (level 10)) (suc n) (parse_bitwise_xor b)
  unfolding parse_bitwise_xor
  parse_bitwise_xor-Parses =
      binary_level-Parses 9 (suc n) _ ((one_bit, refl), tt) (parse_bitwise_and b)
        parse_bitwise_and-Parses

  parse_bitwise_or-Parses : Parses (Derives (level 11)) (suc n) (parse_bitwise_or b)
  unfolding parse_bitwise_or
  parse_bitwise_or-Parses =
      binary_level-Parses 10 (suc n) _ ((any_bit, refl), tt) (parse_bitwise_xor b)
        parse_bitwise_xor-Parses

  parse_logical_and-Parses : Parses (Derives (level 12)) (suc n) (parse_logical_and b)
  unfolding parse_logical_and
  parse_logical_and-Parses =
      binary_level-Parses 11 (suc n) _ ((both, refl), tt) (parse_bitwise_or b)
        parse_bitwise_or-Parses

  parse_logical_or-Parses : Parses (Derives (level 13)) (suc n) (parse_logical_or b)
  unfolding parse_logical_or
  parse_logical_or-Parses =
      binary_level-Parses 12 (suc n) _ ((either, refl), tt) (parse_logical_and b)
        parse_logical_and-Parses

  pub parse_conditional-Parses : Parses (Derives (level 14)) (suc n) (parse_conditional b)
  unfolding parse_conditional branches else_branch
  parse_conditional-Parses p h = >>=-Runs (parse_logical_or-Parses p h) (λ c x le.
      Runs-if (is TokenType.question c.1)
        (λ e. >>=-advance TokenType.question c.1 refl e (λ q y d.
          Runs-if (is TokenType.colon q) (λ _. failed)
            (λ _. >>=-Runs (sound.expression q (omega arith)) (λ r z le'.
              Runs-if (is TokenType.colon r.1)
                (λ i. >>=-advance TokenType.colon r.1 refl i (λ q₂ y₂ d₂.
                  >>=-Runs (sound.conditional q₂ (omega arith))
                    (λ s u le''. returned (choice s.1 x y z y₂ u) (omega arith))))
                (λ _. failed)))))
        (λ _. returned (lift x) le))

  assign_op :
      (p : Parser)
      → is_one_of assignment_ops p ≡ true
      → (k : TokenType) × ((o : Option Bytes) × Assign k o × Stands k) × (is k p ≡ true)
  assign_op p e =
      one_of assignment_ops p
        (
          (_, simple, refl),
          (
            (_, add, refl),
            (
              (_, subtract, refl),
              (
                (_, multiply, refl),
                (
                  (_, divide, refl),
                  (
                    (_, modulo, refl),
                    (
                      (_, shift_left, refl),
                      (
                        (_, shift_right, refl),
                        ((_, intersect, refl), ((_, differ, refl), ((_, unite, refl), tt))),
                      ),
                    ),
                  ),
                ),
              ),
            ),
          ),
        )
        e

  of_op :
      {k : TokenType} {o : Option Bytes} (q : Parser) (a c : Ast) (t : TokenType)
      → Assign k o
      → token_eq t k ≡ true
      → Assigned q a c o (assigned q (bin_op t) a c)
  of_op {k} {o} q a c t i h =
      subst (λ o'. Assigned q a c o (assigned q o' a c)) (sym (bin_op-Assign t i h))
        (assigned-Assigned q a c o)

  conditional_or_assignment-Parses :
      Parses (Derives (level 15)) (suc n) (conditional_or_assignment b)
  unfolding conditional_or_assignment lvalue_assignment
  conditional_or_assignment-Parses p h = >>=-Runs (parse_conditional-Parses p h) (λ lhs x le.
      Runs-if (is_one_of assignment_ops lhs.1)
        (λ e.
          let (k, (o', i, s), j) = assign_op lhs.1 e in
          Runs-if (is_assignable (node_type lhs.0))
            (λ o. >>=-advance k lhs.1 s j (λ q y d.
              >>=-Runs (sound.assignment q (omega arith)) (λ r z le'.
                returned
                  (assign_lvalue r.1 i x (is_assignable-Assignable (node_type lhs.0) o) y z
                    (of_op r.1 (ast_clone lhs.0) r.0 lhs.1.current.token_type i j))
                  (omega arith))))
            (λ _. failed))
        (λ _. returned (lift x) le))

  restored :
      (p q : Parser)
      → size p ≤ n
      → names_of q ≡ names_of p
      → Reads (Derives (level 15)) p (conditional_or_assignment b (restore p q))
  unfolding restore size
  restored p q h e =
      restored-Runs (Derives (level 15)) p q e
        (conditional_or_assignment-Parses (restore p q) (omega arith))

  pub parse_assignment_expression-Parses :
      Parses (Derives (level 15)) (suc n) (parse_assignment_expression b)
  unfolding parse_assignment_expression name_assignment
  parse_assignment_expression-Parses p h =
      Runs-if (is TokenType.identifier p)
        (λ e. >>=-advance TokenType.identifier p refl e (λ q x d.
          Runs-if (is_one_of assignment_ops q)
            (λ f.
              let (k, (o', i, s), j) = assign_op q f in
              >>=-advance k q s j (λ q₂ y d₂.
                >>=-Runs (sound.assignment q₂ (omega arith)) (λ r z le.
                  returned
                    (assign_name r.1 i x y z (
                      of_op r.1 (parser_node r.1 NodeType.var_ref (some p.current.value)) r.0
                        q.current.token_type i j))
                    (omega arith))))
            (λ _. restored p q (omega arith) (Next-names x))))
        (λ _. conditional_or_assignment-Parses p h)

  comma_rest-Runs :
      (fuel : ℕ) (v : View) (a : Ast) (p : Parser)
      → size p < fuel
      → size p ≤ n
      → Derives (level 16) v (view p) a
      → Runs
          (λ a w. Derives (level 16) v w a)
          (size p)
          (comma_rest fuel (parse_assignment_expression b) a p)
  unfolding comma_rest
  comma_rest-Runs zero v a p f h x = absurd (omega arith)
  comma_rest-Runs (suc fuel) v a p f h x =
      Runs-if (is TokenType.comma p)
        (λ e. >>=-advance TokenType.comma p refl e (λ q y d.
          >>=-Runs (parse_assignment_expression-Parses q (omega arith)) (λ r z le.
            Runs-map
              (comma_rest-Runs fuel v
                (with_children r.1 NodeType.comma_expr (some (codes ",")) a r.0) r.1 (omega arith)
                (omega arith) (comma_of r.1 x y z))
              (omega arith) (λ c w u. u))))
        (λ _. returned x (omega arith))

  pub parse_expression-Parses : Parses (Derives (level 16)) (suc n) (parse_expression b)
  unfolding parse_expression
  parse_expression-Parses p h = >>=-Runs (parse_assignment_expression-Parses p h) (λ r x le.
      Runs-map
        (comma_rest-Runs (suc (size r.1)) (view p) r.0 r.1 (omega arith) (omega arith) (lift x)) le
        (λ a w y. y))
