-- ===== src/Parser/Sound/Constant.antt =====
-- `eval_const_primary` to `eval_const_expr`, src/parser.c, give the value of what they read.
use claudec.Base.{ℕ, suc, ◌<◌, ◌≤◌, true, Option, ◌∷◌, ◌≡◌, refl, arith}
use claudec.CType.{TypeKind, kind_eq}
use claudec.Lexer.{TokenType}
use claudec.Parser.{EnumConst, Parser, Parsed, is, size}
use claudec.Parser.TypeNames.{type_starts, begins_type}
use claudec.Parser.Types.{type_kind}
use claudec.Parser.Calls.{Calls}
use claudec.Parser.Unary.{is_open_array}
use claudec.Parser.Binary.{term_ops, additive_ops, shift_ops, relational_ops, equality_ops}
use claudec.Parser.Constant.{
  literal_constant, named_constant, const_cast_starts, cast_or_constant, const_sizeof_type,
  const_sizeof_in_parens, const_sizeof, eval_const_primary, const_signed, eval_const_unary,
  multiplicative, additive, shifted, relational, equality,
}
use claudec.Parser.Levels.{
  eval_const_multiplicative, eval_const_additive, eval_const_shift, eval_const_relational,
  eval_const_equality, eval_const_bitwise_and, eval_const_bitwise_xor, eval_const_bitwise_or,
  eval_const_logical_and, eval_const_logical_or, const_branches, eval_const_conditional,
  eval_const_expr,
}
use claudec.Parser.Runs.{
  View, view, Next, Runs, returned, failed, Reads, Parses, >>=-Runs, Runs-map, Runs-if, >>=-advance,
  >>=-expect, Stands,
}
use claudec.Parser.Symbols.{Infix}
use claudec.Parser.Values.{operation, Sign, negative, positive, complement, negation}
use claudec.Parser.Grammar.{
  Value, number_value, character_value, constant_value, parens_value, cast_value,
  size_of_type_value, size_of_value, sign_of, lift_value, choice_value,
}
use claudec.Parser.Names.{FirstConst, NoConst, Finds, found, missing, find_enum_const-Finds}
use claudec.Parser.Sound.{Sounds}
use claudec.Parser.Sound.Operators.{
  const_level-Parses, multiplicative-Operators, additive-Operators, shifted-Operators,
  relational-Operators, equality-Operators, single,
}

module _ (n : ℕ) (b : Calls) (sound : Sounds n b) where
  abbrev Evaluates : Parser → Parsed (ℕ × Parser) → Type 0
  Evaluates p o = Reads (Value 2) p o

  named_constant-Reads :
      (p : Parser)
      → is TokenType.identifier p ≡ true
      → {o : Option EnumConst}
      → Finds
          (λ c. FirstConst p.current.value c p.enum_consts)
          (NoConst p.current.value p.enum_consts)
          o
      → Evaluates p (named_constant o p)
  named_constant-Reads p e (missing f) = failed
  named_constant-Reads p e (found {a = c} f) =
      >>=-advance TokenType.identifier p refl e
        (λ q x d. returned (constant_value c f x) (omega arith))

  -- In parentheses are a type, with its operand behind them, or a whole constant_value.
  cast_or_constant-Runs :
      (const_expr : Parses (Value 14) n b.const_expr) (v : View) (p : Parser)
      → size p < n
      → Next TokenType.lparen v (view p)
      → Runs (λ a w. Value 2 v w a) (size p) (cast_or_constant b p)
  unfolding cast_or_constant
  cast_or_constant-Runs const_expr v p h x =
      Runs-if (begins_type const_cast_starts p)
        (λ _. >>=-Runs (sound.types p h) (λ r y le.
          >>=-expect TokenType.rparen r.1 refl _ (λ q x₂ d.
            Runs-map (sound.const_unary q (omega arith)) (omega arith)
              (λ a w z. cast_value x y x₂ z))))
        (λ _. >>=-Runs (const_expr p h) (λ r y le.
          >>=-expect TokenType.rparen r.1 refl _
            (λ q x₂ d. returned (parens_value x y x₂) (omega arith))))

  const_sizeof-Runs :
      (v : View) (p : Parser)
      → size p < n
      → Next TokenType.sizeof v (view p)
      → Runs (λ a w. Value 2 v w a) (size p) (const_sizeof b p)
  unfolding const_sizeof const_sizeof_in_parens const_sizeof_type
  const_sizeof-Runs v p h x =
      Runs-if (is TokenType.lparen p)
        (λ e. >>=-advance TokenType.lparen p refl e (λ q x₂ d.
          Runs-if (begins_type (TokenType.enum ∷ type_starts) q)
            (λ _. >>=-Runs (sound.types q (omega arith)) (λ r y le.
              Runs-if (kind_eq (type_kind r.0) TypeKind.void) (λ _. failed)
                (λ _.
                  Runs-if (is_open_array r.0) (λ _. failed)
                    (λ i.
                      >>=-expect TokenType.rparen r.1 refl _
                        (λ q₃ x₃ d₃. returned (size_of_type_value x x₂ y i x₃) (omega arith))))))
            (λ _. >>=-Runs (sound.expression q (omega arith)) (λ r y le.
              >>=-expect TokenType.rparen r.1 refl _
                (λ q₃ x₃ d₃. returned (size_of_value x x₂ y x₃) (omega arith))))))
        (λ _. failed)

  module _ (const_expr : Parses (Value 14) n b.const_expr) where
    eval_const_primary-Parses : Parses (Value 2) (suc n) (eval_const_primary b)
    unfolding eval_const_primary literal_constant
    eval_const_primary-Parses p h =
        Runs-if (is TokenType.int_literal p)
          (λ e.
            >>=-advance TokenType.int_literal p refl e
              (λ q x d. returned (number_value x) (omega arith)))
          (λ _.
            Runs-if (is TokenType.char_literal p)
              (λ e.
                >>=-advance TokenType.char_literal p refl e
                  (λ q x d. returned (character_value x) (omega arith)))
              (λ _.
                Runs-if (is TokenType.identifier p)
                  (λ e.
                    named_constant-Reads p e (find_enum_const-Finds p.enum_consts p.current.value))
                  (λ _.
                    Runs-if (is TokenType.lparen p)
                      (λ e. >>=-advance TokenType.lparen p refl e (λ q x d.
                        Runs-map (cast_or_constant-Runs const_expr (view p) q (omega arith) x)
                          (omega arith) (λ a w y. y)))
                      (λ _.
                        Runs-if (is TokenType.sizeof p)
                          (λ e. >>=-advance TokenType.sizeof p refl e (λ q x d.
                            Runs-map (const_sizeof-Runs (view p) q (omega arith) x) (omega arith)
                              (λ a w y. y)))
                          (λ _. failed)))))

    const_signed-Reads :
        (f : ℕ → ℕ) (k : TokenType) (p : Parser)
        → size p ≤ n
        → Sign k f
        → Stands k
        → is k p ≡ true
        → Evaluates p (const_signed f b.const_unary p)
    unfolding const_signed
    const_signed-Reads f k p h i s e = >>=-advance k p s e (λ q x d.
        >>=-Runs (sound.const_unary q (omega arith))
          (λ r y le. returned (sign_of i x y) (omega arith)))

    pub eval_const_unary-Parses : Parses (Value 2) (suc n) (eval_const_unary b)
    unfolding eval_const_unary
    eval_const_unary-Parses p h =
        Runs-if (is TokenType.minus p) (λ e. const_signed-Reads _ _ p (omega arith) negative refl e)
          (λ _.
            Runs-if (is TokenType.plus p)
              (λ e. const_signed-Reads _ _ p (omega arith) positive refl e)
              (λ _.
                Runs-if (is TokenType.tilde p)
                  (λ e. const_signed-Reads _ _ p (omega arith) complement refl e)
                  (λ _.
                    Runs-if (is TokenType.bang p)
                      (λ e. const_signed-Reads _ _ p (omega arith) negation refl e)
                      (λ _. eval_const_primary-Parses p h))))

    multiplicative-Parses : Parses (Value 4) (suc n) (eval_const_multiplicative b)
    unfolding eval_const_multiplicative
    multiplicative-Parses =
        const_level-Parses 3 (suc n) term_ops multiplicative multiplicative-Operators
          (eval_const_unary b)
          (λ p h. Runs-map (eval_const_unary-Parses p h) (omega arith) (λ a w y. lift_value y))

    additive-Parses : Parses (Value 5) (suc n) (eval_const_additive b)
    unfolding eval_const_additive
    additive-Parses =
        const_level-Parses 4 (suc n) additive_ops additive additive-Operators
          (eval_const_multiplicative b) multiplicative-Parses

    shift-Parses : Parses (Value 6) (suc n) (eval_const_shift b)
    unfolding eval_const_shift
    shift-Parses =
        const_level-Parses 5 (suc n) shift_ops shifted shifted-Operators (eval_const_additive b)
          additive-Parses

    relational-Parses : Parses (Value 7) (suc n) (eval_const_relational b)
    unfolding eval_const_relational
    relational-Parses =
        const_level-Parses 6 (suc n) relational_ops relational relational-Operators
          (eval_const_shift b) shift-Parses

    equality-Parses : Parses (Value 8) (suc n) (eval_const_equality b)
    unfolding eval_const_equality
    equality-Parses =
        const_level-Parses 7 (suc n) equality_ops equality equality-Operators
          (eval_const_relational b) relational-Parses

    bitwise_and-Parses : Parses (Value 9) (suc n) (eval_const_bitwise_and b)
    unfolding eval_const_bitwise_and operation
    bitwise_and-Parses =
        const_level-Parses 8 (suc n) _ _
          (single 8 TokenType.ampersand _ Infix.both_bits refl (λ a b. refl))
          (eval_const_equality b) equality-Parses

    bitwise_xor-Parses : Parses (Value 10) (suc n) (eval_const_bitwise_xor b)
    unfolding eval_const_bitwise_xor operation
    bitwise_xor-Parses =
        const_level-Parses 9 (suc n) _ _
          (single 9 TokenType.caret _ Infix.one_bit refl (λ a b. refl)) (eval_const_bitwise_and b)
          bitwise_and-Parses

    bitwise_or-Parses : Parses (Value 11) (suc n) (eval_const_bitwise_or b)
    unfolding eval_const_bitwise_or operation
    bitwise_or-Parses =
        const_level-Parses 10 (suc n) _ _
          (single 10 TokenType.pipe _ Infix.any_bit refl (λ a b. refl)) (eval_const_bitwise_xor b)
          bitwise_xor-Parses

    logical_and-Parses : Parses (Value 12) (suc n) (eval_const_logical_and b)
    unfolding eval_const_logical_and operation
    logical_and-Parses =
        const_level-Parses 11 (suc n) _ _
          (single 11 TokenType.and_and _ Infix.both refl (λ a b. refl)) (eval_const_bitwise_or b)
          bitwise_or-Parses

    logical_or-Parses : Parses (Value 13) (suc n) (eval_const_logical_or b)
    unfolding eval_const_logical_or operation
    logical_or-Parses =
        const_level-Parses 12 (suc n) _ _
          (single 12 TokenType.or_or _ Infix.either refl (λ a b. refl)) (eval_const_logical_and b)
          logical_and-Parses

    pub eval_const_expr-Parses : Parses (Value 14) (suc n) (eval_const_expr b)
    unfolding eval_const_expr eval_const_conditional const_branches
    eval_const_expr-Parses p h = >>=-Runs (logical_or-Parses p h) (λ c x le.
        Runs-if (is TokenType.question c.1)
          (λ e. >>=-advance TokenType.question c.1 refl e (λ q y d.
            >>=-Runs (const_expr q (omega arith)) (λ r z le'.
              >>=-expect TokenType.colon r.1 refl _ (λ q₂ y₂ d₂.
                >>=-Runs (const_expr q₂ (omega arith))
                  (λ s u le''. returned (choice_value x y z y₂ u) (omega arith))))))
          (λ _. returned (lift_value x) le))
