-- ===== src/Parser/Sound/Unary.antt =====
-- `parse_unary` and `parse_cast`, src/parser.c, read unary and cast expressions.
use claudec.Base.{ℕ, suc, ◌<◌, ◌≤◌, true, List, ◌≡◌, refl, arith}
use claudec.CType.{TypeKind, CType, kind_eq}
use claudec.Ast.{NodeType, Ast}
use claudec.Lexer.{TokenType}
use claudec.Parser.{Parser, Parsed, is, is_one_of, restore, size}
use claudec.Parser.TypeNames.{type_starts, begins_type}
use claudec.Parser.Types.{type_kind}
use claudec.Parser.Nodes.{is_addressable-Addressable}
use claudec.Parser.Names.{names_of}
use claudec.Parser.Calls.{Calls}
use claudec.Parser.Postfix.{node_type}
use claudec.Parser.Unary.{
  is_open_array, sizeof_type, sizeof_in_parens, sizeof_operand, is_addressable, named_unary,
  inc_dec, signs, parse_unary, cast_or_literal, parse_cast,
}
use claudec.Parser.Runs.{
  View, view, Next, Runs, returned, failed, Reads, Parses, >>=-Runs, Runs-map, Runs-if, >>=-advance,
  >>=-expect, one_of, Stands, Next-names, restored-Runs,
}
use claudec.Parser.Symbols.{Prefix, increment, decrement, positive, negative, negation, complement}
use claudec.Parser.Grammar.{
  Derives, TypeName, level, parens, lift, compound, size_of, size_of_type, prefix_of, address,
  dereference, cast_to,
}
use claudec.Parser.Sound.{Sounds}
use claudec.Parser.Sound.Postfix.{literal-Runs, parse_postfix-Parses}

module _ (n : ℕ) (b : Calls) (sound : Sounds n b) where
  abbrev Unary : View → Parser → Parsed (Ast × Parser) → Type 0
  Unary v p o = Runs (λ a w. Derives (level 2) v w a) (size p) o

  sizeof_type-Runs :
      (v v₁ v₂ : View) (t : CType) (p : Parser)
      → Next TokenType.sizeof v v₁
      → Next TokenType.lparen v₁ v₂
      → TypeName v₂ (view p) t
      → Unary v p (sizeof_type t p)
  unfolding sizeof_type
  sizeof_type-Runs v v₁ v₂ t p x₁ x₂ y =
      Runs-if (kind_eq (type_kind t) TypeKind.void) (λ _. failed)
        (λ _.
          Runs-if (is_open_array t) (λ _. failed)
            (λ i.
              >>=-expect TokenType.rparen p refl _
                (λ q x₃ d. returned (size_of_type q x₁ x₂ y i x₃) (omega arith))))

  sizeof_in_parens-Runs :
      (v v₁ : View) (p : Parser)
      → size p < n
      → Next TokenType.sizeof v v₁
      → Next TokenType.lparen v₁ (view p)
      → Unary v p (sizeof_in_parens b p)
  unfolding sizeof_in_parens
  sizeof_in_parens-Runs v v₁ p h x₁ x₂ =
      Runs-if (begins_type type_starts p)
        (λ _.
          >>=-Runs (sound.types p h)
            (λ r y le. Runs-map (sizeof_type-Runs v v₁ (view p) r.0 r.1 x₁ x₂ y) le (λ a w z. z)))
        (λ _.
          Runs-if (is TokenType.rparen p) (λ _. failed)
            (λ _. >>=-Runs (sound.expression p h) (λ r y le.
              >>=-expect TokenType.rparen r.1 refl _
                (λ q x₃ d. returned (size_of q x₁ (lift (lift (parens x₂ y x₃)))) (omega arith)))))

  sizeof_operand-Runs :
      (v : View) (p : Parser)
      → size p < n
      → Next TokenType.sizeof v (view p)
      → Unary v p (sizeof_operand b p)
  unfolding sizeof_operand
  sizeof_operand-Runs v p h x =
      Runs-if (is TokenType.lparen p)
        (λ e. >>=-advance TokenType.lparen p refl e (λ q y d.
          Runs-map (sizeof_in_parens-Runs v (view p) q (omega arith) x y) (omega arith)
            (λ a w z. z)))
        (λ _. >>=-Runs (sound.unary p h) (λ r y le. returned (size_of r.1 x y) le))

  named_unary-Runs :
      (t : NodeType) (ks : List TokenType) (p : Parser)
      → size p ≤ n
      → ((k : TokenType) × (Prefix k t × Stands k) × (is k p ≡ true))
      → Unary (view p) p (named_unary t b.unary p)
  unfolding named_unary
  named_unary-Runs t ks p h (k, (i, s), e) = >>=-advance k p s e (λ q x d.
      >>=-Runs (sound.unary q (omega arith))
        (λ r y le. returned (prefix_of r.1 i x y) (omega arith)))

  pub parse_unary-Parses : Parses (Derives (level 2)) (suc n) (parse_unary b)
  unfolding parse_unary
  parse_unary-Parses p h =
      Runs-if (is TokenType.sizeof p)
        (λ e. >>=-advance TokenType.sizeof p refl e (λ q x d.
          Runs-map (sizeof_operand-Runs (view p) q (omega arith) x) (omega arith) (λ a w y. y)))
        (λ _.
          Runs-if (is_one_of inc_dec p)
            (λ e.
              named_unary-Runs NodeType.prefix_inc_dec inc_dec p (omega arith)
                (one_of inc_dec p ((increment, refl), ((decrement, refl), tt)) e))
            (λ _.
              Runs-if (is TokenType.ampersand p)
                (λ e. >>=-advance TokenType.ampersand p refl e (λ q x d.
                  >>=-Runs (sound.unary q (omega arith)) (λ r y le.
                    Runs-if (is_addressable (node_type r.0))
                      (λ i.
                        returned (address r.1 x y (is_addressable-Addressable (node_type r.0) i))
                          (omega arith))
                      (λ _. failed))))
                (λ _.
                  Runs-if (is TokenType.star p)
                    (λ e. >>=-advance TokenType.star p refl e (λ q x d.
                      >>=-Runs (sound.unary q (omega arith))
                        (λ r y le. returned (dereference r.1 x y) (omega arith))))
                    (λ _.
                      Runs-if (is_one_of signs p)
                        (λ e. named_unary-Runs NodeType.unary_op signs p (omega arith) (
                          one_of signs p
                            (
                              (positive, refl),
                              ((negative, refl), ((negation, refl), ((complement, refl), tt))),
                            )
                            e))
                        (λ _.
                          Runs-map (parse_postfix-Parses n b sound p h) (omega arith)
                            (λ a w y. lift y))))))

  cast_or_literal-Runs :
      (v v₁ v₂ : View) (t : CType) (p : Parser)
      → size p < n
      → Next TokenType.lparen v v₁
      → TypeName v₁ v₂ t
      → Next TokenType.rparen v₂ (view p)
      → Runs (λ a w. Derives (level 3) v w a) (size p) (cast_or_literal b t p)
  unfolding cast_or_literal
  cast_or_literal-Runs v v₁ v₂ t p h x₁ y x₂ =
      Runs-if (is TokenType.lbrace p)
        (λ e.
          Runs-map (literal-Runs n b sound t v p h e (λ a w z. compound x₁ y x₂ z)) (omega arith)
            (λ a w z. lift (lift z)))
        (λ _.
          Runs-if (is_open_array t) (λ _. failed)
            (λ i. >>=-Runs (sound.cast p h) (λ r z le. returned (cast_to r.1 x₁ y x₂ i z) le)))

  lifted : (p : Parser) → size p ≤ n → Reads (Derives (level 3)) p (parse_unary b p)
  lifted p h = Runs-map (parse_unary-Parses p (omega arith)) (omega arith) (λ a w y. lift y)

  restored :
      (p q : Parser)
      → size p ≤ n
      → names_of q ≡ names_of p
      → Reads (Derives (level 3)) p (parse_unary b (restore p q))
  unfolding restore size
  restored p q h e = restored-Runs (Derives (level 3)) p q e (lifted (restore p q) h)

  pub parse_cast-Parses : Parses (Derives (level 3)) (suc n) (parse_cast b)
  unfolding parse_cast
  parse_cast-Parses p h =
      Runs-if (is TokenType.lparen p)
        (λ e. >>=-advance TokenType.lparen p refl e (λ q x d.
          Runs-if (begins_type type_starts q)
            (λ _. >>=-Runs (sound.types q (omega arith)) (λ r y le.
              >>=-expect TokenType.rparen r.1 refl _ (λ q₂ x₂ d₂.
                Runs-map
                  (cast_or_literal-Runs (view p) (view q) (view r.1) r.0 q₂ (omega arith) x y x₂)
                  (omega arith) (λ a w z. z))))
            (λ _. restored p q (omega arith) (Next-names x))))
        (λ _. lifted p (omega arith))
