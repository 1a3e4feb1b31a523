-- ===== src/Parser/Sound/Postfix.antt =====
-- `parse_postfix`, src/parser.c, reads postfix expressions.
use claudec.Base.{
  ℕ, zero, suc, ◌<◌, ◌≤◌, true, false, none, ◌≡◌, refl, subst, Bytes, arith, inl, inr, Bool-cases,
  length,
}
use claudec.CType.{CType}
use claudec.Ast.{NodeType, Ast}
use claudec.Lexer.{TokenType, Token}
use claudec.Parser.{Parser, Parsed, ◌>>=◌, is, is_one_of, restore, size}
use claudec.Parser.TypeNames.{type_starts, begins_type}
use claudec.Parser.Names.{Names, names_of}
use claudec.Parser.Calls.{Calls, with_child}
use claudec.Parser.Initializer.{build_compound_literal}
use claudec.Parser.Postfix.{
  node_type, is_subscript_base, call_suffix, index_suffix, field_suffix, inc_dec_suffix, suffix,
  suffix_starts, suffixes, parse_postfix_suffixes, primary_postfix, parse_postfix,
}
use claudec.Parser.Runs.{
  View, view, Runs, returned, failed, Parses, >>=-Runs, Runs-map, Runs-if, >>=-advance, >>=-expect,
  one_of, Stands, size_before, Next-names,
}
use claudec.Parser.Symbols.{Prefix, increment, decrement, Access, member, arrow}
use claudec.Parser.Grammar.{
  Derives, level, literal, indirect_call, index, field, postfix_of, compound, looked_behind,
}
use claudec.Parser.Sound.{Sounds}
use claudec.Parser.Sound.Primary.{call_arguments-Runs, parse_primary-Parses}
use claudec.Parser.Sound.Initializer.{build_compound_literal-Reads}

-- What is left of the tokens that begin a suffix.
inc_or_dec :
    (p : Parser)
    → is_one_of suffix_starts p ≡ true
    → is TokenType.lparen p ≡ false
    → is TokenType.lbracket p ≡ false
    → is TokenType.dot p ≡ false
    → is TokenType.arrow p ≡ false
    → (k : TokenType) × Prefix k NodeType.prefix_inc_dec × Stands k × (is k p ≡ true)
inc_or_dec p h e₁ e₂ e₃ e₄ = elim (Bool-cases (is TokenType.increment p)) [
  | inl e ↦ (TokenType.increment, increment, refl, e)
  | inr f ↦ elim (Bool-cases (is TokenType.decrement p)) [
    | inl e ↦ (TokenType.decrement, decrement, refl, e)
    | inr g ↦ absurd (cc (rw (f, g, e₁, e₂, e₃, e₄) at h))
  ]
]

module _ (n : ℕ) (b : Calls) (sound : Sounds n b) where
  -- An expression that began at a view, with what stands behind it.
  abbrev From : View → Parser → Parsed (Ast × Parser) → Type 0
  From v p o = Runs (λ a w. Derives (level 1) v w a) (size p) o

  -- A round passes a token.
  abbrev Shorter : View → Parser → Parsed (Ast × Parser) → Type 0
  Shorter v p o = (m : ℕ) → size p ≡ suc m → Runs (λ a w. Derives (level 1) v w a) m o

  call_suffix-Runs :
      (v : View) (a : Ast) (p : Parser)
      → size p ≤ n
      → Derives (level 1) v (view p) a
      → is TokenType.lparen p ≡ true
      → Shorter v p (call_suffix b a p)
  unfolding call_suffix
  call_suffix-Runs v a p h x e m s = >>=-advance TokenType.lparen p refl e (λ q y d.
      Runs-map
        (call_arguments-Runs n b sound (with_child q NodeType.indirect_call none a) q (omega arith))
        (omega arith) (λ c w (u, z, y'). indirect_call q x y z y'))

  index_suffix-Runs :
      (v : View) (a : Ast) (p : Parser)
      → size p ≤ n
      → Derives (level 1) v (view p) a
      → is TokenType.lbracket p ≡ true
      → Shorter v p (index_suffix b a p)
  unfolding index_suffix
  index_suffix-Runs v a p h x e m s =
      Runs-if (is_subscript_base (node_type a))
        (λ i. >>=-advance TokenType.lbracket p refl e (λ q y d.
          >>=-Runs (sound.expression q (omega arith)) (λ r z le.
            >>=-expect TokenType.rbracket r.1 refl _
              (λ q₃ y₃ d₃. returned (index q₃ x i y z y₃) (omega arith)))))
        (λ _. failed)

  field_suffix-Runs :
      (v : View) (a : Ast) (p : Parser) (k : TokenType) (t : NodeType)
      → Access k t
      → Stands k
      → Derives (level 1) v (view p) a
      → is k p ≡ true
      → Shorter v p (field_suffix t a p)
  unfolding field_suffix
  field_suffix-Runs v a p k t i j x e m s = >>=-advance k p j e (λ q y d.
      >>=-expect TokenType.identifier q refl _
        (λ q₂ y₂ d₂. returned (field q₂ i x y y₂) (omega arith)))

  inc_dec_suffix-Runs :
      (v : View) (a : Ast) (p : Parser) (k : TokenType)
      → Prefix k NodeType.prefix_inc_dec
      → Stands k
      → Derives (level 1) v (view p) a
      → is k p ≡ true
      → Shorter v p (inc_dec_suffix a p)
  unfolding inc_dec_suffix
  inc_dec_suffix-Runs v a p k i j x e m s =
      >>=-advance k p j e (λ q y d. returned (postfix_of q i x y) (omega arith))

  suffix-Runs :
      (v : View) (a : Ast) (p : Parser)
      → size p ≤ n
      → Derives (level 1) v (view p) a
      → is_one_of suffix_starts p ≡ true
      → Shorter v p (suffix b a p)
  unfolding suffix
  suffix-Runs v a p h x e m s =
      Runs-if (is TokenType.lparen p) (λ i. call_suffix-Runs v a p h x i m s)
        (λ f₁.
          Runs-if (is TokenType.lbracket p) (λ i. index_suffix-Runs v a p h x i m s)
            (λ f₂.
              Runs-if (is TokenType.dot p) (λ i. field_suffix-Runs v a p _ _ member refl x i m s)
                (λ f₃.
                  Runs-if (is TokenType.arrow p)
                    (λ i. field_suffix-Runs v a p _ _ arrow refl x i m s)
                    (λ f₄.
                      let (k, i, j, t) = inc_or_dec p e f₁ f₂ f₃ f₄ in
                      inc_dec_suffix-Runs v a p k i j x t m s))))

  suffixes-Runs :
      (fuel : ℕ) (v : View) (a : Ast) (p : Parser)
      → size p < fuel
      → size p ≤ n
      → Derives (level 1) v (view p) a
      → From v p (suffixes fuel b a p)
  unfolding suffixes
  suffixes-Runs zero v a p f h x = absurd (omega arith)
  suffixes-Runs (suc fuel) v a p f h x =
      Runs-if (is_one_of suffix_starts p)
        (λ e.
          let (k, s, i) =
            one_of {P = Stands} suffix_starts p (refl, (refl, (refl, (refl, (refl, (refl, tt))))))
              e in
          let whole = size_before k p s i in
          >>=-Runs (suffix-Runs v a p h x e (length p.lexer.rest) whole) (λ r y le.
            Runs-map (suffixes-Runs fuel v r.0 r.1 (omega arith) (omega arith) y) (omega arith)
              (λ c w z. z)))
        (λ _. returned x (omega arith))

  pub parse_postfix_suffixes-Runs :
      (v : View) (a : Ast) (p : Parser)
      → size p ≤ n
      → Derives (level 1) v (view p) a
      → From v p (parse_postfix_suffixes b a p)
  unfolding parse_postfix_suffixes
  parse_postfix_suffixes-Runs v a p h x = suffixes-Runs (suc (size p)) v a p (omega arith) h x

  primary_postfix-Parses : Parses (Derives (level 1)) (suc n) (primary_postfix b)
  unfolding primary_postfix
  primary_postfix-Parses p h = >>=-Runs (parse_primary-Parses n b sound p h) (λ r x le.
      Runs-map (parse_postfix_suffixes-Runs (view p) r.0 r.1 (omega arith) x) le (λ a w y. y))

  again :
      {t : Token} {bs : Bytes} {ns ms : Names} {w : View} {a : Ast}
      → ns ≡ ms
      → Derives (level 1) (t, (bs, ns)) w a
      → Derives (level 1) (t, (bs, ms)) w a
  again {t} {bs} {ns} {ms} {w} {a} e x = subst (λ ns. Derives (level 1) (t, (bs, ns)) w a) e x

  -- From where the text was left for a lookahead.
  restored :
      (p q : Parser)
      → size p ≤ n
      → ((a : Ast) (w : View)
          → Derives (level 1) (p.current, (p.lexer.rest, names_of q)) w a
          → Derives (level 1) (view p) w a)
      → From (view p) p (primary_postfix b (restore p q))
  unfolding restore size
  restored p q h c =
      Runs-map (primary_postfix-Parses (restore p q) (omega arith)) (omega arith) (λ a w y. c a w y)

  -- A compound literal with the suffixes behind it.
  pub literal-Runs :
      (t : CType) (v : View) (p : Parser)
      → size p < n
      → is TokenType.lbrace p ≡ true
      → ((a : Ast) (w : View) → Derives (literal t) (view p) w a → Derives (level 1) v w a)
      → From v p (build_compound_literal b t p >>= λ (l, p'). parse_postfix_suffixes b l p')
  literal-Runs t v p h e whole =
      >>=-Runs (build_compound_literal-Reads n b sound t p h e) (λ r x le.
        Runs-map (parse_postfix_suffixes-Runs v r.0 r.1 (omega arith) (whole r.0 (view r.1) x)) le
          (λ a w y. y))

  pub parse_postfix-Parses : Parses (Derives (level 1)) (suc n) (parse_postfix b)
  unfolding parse_postfix
  parse_postfix-Parses p h =
      Runs-if (is TokenType.lparen p)
        (λ e. >>=-advance TokenType.lparen p refl e (λ q x d.
          Runs-if (begins_type type_starts q)
            (λ _. >>=-Runs (sound.types q (omega arith)) (λ r y le.
              Runs-if (is TokenType.rparen r.1)
                (λ i. >>=-advance TokenType.rparen r.1 refl i (λ q₂ x₂ d₂.
                  Runs-if (is TokenType.lbrace q₂)
                    (λ j.
                      Runs-map
                        (literal-Runs r.0 (view p) q₂ (omega arith) j (λ a w z. compound x y x₂ z))
                        (omega arith) (λ a w z. z))
                    (λ _.
                      restored p q₂ (omega arith)
                        (λ a w z. looked_behind x y (again (Next-names x₂) z)))))
                (λ _. restored p r.1 (omega arith) (λ a w z. looked_behind x y z))))
            (λ _. restored p q (omega arith) (λ a w z. again (Next-names x) z))))
        (λ _. primary_postfix-Parses p h)
