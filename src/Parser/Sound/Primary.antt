-- ===== src/Parser/Sound/Primary.antt =====
-- `parse_primary`, src/parser.c, reads primary expressions.
use claudec.Base.{
  ℕ, zero, suc, ◌<◌, ◌≤◌, true, ◌||◌, Option, none, some, Bytes, codes, str_eq, str_eq_iff, ◌≡◌,
  refl, subst, ◌∙◌, arith, inl, inr, Bool-cases,
}
use claudec.Ast.{NodeType, Ast, ast_add_child}
use claudec.Lexer.{TokenType}
use claudec.Parser.{EnumConst, FuncSig, Parser, Parsed, ◌>>=◌, is, parser_node, store, size}
use claudec.Parser.Tables.{parser_find_function}
use claudec.Parser.Calls.{Calls, with_child, more_arguments, some_arguments, call_arguments}
use claudec.Parser.Primary.{
  va_start, va_end, va_copy, va_arg, checked_call, call_of, name_primary, enum_or_name,
  identifier_primary, paren_primary, parse_primary, second_argument, accepts, arguments_of,
}
use claudec.Parser.Runs.{
  View, view, Next, Runs, returned, failed, Reads, Parses, >>=-Runs, Runs-map, Runs-if, >>=-advance,
  >>=-expect, Next-names,
}
use claudec.Parser.Grammar.{
  Derives, level, arguments as arguments_phrase, more_arguments as more_phrase,
  va_start as va_start_phrase, va_end as va_end_phrase, va_copy as va_copy_phrase,
  va_arg as va_arg_phrase, constant, variable, call, parens, indirect_call, lift, no_arguments,
  some_arguments as some_phrase, last_argument, next_argument,
}
use claudec.Parser.Nodes.{accepts-Accepts}
use claudec.Parser.Names.{
  Absent, FirstConst, NoConst, FirstFunction, Finds, found, missing, find_enum_const-Finds,
  find_function-Finds,
}
use claudec.Parser.Sound.{Sounds}
use claudec.Parser.Sound.Literals.{
  Primary, string_primary-Reads, int_primary-Reads, float_primary-Reads, char_primary-Reads,
  func_name-Reads,
}

-- The comma of `__builtin_va_start`.
>>=-second :
    {B : Type 0} {Q : B → View → Type 0} {m : ℕ} {f : Parser → Parsed (B × Parser)} (p : Parser)
    → ((q : Parser) → Next TokenType.comma (view p) (view q) → size q < size p → Runs Q m (f q))
    → Runs Q m (second_argument p >>= f)
>>=-second p c = elim (Bool-cases (is TokenType.comma p)) [
  | inl e ↦ rw e (>>=-advance TokenType.comma p refl e c)
  | inr e ↦ rw e failed
]

module _ (n : ℕ) (b : Calls) (sound : Sounds n b) where
  -- A parser of arguments from the text that is left.
  more_arguments-Runs :
      (fuel : ℕ) (c : Ast) (p : Parser)
      → size p < fuel
      → size p < n
      → Runs
          (λ a w. Derives (more_phrase c) (view p) w a)
          (size p)
          (more_arguments fuel b.assignment c p)
  unfolding more_arguments
  more_arguments-Runs zero c p f h = absurd (omega arith)
  more_arguments-Runs (suc fuel) c p f h =
      Runs-if (is TokenType.comma p)
        (λ e. >>=-advance TokenType.comma p refl e (λ q x d.
          >>=-Runs (sound.assignment q (omega arith)) (λ r y le.
            Runs-map
              (more_arguments-Runs fuel (ast_add_child c r.0) r.1 (omega arith) (omega arith))
              (omega arith) (λ a w z. next_argument x y z))))
        (λ _. returned last_argument (omega arith))

  some_arguments-Runs :
      (c : Ast) (p : Parser)
      → size p < n
      → Runs
          (λ a w. Derives (arguments_phrase c) (view p) w a)
          (size p)
          (some_arguments b.assignment c p)
  some_arguments-Runs c p h =
      Runs-if (is TokenType.rparen p) (λ _. returned no_arguments (omega arith))
        (λ _. >>=-Runs (sound.assignment p h) (λ r y le.
          Runs-map
            (more_arguments-Runs (suc (size r.1)) (ast_add_child c r.0) r.1 (omega arith)
              (omega arith))
            le (λ a w z. some_phrase y z)))

  -- The arguments with the parenthesis behind them.
  pub call_arguments-Runs :
      (c : Ast) (p : Parser)
      → size p < n
      → Runs
          (λ a w.
            (v : View) × Derives (arguments_phrase c) (view p) v a × Next TokenType.rparen v w)
          (size p)
          (call_arguments b.assignment c p)
  unfolding call_arguments
  call_arguments-Runs c p h = >>=-Runs (some_arguments-Runs c p h) (λ r y le.
      >>=-expect TokenType.rparen r.1 refl _ (λ q x d. returned (view r.1, y, x) (omega arith)))

  va_start-Reads :
      (p : Parser)
      → size p ≤ n
      → is TokenType.identifier p ≡ true
      → p.current.value ≡ codes "__builtin_va_start"
      → Primary p (va_start b p)
  unfolding va_start
  va_start-Reads p h e t = >>=-advance TokenType.identifier p refl e (λ q₁ x₁ d₁.
      >>=-expect TokenType.lparen q₁ refl _ (λ q₂ x₂ d₂.
        Runs-if q₂.current_func_is_variadic
          (λ _. >>=-Runs (sound.assignment q₂ (omega arith)) (λ r y le. >>=-second r.1 (λ q₃ x₃ d₃.
            >>=-Runs (sound.assignment q₃ (omega arith)) (λ s z le'.
              >>=-expect TokenType.rparen s.1 refl _
                (λ q₄ x₄ d₄. returned (va_start_phrase q₂ t x₁ x₂ y x₃ z x₄) (omega arith))))))
          (λ _. failed)))

  va_end-Reads :
      (p : Parser)
      → size p ≤ n
      → is TokenType.identifier p ≡ true
      → p.current.value ≡ codes "__builtin_va_end"
      → Primary p (va_end b p)
  unfolding va_end
  va_end-Reads p h e t = >>=-advance TokenType.identifier p refl e (λ q₁ x₁ d₁.
      >>=-expect TokenType.lparen q₁ refl _ (λ q₂ x₂ d₂.
        >>=-Runs (sound.assignment q₂ (omega arith)) (λ r y le.
          >>=-expect TokenType.rparen r.1 refl _
            (λ q₃ x₃ d₃. returned (va_end_phrase q₂ t x₁ x₂ y x₃) (omega arith)))))

  va_copy-Reads :
      (p : Parser)
      → size p ≤ n
      → is TokenType.identifier p ≡ true
      → p.current.value ≡ codes "__builtin_va_copy"
      → Primary p (va_copy b p)
  unfolding va_copy
  va_copy-Reads p h e t = >>=-advance TokenType.identifier p refl e (λ q₁ x₁ d₁.
      >>=-expect TokenType.lparen q₁ refl _ (λ q₂ x₂ d₂.
        >>=-Runs (sound.assignment q₂ (omega arith)) (λ r y le.
          >>=-expect TokenType.comma r.1 refl _ (λ q₃ x₃ d₃.
            >>=-Runs (sound.assignment q₃ (omega arith)) (λ s z le'.
              >>=-expect TokenType.rparen s.1 refl _
                (λ q₄ x₄ d₄. returned (va_copy_phrase q₂ t x₁ x₂ y x₃ z x₄) (omega arith)))))))

  va_arg-Reads :
      (p : Parser)
      → size p ≤ n
      → is TokenType.identifier p ≡ true
      → p.current.value ≡ codes "__builtin_va_arg"
      → Primary p (va_arg b p)
  unfolding va_arg
  va_arg-Reads p h e t = >>=-advance TokenType.identifier p refl e (λ q₁ x₁ d₁.
      >>=-expect TokenType.lparen q₁ refl _ (λ q₂ x₂ d₂.
        >>=-Runs (sound.assignment q₂ (omega arith)) (λ r y le.
          >>=-expect TokenType.comma r.1 refl _ (λ q₃ x₃ d₃.
            >>=-Runs (sound.types q₃ (omega arith)) (λ s z le'.
              >>=-expect TokenType.rparen s.1 refl _
                (λ q₄ x₄ d₄. returned (va_arg_phrase q₂ t x₁ x₂ y x₃ z x₄) (omega arith)))))))

  abbrev Level1 : Parser → Parsed (Ast × Parser) → Type 0
  Level1 p o = Reads (Derives (level 1)) p o

  lifted : (p : Parser) (o : Parsed (Ast × Parser)) → Primary p o → Level1 p o
  lifted p o x = Runs-map x (omega arith) (λ a w y. lift y)

  first_before :
      (p q₁ q₂ : Parser) {s : FuncSig} {name : Bytes}
      → Next TokenType.identifier (view p) (view q₁)
      → Next TokenType.lparen (view q₁) (view q₂)
      → FirstFunction name s q₂.funcs
      → FirstFunction name s p.funcs
  first_before p q₁ q₂ {s} {name} x₁ x₂ f =
      subst (λ ns. FirstFunction name s ns.funcs) (Next-names x₂ ∙ Next-names x₁) f

  call_of-Reads :
      (p q₁ q₂ : Parser)
      → size q₂ < n
      → size q₂ < size p
      → Next TokenType.identifier (view p) (view q₁)
      → Next TokenType.lparen (view q₁) (view q₂)
      → NoConst p.current.value p.enum_consts
      → {o : Option FuncSig}
      → Finds
          (λ s. FirstFunction p.current.value s q₂.funcs)
          (Absent (λ s. s.name) p.current.value q₂.funcs)
          o
      → Level1 p (call_of b.assignment p.current.value o q₂)
  unfolding checked_call
  call_of-Reads p q₁ q₂ h d x₁ x₂ absent (found {a = s} f) =
      let callee = parser_node q₂ NodeType.function_call (some p.current.value) in
      >>=-Runs (call_arguments-Runs callee q₂ h) (λ r (v, y, x₃) le.
        Runs-if (accepts s (arguments_of r.0))
          (λ ok.
            returned
              (lift (
                call q₂ s (first_before p q₁ q₂ x₁ x₂ f) x₁ x₂ y x₃
                  (accepts-Accepts s (arguments_of r.0) ok)))
              (omega arith))
          (λ _. failed))
  call_of-Reads p q₁ q₂ h d x₁ x₂ absent (missing f) =
      let callee = parser_node q₂ NodeType.var_ref (some p.current.value) in
      Runs-map (call_arguments-Runs (with_child q₂ NodeType.indirect_call none callee) q₂ h)
        (omega arith) (λ a w (v, y, x₃). indirect_call q₂ (lift (variable q₂ absent x₁)) x₂ y x₃)

  name_primary-Reads :
      (p : Parser)
      → size p ≤ n
      → NoConst p.current.value p.enum_consts
      → Level1 p (name_primary b.assignment p)
  unfolding name_primary parser_find_function
  name_primary-Reads p h absent = >>=-expect TokenType.identifier p refl _ (λ q₁ x₁ d₁.
      Runs-if (is TokenType.lparen q₁)
        (λ _. >>=-expect TokenType.lparen q₁ refl _ (λ q₂ x₂ d₂.
          call_of-Reads p q₁ q₂ (omega arith) (omega arith) x₁ x₂ absent
            (find_function-Finds q₂.funcs p.current.value)))
        (λ _. returned (lift (variable q₁ absent x₁)) (omega arith)))

  enum_or_name-Reads :
      (p : Parser)
      → size p ≤ n
      → is TokenType.identifier p ≡ true
      → {o : Option EnumConst}
      → Finds
          (λ c. FirstConst p.current.value c p.enum_consts)
          (NoConst p.current.value p.enum_consts)
          o
      → Level1 p (enum_or_name b.assignment o p)
  unfolding store size
  enum_or_name-Reads p h e (missing f) = name_primary-Reads p h f
  enum_or_name-Reads p h e (found {a = c} f) =
      >>=-advance TokenType.identifier p refl e
        (λ q x d. returned (lift (constant q c f x)) (omega arith))

  identifier_primary-Reads :
      (p : Parser)
      → size p ≤ n
      → is TokenType.identifier p ≡ true
      → Level1 p (identifier_primary b p)
  unfolding identifier_primary
  identifier_primary-Reads p h e =
      let name = p.current.value in
      let same = λ (s : Bytes) (t : str_eq name s ≡ true). (str_eq_iff name s).0 t in
      Runs-if (str_eq name (codes "__func__"))
        (λ t. lifted p _ (func_name-Reads p.current_func_name p refl e (same _ t)))
        (λ _.
          Runs-if (str_eq name (codes "__builtin_va_start"))
            (λ t. lifted p _ (va_start-Reads p h e (same _ t)))
            (λ _.
              Runs-if (str_eq name (codes "__builtin_va_end"))
                (λ t. lifted p _ (va_end-Reads p h e (same _ t)))
                (λ _.
                  Runs-if (str_eq name (codes "__builtin_va_copy"))
                    (λ t. lifted p _ (va_copy-Reads p h e (same _ t)))
                    (λ _.
                      Runs-if (str_eq name (codes "__builtin_va_arg"))
                        (λ t. lifted p _ (va_arg-Reads p h e (same _ t)))
                        (λ _.
                          enum_or_name-Reads p h e (find_enum_const-Finds p.enum_consts name))))))

  paren_primary-Reads : (p : Parser) → size p ≤ n → Primary p (paren_primary b.expression p)
  unfolding paren_primary
  paren_primary-Reads p h = >>=-expect TokenType.lparen p refl _ (λ q₁ x₁ d₁.
      >>=-Runs (sound.expression q₁ (omega arith)) (λ r y le.
        >>=-expect TokenType.rparen r.1 refl _
          (λ q₂ x₂ d₂. returned (parens x₁ y x₂) (omega arith))))

  -- A call of a name that is no function is a postfix expression.
  pub parse_primary-Parses : Parses (Derives (level 1)) (suc n) (parse_primary b)
  unfolding parse_primary
  parse_primary-Parses p s =
      let h : size p ≤ n = omega arith in
      Runs-if (is TokenType.int_literal p) (λ _. lifted p _ (int_primary-Reads p))
        (λ _.
          Runs-if (is TokenType.float_literal p || is TokenType.double_literal p)
            (λ e. lifted p _ (float_primary-Reads p _ refl e))
            (λ _.
              Runs-if (is TokenType.string_literal p) (λ e. lifted p _ (string_primary-Reads p e))
                (λ _.
                  Runs-if (is TokenType.char_literal p) (λ e. lifted p _ (char_primary-Reads p e))
                    (λ _.
                      Runs-if (is TokenType.identifier p) (λ e. identifier_primary-Reads p h e)
                        (λ _.
                          Runs-if (is TokenType.lparen p)
                            (λ _. lifted p _ (paren_primary-Reads p h)) (λ _. failed))))))
