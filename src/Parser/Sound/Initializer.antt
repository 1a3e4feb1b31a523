-- ===== src/Parser/Sound/Initializer.antt =====
-- `parse_initializer` and `build_compound_literal`, src/parser.c, read initializers and literals.
use claudec.Base.{
  ℕ, zero, suc, ◌<◌, ◌≤◌, ◌%◌, ◌^◌, ◌==◌, Bool, true, false, Option, none, some, [], ◌∷◌, Bytes,
  ◌≡◌, refl, arith, inl, inr, Bool-cases, if◌then◌else◌,
}
use claudec.CType.{TypeKind, CType}
use claudec.Ast.{NodeType, Ast, ast_add_child}
use claudec.Long.{is_negative}
use claudec.Lexer.{TokenType}
use claudec.Parser.{Parser, Parsed, done, ◌>>=◌, Parse, is, is_one_of, parser_node, store, size}
use claudec.Parser.Types.{info, type_kind}
use claudec.Parser.Tags.{skip_if}
use claudec.Parser.Calls.{Calls}
use claudec.Parser.Initializer.{
  designated, array_designator, parse_initializer_element, more_elements, braced_list,
  parse_initializer, literal_node, array_literal, is_plain_unsigned, scalar_full_type,
  braced_scalar, literal_by_kind, type_label, build_compound_literal,
}
use claudec.Parser.Runs.{
  View, view, Next, Runs, returned, failed, Reads, Parses, >>=-Runs, Runs-map, Runs-if, >>=-advance,
  >>=-expect, Stands,
}
use claudec.Parser.Symbols.{Optional, is_scalar, left_out, there, of_struct, of_union}
use claudec.Parser.Grammar.{
  Derives, level, initializer, element, elements, literal, designated as designated_phrase,
  plain_initializer, list_initializer, literal_list, empty_list, list_of, last_element, end_comma,
  next_element, plain_element, field_element, index_element, designator, struct_literal,
  array_literal as array_phrase, scalar_literal,
}
use claudec.Parser.Sound.{Sounds}

-- A token that is passed if it stands here.
pub >>=-skip_if :
    {B : Type 0} {Q : B → View → Type 0} {m : ℕ} (k : TokenType) (p : Parser)
    (f : Parser → Parsed (B × Parser))
    → Stands k
    → ((q : Parser) → size q ≤ size p → Optional k (view p) (view q) → Runs Q m (f q))
    → Runs Q m (skip_if k p >>= f)
>>=-skip_if k p f s c = elim (Bool-cases (is k p)) [
  | inl e ↦ rw e (>>=-advance k p s e (λ q x d. c q (omega arith) (there x)))
  | inr e ↦ rw e (c p (omega arith) left_out)
]

-- What is stored changes neither the view nor the size.
stored_or_not-Runs :
    {A : Type 0} {P : A → View → Type 0} {a : A} {m : ℕ} (s : Bytes) (q : Parser) (c : Bool)
    → P a (view q)
    → size q ≤ m
    → Runs P m (done (a, if c then store s q else q))
unfolding store size
stored_or_not-Runs s q true x le = returned x le
stored_or_not-Runs s q false x le = returned x le

module _ (n : ℕ) (b : Calls) (sound : Sounds n b) where
  designated-Reads :
      (name : Option Bytes) (i : ℕ) (p : Parser)
      → size p ≤ n
      → Reads (Derives (designated_phrase name i)) p (designated b.initializer name i p)
  unfolding designated
  designated-Reads name i p h =
      Runs-if (is_one_of (TokenType.dot ∷ TokenType.lbracket ∷ []) p) (λ _. failed)
        (λ _. >>=-expect TokenType.assign p refl _ (λ q x d.
          >>=-Runs (sound.initializer q (omega arith))
            (λ r y le. returned (designator q x y) (omega arith))))

  array_designator-Runs :
      (i : ℕ) (p : Parser)
      → size p ≤ n
      → Runs
          (λ a w.
            (v : View) × Next TokenType.rbracket (view p) v
            × Derives (designated_phrase none (i % 2 ^ 32)) v w a)
          (size p)
          (array_designator b.initializer i p)
  unfolding array_designator
  array_designator-Runs i p h =
      Runs-if (is_negative i) (λ _. failed)
        (λ _. >>=-expect TokenType.rbracket p refl _ (λ q x d.
          Runs-map (designated-Reads none (i % 2 ^ 32) q (omega arith)) (omega arith)
            (λ a w y. (view q, x, y))))

  parse_initializer_element-Parses : Parses (Derives element) n (parse_initializer_element b)
  unfolding parse_initializer_element
  parse_initializer_element-Parses p h =
      Runs-if (is TokenType.dot p)
        (λ e. >>=-advance TokenType.dot p refl e (λ q₁ x₁ d₁.
          >>=-expect TokenType.identifier q₁ refl _ (λ q₂ x₂ d₂.
            Runs-map (designated-Reads (some q₁.current.value) 0 q₂ (omega arith)) (omega arith)
              (λ a w y. field_element x₁ x₂ y))))
        (λ _.
          Runs-if (is TokenType.lbracket p)
            (λ e. >>=-advance TokenType.lbracket p refl e (λ q₁ x₁ d₁.
              >>=-Runs (sound.const_expr q₁ (omega arith)) (λ r y le.
                Runs-map (array_designator-Runs r.0 r.1 (omega arith)) (omega arith)
                  (λ a w (v, x₂, z). index_element r.0 x₁ y x₂ z))))
            (λ _. Runs-map (sound.initializer p h) (omega arith) (λ a w y. plain_element y)))

  more_elements-Runs :
      (fuel : ℕ) (l : Ast) (p : Parser)
      → size p < fuel
      → size p ≤ n
      → Runs
          (λ a w. Derives (elements l) (view p) w a)
          (size p)
          (more_elements fuel (parse_initializer_element b) l p)
  unfolding more_elements
  more_elements-Runs zero l p f h = absurd (omega arith)
  more_elements-Runs (suc fuel) l p f h =
      Runs-if (is TokenType.comma p)
        (λ e. >>=-advance TokenType.comma p refl e (λ q x d.
          Runs-if (is TokenType.rbrace q) (λ _. returned (end_comma x) (omega arith))
            (λ _. >>=-Runs (parse_initializer_element-Parses q (omega arith)) (λ r y le.
              Runs-map
                (more_elements-Runs fuel (ast_add_child l r.0) r.1 (omega arith) (omega arith))
                (omega arith) (λ a w z. next_element x y z)))))
        (λ _. returned last_element (omega arith))

  braced_list-Reads :
      (p q : Parser)
      → size p ≤ n
      → size q < size p
      → Next TokenType.lbrace (view p) (view q)
      → Reads (Derives literal_list) p (braced_list (parse_initializer_element b) q)
  unfolding braced_list
  braced_list-Reads p q h d x =
      Runs-if (is TokenType.rbrace q)
        (λ e.
          >>=-advance TokenType.rbrace q refl e
            (λ q₂ x₂ d₂. returned (empty_list q x x₂) (omega arith)))
        (λ _. >>=-Runs (parse_initializer_element-Parses q (omega arith)) (λ r y le.
          >>=-Runs
            (more_elements-Runs (suc (size r.1))
              (ast_add_child (parser_node q NodeType.initializer_list none) r.0) r.1 (omega arith)
              (omega arith))
            (λ s z le'.
              Runs-if (is TokenType.rbrace s.1)
                (λ e.
                  >>=-advance TokenType.rbrace s.1 refl e
                    (λ q₂ x₂ d₂. returned (list_of q x y z x₂) (omega arith)))
                (λ _. failed))))

  pub parse_initializer-Parses :
      (assignment : Parse Ast)
      → Parses (Derives (level 15)) (suc n) assignment
      → Parses (Derives initializer) (suc n) (parse_initializer b assignment)
  unfolding parse_initializer
  parse_initializer-Parses assignment reads p h =
      Runs-if (is TokenType.lbrace p)
        (λ e. >>=-advance TokenType.lbrace p refl e (λ q x d.
          Runs-map (braced_list-Reads p q (omega arith) d x) (omega arith)
            (λ a w y. list_initializer y)))
        (λ _. Runs-map (reads p h) (omega arith) (λ a w y. plain_initializer y))

  braced_scalar-Runs :
      (p : Parser)
      → size p < n
      → is TokenType.lbrace p ≡ true
      → Runs
          (λ a w.
            (v₁ v₂ v₃ : View) × Next TokenType.lbrace (view p) v₁
            × Derives (level 15) v₁ v₂ a
            × Optional TokenType.comma v₂ v₃
            × Next TokenType.rbrace v₃ w)
          (size p)
          (braced_scalar b p)
  unfolding braced_scalar
  braced_scalar-Runs p h e = >>=-advance TokenType.lbrace p refl e (λ q₁ x₁ d₁.
      >>=-Runs (sound.assignment q₁ (omega arith)) (λ r y le.
        >>=-skip_if TokenType.comma r.1 _ refl (λ q₂ d₂ o.
          >>=-expect TokenType.rbrace q₂ refl _
            (λ q₃ x₃ d₃. returned (view q₁, view r.1, view q₂, x₁, y, o, x₃) (omega arith)))))

  array_literal-Runs :
      (label : Bytes) (t : CType) (start q : Parser) (list : Ast) (v : View) (m : ℕ)
      → type_kind t ≡ TypeKind.array
      → size q ≤ m
      → Derives initializer v (view q) list
      → Runs (λ a w. Derives (literal t) v w a) m (done (array_literal start label t list q))
  array_literal-Runs label t start q list v m i le y =
      stored_or_not-Runs _ q ((info t).length == 0) (array_phrase start _ _ i y) le

  scalar_literal-Runs :
      (label : Bytes) (t : CType) (k : TypeKind) (start p : Parser)
      → size p < n
      → is TokenType.lbrace p ≡ true
      → type_kind t ≡ k
      → is_scalar k ≡ true
      → Runs
          (λ a w. Derives (literal t) (view p) w a)
          (size p)
          (braced_scalar b p >>= λ (a, p').
            done (literal_node start label k (scalar_full_type t) (is_plain_unsigned t) a, p'))
  scalar_literal-Runs label t k start p h e i j =
      >>=-Runs (braced_scalar-Runs p h e) (λ r (v₁, v₂, v₃, x₁, y, o, x₂) le.
        returned (scalar_literal start label (is_plain_unsigned t) k i j x₁ y o x₂) le)

  pub build_compound_literal-Reads :
      (t : CType) (p : Parser)
      → size p < n
      → is TokenType.lbrace p ≡ true
      → Reads (Derives (literal t)) p (build_compound_literal b t p)
  unfolding build_compound_literal store size
  build_compound_literal-Reads t p h e = by_kind (type_kind t) refl
    where
      label : Bytes
      label = type_label b.same_object p t

      by_kind :
          (k : TypeKind)
          → type_kind t ≡ k
          → Reads
              (Derives (literal t))
              p
              (literal_by_kind b (store label p) label t k (store label p))
      by_kind TypeKind.void i = failed
      by_kind TypeKind.function i = failed
      by_kind TypeKind.struct i =
          >>=-Runs (sound.initializer (store label p) (omega arith))
            (λ r y le. returned (struct_literal (store label p) label i of_struct y) le)
      by_kind TypeKind.union i =
          >>=-Runs (sound.initializer (store label p) (omega arith))
            (λ r y le. returned (struct_literal (store label p) label i of_union y) le)
      by_kind TypeKind.array i =
          >>=-Runs (sound.initializer (store label p) (omega arith))
            (λ r y le. array_literal-Runs label t (store label p) r.1 r.0 (view p) (size p) i le y)
      by_kind k i = scalar_literal-Runs label t k (store label p) (store label p) h e i refl
