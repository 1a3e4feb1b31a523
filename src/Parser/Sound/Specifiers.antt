-- ===== src/Parser/Sound/Specifiers.antt =====
-- `parse_type_specifier`, src/parser.c, reads the keywords and names of types.
use claudec.Base.{ℕ, ◌≤◌, true, Option, [], ◌∷◌, ◌≡◌, refl, arith}
use claudec.CType.{CType}
use claudec.Lexer.{TokenType}
use claudec.Parser.{TypedefEntry, Parser, Parsed, Parse, is, size}
use claudec.Parser.Tables.{parser_find_typedef}
use claudec.Parser.Types.{with_int, past, of_typedef, is_short_or_long, parse_type_specifier}
use claudec.Parser.Runs.{
  view, returned, failed, Reads, Parses, Runs-map, Runs-if, >>=-advance, Stands,
}
use claudec.Parser.Symbols.{left_out}
use claudec.Parser.Words.{
  or_kind_type-TypedefType, Words, signed, unsigned, void, bool, char, short, int, float, double,
  stop, pass, words,
}
use claudec.Parser.Names.{LastTypedef, Absent, Finds, found, missing, last_typedef-Finds}
use claudec.Parser.Grammar.{Value, BaseType, keywords, typedef_name}
use claudec.Parser.Sound.Tags.{
  parse_enum_specifier-Reads, parse_struct_specifier-Reads, parse_union_specifier-Reads,
}
use claudec.Parser.Sound.Initializer.{>>=-skip_if}
use claudec.Parser.Sound.Types.{with_int-Runs, past-Runs, after_long-Runs, after_sign-Runs}

abbrev Base : Parser → Parsed (CType × Parser) → Type 0
Base p o = Reads BaseType p o

-- A type of one keyword.
one_word :
    (k : TokenType) (t : CType) (p : Parser)
    → Words (k ∷ []) t
    → Stands k
    → is k p ≡ true
    → Base p (past t p)
one_word k t p x i e =
    Runs-map (past-Runs (view p) t k p i e (λ w y. words x (pass y stop))) (omega arith)
      (λ a w y. keywords y)

of_typedef-Reads :
    (p : Parser)
    → is TokenType.identifier p ≡ true
    → {o : Option TypedefEntry}
    → Finds
        (λ e. LastTypedef p.current.value e p.typedefs)
        (Absent (λ e. e.name) p.current.value p.typedefs)
        o
    → Base p (of_typedef o p)
unfolding with_int
of_typedef-Reads p i (missing f) = failed
of_typedef-Reads p i (found {a = e} f) = >>=-advance TokenType.identifier p refl i (λ q x d.
    Runs-if (is_short_or_long e.kind)
      (λ _.
        >>=-skip_if TokenType.int q _ refl
          (λ q' d' o. returned (typedef_name e f x o (or_kind_type-TypedefType e)) (omega arith)))
      (λ _. returned (typedef_name e f x left_out (or_kind_type-TypedefType e)) (omega arith)))

pub parse_type_specifier-Reads :
    (n : ℕ) (eval_const_expr : Parse ℕ)
    → Parses (Value 14) n eval_const_expr
    → (p : Parser) → size p ≤ n
    → Base p (parse_type_specifier eval_const_expr p)
unfolding parse_type_specifier parser_find_typedef
parse_type_specifier-Reads n eval_const_expr evaluates p h =
    Runs-if (is TokenType.void p) (λ e. one_word _ _ p void refl e)
      (λ _.
        Runs-if (is TokenType.bool p) (λ e. one_word _ _ p bool refl e)
          (λ _.
            Runs-if (is TokenType.char p) (λ e. one_word _ _ p char refl e)
              (λ _.
                Runs-if (is TokenType.short p)
                  (λ e. >>=-advance TokenType.short p refl e (λ q x d.
                    Runs-map (with_int-Runs (view p) _ _ q short refl (pass x stop)) (omega arith)
                      (λ a w y. keywords y)))
                  (λ _.
                    Runs-if (is TokenType.float p) (λ e. one_word _ _ p float refl e)
                      (λ _.
                        Runs-if (is TokenType.double p) (λ e. one_word _ _ p double refl e)
                          (λ _.
                            Runs-if (is TokenType.long p)
                              (λ e. >>=-advance TokenType.long p refl e (λ q x d.
                                Runs-map (after_long-Runs (view p) q x) (omega arith)
                                  (λ a w y. keywords y)))
                              (λ _.
                                Runs-if (is TokenType.int p) (λ e. one_word _ _ p int refl e)
                                  (λ _.
                                    Runs-if (is TokenType.signed p)
                                      (λ e. >>=-advance TokenType.signed p refl e (λ q x d.
                                        Runs-map
                                          (after_sign-Runs (view p) _ _ _ q signed refl refl refl x)
                                          (omega arith) (λ a w y. keywords y)))
                                      (λ _.
                                        Runs-if (is TokenType.unsigned p)
                                          (λ e. >>=-advance TokenType.unsigned p refl e (λ q x d.
                                            Runs-map
                                              (after_sign-Runs (view p) _ _ _ q unsigned refl refl
                                                refl x)
                                              (omega arith) (λ a w y. keywords y)))
                                          (λ _.
                                            Runs-if (is TokenType.identifier p)
                                              (λ e.
                                                of_typedef-Reads p e
                                                  (last_typedef-Finds p.typedefs p.current.value))
                                              (λ _.
                                                Runs-if (is TokenType.enum p)
                                                  (λ e.
                                                    parse_enum_specifier-Reads n eval_const_expr
                                                      evaluates p h e)
                                                  (λ _.
                                                    Runs-if (is TokenType.struct p)
                                                      (λ e. parse_struct_specifier-Reads p e)
                                                      (λ _.
                                                        Runs-if (is TokenType.union p)
                                                          (λ e. parse_union_specifier-Reads p e)
                                                          (λ _. failed))))))))))))))
