-- ===== src/Parser/Sound/Whole.antt =====
-- The calls of the parsers to one another have enough fuel, and what they read are phrases.
use claudec.Base.{ℕ, Bool, zero, suc, arith}
use claudec.CType.{CType}
use claudec.Parser.{Parser, size}
use claudec.Parser.Binary.{parse_assignment_expression}
use claudec.Parser.Levels.{eval_const_expr}
use claudec.Parser.Knot.{calls, type_name_at}
use claudec.Parser.Runs.{Reads}
use claudec.Parser.Grammar.{TypeName, initializer}
use claudec.Parser.Sound.{Sounds}
use claudec.Parser.Sound.Initializer.{parse_initializer-Parses}
use claudec.Parser.Sound.Unary.{parse_unary-Parses, parse_cast-Parses}
use claudec.Parser.Sound.Binary.{
  parse_conditional-Parses, parse_assignment_expression-Parses, parse_expression-Parses,
}
use claudec.Parser.Sound.Constant.{eval_const_unary-Parses, eval_const_expr-Parses}
use claudec.Parser.Sound.TypeNames.{parse_type_name-Reads}

module _ (same_object : CType → CType → Bool) where
  -- The calls with fuel n do what they have to with less than n left to read.
  calls-Sounds : (n : ℕ) → Sounds n (calls same_object n)
  unfolding calls
  calls-Sounds zero = record {
    expression = λ p h. absurd (omega arith);
    assignment = λ p h. absurd (omega arith);
    conditional = λ p h. absurd (omega arith);
    cast = λ p h. absurd (omega arith);
    unary = λ p h. absurd (omega arith);
    initializer = λ p h. absurd (omega arith);
    const_expr = λ p h. absurd (omega arith);
    const_unary = λ p h. absurd (omega arith);
    types = λ p h. absurd (omega arith);
  }
  calls-Sounds (suc n) =
      let b = calls same_object n in
      let sound = calls-Sounds n in
      let assigns = parse_assignment_expression-Parses n b sound in
      let constants = eval_const_expr-Parses n b sound sound.const_expr in
      record {
        expression = parse_expression-Parses n b sound;
        assignment = assigns;
        conditional = parse_conditional-Parses n b sound;
        cast = parse_cast-Parses n b sound;
        unary = parse_unary-Parses n b sound;
        initializer =
            parse_initializer-Parses n b sound (λ q. parse_assignment_expression b q) assigns;
        const_expr = constants;
        const_unary = eval_const_unary-Parses n b sound sound.const_expr;
        types = λ p h.
            parse_type_name-Reads (suc n) (λ q. eval_const_expr b q) constants p (omega arith);
      }

  -- A call of parse_type_name ends with the fuel given: with a message, in a token that is too long for
  -- the buffer of the lexer, at the body of a struct or a union, or with the type that a type name stands
  -- for, from where the parser was to where it is, where each name means what the tables of the parser
  -- have for it.
  pub type_name_at-TypeName : (p : Parser) → Reads TypeName p (type_name_at same_object p)
  unfolding type_name_at
  type_name_at-TypeName p =
      let sound = calls-Sounds (size p) in
      parse_type_name-Reads (size p) (calls same_object (size p)).const_expr sound.const_expr p
        (omega arith)
