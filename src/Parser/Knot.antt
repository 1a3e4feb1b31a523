-- ===== src/Parser/Knot.antt =====
-- The calls of the parsers of src/parser.c to one another, with fuel: behind each token that is passed
-- less is left to read.
use claudec.Base.{ℕ, zero, suc, Bool}
use claudec.Ast.{Ast}
use claudec.Parser.{no_fuel, Parse, size}
use claudec.CType.{CType}
use claudec.Parser.TypeNames.{parse_type_name}
use claudec.Parser.Calls.{Calls}
use claudec.Parser.Initializer.{parse_initializer}
use claudec.Parser.Unary.{parse_unary, parse_cast}
use claudec.Parser.Binary.{parse_conditional, parse_assignment_expression, parse_expression}
use claudec.Parser.Constant.{eval_const_unary}
use claudec.Parser.Levels.{eval_const_expr}

-- Types are trees here, and that two of them are one object is a parameter.
module _ (same_object : CType → CType → Bool) where
  unfoldable pub calls : ℕ → Calls
  calls zero = record {
    expression = λ p. no_fuel;
    assignment = λ p. no_fuel;
    conditional = λ p. no_fuel;
    cast = λ p. no_fuel;
    unary = λ p. no_fuel;
    initializer = λ p. no_fuel;
    const_expr = λ p. no_fuel;
    const_unary = λ p. no_fuel;
    same_object = same_object;
  }
  calls (suc fuel) =
      let b = calls fuel in
      record {
        expression = λ p. parse_expression b p;
        assignment = λ p. parse_assignment_expression b p;
        conditional = λ p. parse_conditional b p;
        cast = λ p. parse_cast b p;
        unary = λ p. parse_unary b p;
        initializer = λ p. parse_initializer b (parse_assignment_expression b) p;
        const_expr = λ p. eval_const_expr b p;
        const_unary = λ p. eval_const_unary b p;
        same_object = same_object;
      }

  -- An expression of the source.
  unfoldable pub expression_at : Parse Ast
  expression_at p = parse_expression (calls (size p)) p

  unfoldable pub initializer_at : Parse Ast
  initializer_at p = let b = calls (size p) in parse_initializer b (parse_assignment_expression b) p

  -- An integer constant expression.
  unfoldable pub constant_at : Parse ℕ
  constant_at p = eval_const_expr (calls (size p)) p

  unfoldable pub type_name_at : Parse CType
  type_name_at p = parse_type_name (calls (size p)).const_expr p
