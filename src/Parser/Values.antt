-- ===== src/Parser/Values.antt =====
-- What integer constant expressions mean: their grammar, with the value of each phrase. It is over the
-- phrases that are types, and over the expressions that `sizeof` stands before.
use claudec.Base.{ℕ, not, ◌&&◌, ◌||◌, ◌==◌, bit_and, bit_or, bit_xor}
use claudec.Long.{
  add_long, sub_long, mul_long, neg_long, not_long, div_long, rem_long, shl_long, shr_long, lt_long,
  of_bool,
}
use claudec.Preprocessor.Operator.{is_true}
use claudec.Lexer.{TokenType}
use claudec.Parser.{Parsed, done}
use claudec.Parser.Constant.{const_divide}

-- What an operator does with its operands.
unfoldable pub operation : TokenType → ℕ → ℕ → Parsed ℕ
operation TokenType.star a b = done (mul_long a b)
operation TokenType.slash a b = const_divide div_long a b
operation TokenType.percent a b = const_divide rem_long a b
operation TokenType.plus a b = done (add_long a b)
operation TokenType.minus a b = done (sub_long a b)
operation TokenType.left_shift a b = done (shl_long a b)
operation TokenType.right_shift a b = done (shr_long a b)
operation TokenType.lt a b = done (of_bool (lt_long a b))
operation TokenType.le a b = done (of_bool (not (lt_long b a)))
operation TokenType.gt a b = done (of_bool (lt_long b a))
operation TokenType.ge a b = done (of_bool (not (lt_long a b)))
operation TokenType.eq a b = done (of_bool (a == b))
operation TokenType.ne a b = done (of_bool (not (a == b)))
operation TokenType.ampersand a b = done (bit_and a b)
operation TokenType.caret a b = done (bit_xor a b)
operation TokenType.pipe a b = done (bit_or a b)
operation TokenType.and_and a b = done (of_bool (is_true a && is_true b))
operation TokenType.or_or a b = done (of_bool (is_true a || is_true b))
operation _ a b = done 0

-- The operators before an operand, with what they do.
pub data Sign : TokenType → (ℕ → ℕ) → Type 0 where
  negative : Sign TokenType.minus neg_long
  positive : Sign TokenType.plus (λ v. v)
  complement : Sign TokenType.tilde not_long
  negation : Sign TokenType.bang (λ v. of_bool (v == 0))
