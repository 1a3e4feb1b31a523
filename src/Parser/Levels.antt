-- ===== src/Parser/Levels.antt =====
-- `eval_const_multiplicative` to `eval_const_expr`, src/parser.c.
use claudec.Base.{ℕ, ◌||◌, ◌&&◌, [], ◌∷◌, ◌==◌, if◌then◌else◌, bit_and, bit_or, bit_xor}
use claudec.Long.{of_bool}
use claudec.Preprocessor.Operator.{is_true}
use claudec.Lexer.{TokenType}
use claudec.Parser.{done, ◌>>=◌, Parse, is, advance, parser_expect}
use claudec.Parser.Calls.{Calls}
use claudec.Parser.Binary.{term_ops, additive_ops, shift_ops, relational_ops, equality_ops}
use claudec.Parser.Constant.{
  eval_const_unary, const_level, multiplicative, additive, shifted, relational, equality,
}

module _ (b : Calls) where
  unfoldable pub eval_const_multiplicative : Parse ℕ
  eval_const_multiplicative p = const_level term_ops multiplicative (eval_const_unary b) p

  unfoldable pub eval_const_additive : Parse ℕ
  eval_const_additive p = const_level additive_ops additive eval_const_multiplicative p

  unfoldable pub eval_const_shift : Parse ℕ
  eval_const_shift p = const_level shift_ops shifted eval_const_additive p

  unfoldable pub eval_const_relational : Parse ℕ
  eval_const_relational p = const_level relational_ops relational eval_const_shift p

  unfoldable pub eval_const_equality : Parse ℕ
  eval_const_equality p = const_level equality_ops equality eval_const_relational p

  unfoldable pub eval_const_bitwise_and : Parse ℕ
  eval_const_bitwise_and p =
      const_level (TokenType.ampersand ∷ []) (λ op a b. done (bit_and a b)) eval_const_equality p

  unfoldable pub eval_const_bitwise_xor : Parse ℕ
  eval_const_bitwise_xor p =
      const_level (TokenType.caret ∷ []) (λ op a b. done (bit_xor a b)) eval_const_bitwise_and p

  unfoldable pub eval_const_bitwise_or : Parse ℕ
  eval_const_bitwise_or p =
      const_level (TokenType.pipe ∷ []) (λ op a b. done (bit_or a b)) eval_const_bitwise_xor p

  unfoldable pub eval_const_logical_and : Parse ℕ
  eval_const_logical_and p =
      const_level (TokenType.and_and ∷ []) (λ op a b. done (of_bool (is_true a && is_true b)))
        eval_const_bitwise_or p

  unfoldable pub eval_const_logical_or : Parse ℕ
  eval_const_logical_or p =
      const_level (TokenType.or_or ∷ []) (λ op a b. done (of_bool (is_true a || is_true b)))
        eval_const_logical_and p

-- After the question mark. Both branches are evaluated, and one value is taken.
unfoldable pub const_branches : Calls → Parse ℕ → ℕ → Parse ℕ
const_branches b const_conditional cond p = do
  (true_val, p₁) ← b.const_expr p
  (_, p₂) ← parser_expect TokenType.colon p₁
  (false_val, p₃) ← const_conditional p₂
  done (if cond == 0 then false_val else true_val, p₃)

-- The branch behind the colon is `eval_const_conditional`, which is all that `eval_const_expr` does.
unfoldable pub eval_const_conditional : Calls → Parse ℕ
eval_const_conditional b p = do
  (cond, p₁) ← eval_const_logical_or b p
  if is TokenType.question p₁
      then (do p₂ ← advance p₁; const_branches b b.const_expr cond p₂)
      else done (cond, p₁)

unfoldable pub eval_const_expr : Calls → Parse ℕ
eval_const_expr b p = eval_const_conditional b p
