-- ===== src/Preprocessor/Whole.antt =====
-- The condition of an #if or #elif, after comments were taken out and macros expanded:
-- preprocess_internal, src/preprocessor.c.
use claudec.Base.{ℕ, Bool, List, [], ◌∷◌, ◌++◌, Bytes, codes, ◌≡◌}
use claudec.Memory.{Outcome, ok, fatal, ◌>>=◌}
use claudec.Preprocessor.Macros.{MacroDef}
use claudec.Preprocessor.Operator.{is_true}
use claudec.Preprocessor.Condition.{skip_blanks, eval_cond_expr}
use claudec.Preprocessor.Grammar.{Atom, Phrase}

unfoldable pub extra_tokens : Bytes → ℕ → Bytes → Outcome Bool
extra_tokens directive value [] = ok (is_true value)
extra_tokens directive value (c ∷ cs) =
    fatal (codes "error: extra tokens after #" ++ (directive ++ codes " expression"))

-- The value of the whole text, of an `#if` or an `#elif`.
unfoldable pub if_value : Bytes → List MacroDef → Bytes → Outcome Bool
if_value directive macros expanded = do
  (v, r) ← eval_cond_expr macros (skip_blanks expanded)
  extra_tokens directive v (skip_blanks r)

-- The text is a phrase of the grammar, and the condition holds exactly if its value is not 0.
pub record Decides (macros : List MacroDef) (text : Bytes) (b : Bool) : Type 0 where
  pub value : ℕ
  pub phrase : Phrase (Atom macros) 12 text value
  pub decides : b ≡ is_true value
