-- ===== src/Preprocessor/Sound.antt =====
-- The evaluator of conditions reads a phrase of the grammar, and ends.
use claudec.Base.{ℕ, List, Bytes}
use claudec.Preprocessor.Macros.{MacroDef}
use claudec.Preprocessor.Grammar.{Atom, Phrase}

module _ (macros : List MacroDef) where
  abbrev P : ℕ → Bytes → ℕ → Type 0
  P = Phrase (Atom macros)
