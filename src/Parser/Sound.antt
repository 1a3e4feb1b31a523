-- ===== src/Parser/Sound.antt =====
-- The parsers of src/parser.c read phrases of the grammar: what the calls of one another have to do.
pub mod Literals
pub mod Primary
pub mod Initializer
pub mod Postfix
pub mod Unary
pub mod Binary
pub mod Operators
pub mod Constant
pub mod Types
pub mod Tags
pub mod Specifiers
pub mod TypeNames
pub mod Whole
use claudec.Base.{ℕ}
use claudec.Parser.Calls.{Calls, type_name}
use claudec.Parser.Runs.{Parses}
use claudec.Parser.Grammar.{Derives, Value, TypeName, level, initializer as initializer_phrase}

-- With less than n left to read, each call ends and reads its phrase.
pub record Sounds (n : ℕ) (b : Calls) : Type 0 where
  pub expression : Parses (Derives (level 16)) n b.expression
  pub assignment : Parses (Derives (level 15)) n b.assignment
  pub conditional : Parses (Derives (level 14)) n b.conditional
  pub cast : Parses (Derives (level 3)) n b.cast
  pub unary : Parses (Derives (level 2)) n b.unary
  pub initializer : Parses (Derives initializer_phrase) n b.initializer
  pub const_expr : Parses (Value 14) n b.const_expr
  pub const_unary : Parses (Value 2) n b.const_unary
  pub types : Parses TypeName n (λ p. type_name b p)
