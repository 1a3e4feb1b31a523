-- ===== src/Parser/Symbols.antt =====
-- The tables of operators of the expressions of C, and runs of tokens.
use claudec.Base.{Option, none, some, codes, ℕ, ◌++◌, Bool, true, false, Bytes}
use claudec.CType.{TypeKind}
use claudec.Ast.{NodeType}
use claudec.Lexer.{TokenType}
use claudec.Parser.Runs.{View, Next}

-- The operators with two operands, by their level. A higher level binds less.
pub data Infix : ℕ → TokenType → Type 0 where
  times : Infix 4 TokenType.star
  over : Infix 4 TokenType.slash
  remainder : Infix 4 TokenType.percent
  plus : Infix 5 TokenType.plus
  minus : Infix 5 TokenType.minus
  left : Infix 6 TokenType.left_shift
  right : Infix 6 TokenType.right_shift
  below : Infix 7 TokenType.lt
  at_most : Infix 7 TokenType.le
  above : Infix 7 TokenType.gt
  at_least : Infix 7 TokenType.ge
  equal : Infix 8 TokenType.eq
  unequal : Infix 8 TokenType.ne
  both_bits : Infix 9 TokenType.ampersand
  one_bit : Infix 10 TokenType.caret
  any_bit : Infix 11 TokenType.pipe
  both : Infix 12 TokenType.and_and
  either : Infix 13 TokenType.or_or

-- The operators before an operand that keep their text.
pub data Prefix : TokenType → NodeType → Type 0 where
  increment : Prefix TokenType.increment NodeType.prefix_inc_dec
  decrement : Prefix TokenType.decrement NodeType.prefix_inc_dec
  positive : Prefix TokenType.plus NodeType.unary_op
  negative : Prefix TokenType.minus NodeType.unary_op
  negation : Prefix TokenType.bang NodeType.unary_op
  complement : Prefix TokenType.tilde NodeType.unary_op

pub data Access : TokenType → NodeType → Type 0 where
  member : Access TokenType.dot NodeType.member_access
  arrow : Access TokenType.arrow NodeType.arrow_access

-- The assignments, with the operator that they apply before.
pub data Assign : TokenType → Option Bytes → Type 0 where
  simple : Assign TokenType.assign none
  add : Assign TokenType.plus_assign (some (codes "+"))
  subtract : Assign TokenType.minus_assign (some (codes "-"))
  multiply : Assign TokenType.star_assign (some (codes "*"))
  divide : Assign TokenType.slash_assign (some (codes "/"))
  modulo : Assign TokenType.percent_assign (some (codes "%"))
  shift_left : Assign TokenType.left_shift_assign (some (codes "<<"))
  shift_right : Assign TokenType.right_shift_assign (some (codes ">>"))
  intersect : Assign TokenType.amp_assign (some (codes "&"))
  differ : Assign TokenType.caret_assign (some (codes "^"))
  unite : Assign TokenType.pipe_assign (some (codes "|"))

-- The types of a compound literal that takes a list.
pub data Aggregate : TypeKind → Type 0 where
  of_struct : Aggregate TypeKind.struct
  of_union : Aggregate TypeKind.union

-- Those that take one expression.
abbrev pub is_scalar : TypeKind → Bool
is_scalar TypeKind.void = false
is_scalar TypeKind.function = false
is_scalar TypeKind.struct = false
is_scalar TypeKind.union = false
is_scalar TypeKind.array = false
is_scalar _ = true

-- String literals that follow one another, behind bytes that were read.
pub data Strings : Bytes → View → View → Bytes → Type 0 where
  no_more : {s : Bytes} {v : View} → Strings s v v s
  one_more :
      {s u : Bytes} {v v' w : View}
      → Next TokenType.string_literal v v'
      → Strings (s ++ v.0.value) v' w u
      → Strings s v w u

-- A token that may be left out.
pub data Optional (k : TokenType) : View → View → Type 0 where
  left_out : {v : View} → Optional k v v
  there : {v w : View} → Next k v w → Optional k v w
