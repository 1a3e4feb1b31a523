-- ===== src/Preprocessor/Operator.antt =====
-- The operators of the conditions of #if and #elif, src/preprocessor.c.
use claudec.Base.{
  ℕ, ◌^◌, Bool, not, ◌&&◌, ◌||◌, Option, none, some, ◌==◌, if◌then◌else◌, Bytes, codes, bit_and,
  bit_or, bit_xor,
}
use claudec.Long.{
  add_long, sub_long, mul_long, neg_long, not_long, div_long, rem_long, shl_long, shr_long, lt_long,
  of_bool, all_ones,
}
use claudec.Memory.{Outcome, ok, fatal}
use claudec.Lexer.{char_at}

-- An operator that stands in the text, and what it does with its operands.
pub record Operator : Type 0 where
  pub symbol : Bytes
  pub apply : ℕ → ℕ → Outcome ℕ

abbrev pub total : (ℕ → ℕ → ℕ) → ℕ → ℕ → Outcome ℕ
total f a b = ok (f a b)

abbrev pub test : (ℕ → ℕ → Bool) → ℕ → ℕ → Outcome ℕ
test f a b = ok (of_bool (f a b))

-- The quotient of the least `long` by -1 does not exist, and the process is ended by a signal.
abbrev pub traps : ℕ → ℕ → Bool
traps a b = (a == 2 ^ 63) && (b == all_ones)

abbrev pub divide : ℕ → ℕ → Outcome ℕ
divide a b =
    if b == 0
    then fatal (codes "error: division by zero in preprocessor expression")
    else if traps a b
    then fatal (codes "SIGFPE")
    else ok (div_long a b)

abbrev pub modulo : ℕ → ℕ → Outcome ℕ
modulo a b =
    if b == 0
    then fatal (codes "error: modulo by zero in preprocessor expression")
    else if traps a b
    then fatal (codes "SIGFPE")
    else ok (rem_long a b)

abbrev pub is_true : ℕ → Bool
is_true a = not (a == 0)

abbrev operator : Bytes → (ℕ → ℕ → Outcome ℕ) → Option Operator
operator s f = some (record { symbol = s; apply = f })

-- The tests in the loop of each level, in the order of the source.
unfoldable pub multiplicative_operator : Bytes → Option Operator
multiplicative_operator cs =
    if char_at cs 0 == b'*'
    then operator (codes "*") (total mul_long)
    else if char_at cs 0 == b'/'
    then operator (codes "/") divide
    else if char_at cs 0 == b'%'
    then operator (codes "%") modulo
    else none

unfoldable pub additive_operator : Bytes → Option Operator
additive_operator cs =
    if char_at cs 0 == b'+'
    then operator (codes "+") (total add_long)
    else if char_at cs 0 == b'-'
    then operator (codes "-") (total sub_long)
    else none

unfoldable pub shift_operator : Bytes → Option Operator
shift_operator cs =
    if (char_at cs 0 == b'<') && (char_at cs 1 == b'<')
    then operator (codes "<<") (total shl_long)
    else if (char_at cs 0 == b'>') && (char_at cs 1 == b'>')
    then operator (codes ">>") (total shr_long)
    else none

unfoldable pub relational_operator : Bytes → Option Operator
relational_operator cs =
    if (char_at cs 0 == b'<') && (char_at cs 1 == b'=')
    then operator (codes "<=") (test (λ a b. not (lt_long b a)))
    else if (char_at cs 0 == b'>') && (char_at cs 1 == b'=')
    then operator (codes ">=") (test (λ a b. not (lt_long a b)))
    else if (char_at cs 0 == b'<') && not (char_at cs 1 == b'<')
    then operator (codes "<") (test lt_long)
    else if (char_at cs 0 == b'>') && not (char_at cs 1 == b'>')
    then operator (codes ">") (test (λ a b. lt_long b a))
    else none

unfoldable pub equality_operator : Bytes → Option Operator
equality_operator cs =
    if (char_at cs 0 == b'=') && (char_at cs 1 == b'=')
    then operator (codes "==") (test (λ a b. a == b))
    else if (char_at cs 0 == b'!') && (char_at cs 1 == b'=')
    then operator (codes "!=") (test (λ a b. not (a == b)))
    else none

unfoldable pub and_operator : Bytes → Option Operator
and_operator cs =
    if (char_at cs 0 == b'&') && not (char_at cs 1 == b'&')
    then operator (codes "&") (total bit_and)
    else none

unfoldable pub xor_operator : Bytes → Option Operator
xor_operator cs = if char_at cs 0 == b'^' then operator (codes "^") (total bit_xor) else none

unfoldable pub or_operator : Bytes → Option Operator
or_operator cs =
    if (char_at cs 0 == b'|') && not (char_at cs 1 == b'|')
    then operator (codes "|") (total bit_or)
    else none

unfoldable pub logical_and_operator : Bytes → Option Operator
logical_and_operator cs =
    if (char_at cs 0 == b'&') && (char_at cs 1 == b'&')
    then operator (codes "&&") (test (λ a b. is_true a && is_true b))
    else none

unfoldable pub logical_or_operator : Bytes → Option Operator
logical_or_operator cs =
    if (char_at cs 0 == b'|') && (char_at cs 1 == b'|')
    then operator (codes "||") (test (λ a b. is_true a || is_true b))
    else none

-- The operators before an operand.
abbrev pub is_unary : ℕ → Bool
is_unary c = (c == b'!') || (c == b'-') || (c == b'+') || (c == b'~')

abbrev pub apply_unary : ℕ → ℕ → ℕ
apply_unary c value =
    if c == b'!'
    then of_bool (value == 0)
    else if c == b'-'
    then neg_long value
    else if c == b'~'
    then not_long value
    else value
