-- ===== src/Lexer/Punct.antt =====
-- The punctuators of `lexer_next_token`, src/lexer.c.
use claudec.Base.{ℕ, ◌&&◌, Option, none, some, Bytes, codes, ◌==◌, if◌then◌else◌}
use claudec.Lexer.{TokenType}

pub record Punct : Type 0 where
  pub token_type : TokenType
  pub text : Bytes

abbrev punct : TokenType → Bytes → Option Punct
punct k s = some (record { token_type = k; text = s })

-- `if (c == '(') ...` to `','`.
unfoldable pub single_punct : ℕ → Option Punct
single_punct c =
    if c == b'('
    then punct TokenType.lparen (codes "(")
    else if c == b')'
    then punct TokenType.rparen (codes ")")
    else if c == b'{'
    then punct TokenType.lbrace (codes "{")
    else if c == b'}'
    then punct TokenType.rbrace (codes "}")
    else if c == b'['
    then punct TokenType.lbracket (codes "[")
    else if c == b']'
    then punct TokenType.rbracket (codes "]")
    else if c == b';'
    then punct TokenType.semicolon (codes ";")
    else if c == b':'
    then punct TokenType.colon (codes ":")
    else if c == b'?'
    then punct TokenType.question (codes "?")
    else if c == b','
    then punct TokenType.comma (codes ",")
    else none

-- `if (c == '.')`, but for the numbers that begin with a dot.
unfoldable pub dot_punct : ℕ → ℕ → Option Punct
dot_punct n m =
    if (n == b'.') && (m == b'.')
    then punct TokenType.ellipsis (codes "...")
    else punct TokenType.dot (codes ".")

-- `if (c == '+')` to `'~'`.
unfoldable pub arith_punct : ℕ → ℕ → Option Punct
arith_punct c n =
    if c == b'+'
    then (if n == b'+'
        then punct TokenType.increment (codes "++")
        else if n == b'='
        then punct TokenType.plus_assign (codes "+=")
        else punct TokenType.plus (codes "+"))
    else if c == b'-'
    then (if n == b'-'
        then punct TokenType.decrement (codes "--")
        else if n == b'='
        then punct TokenType.minus_assign (codes "-=")
        else if n == b'>'
        then punct TokenType.arrow (codes "->")
        else punct TokenType.minus (codes "-"))
    else if c == b'*'
    then (if n == b'='
        then punct TokenType.star_assign (codes "*=")
        else punct TokenType.star (codes "*"))
    else if c == b'/'
    then (if n == b'='
        then punct TokenType.slash_assign (codes "/=")
        else punct TokenType.slash (codes "/"))
    else if c == b'%'
    then (if n == b'='
        then punct TokenType.percent_assign (codes "%=")
        else punct TokenType.percent (codes "%"))
    else if c == b'~'
    then punct TokenType.tilde (codes "~")
    else none

-- The block on two characters, and a third for the assignments of shifts.
unfoldable pub relational_punct : ℕ → ℕ → ℕ → Option Punct
relational_punct c n m =
    if (c == b'=') && (n == b'=')
    then punct TokenType.eq (codes "==")
    else if c == b'='
    then punct TokenType.assign (codes "=")
    else if (c == b'!') && (n == b'=')
    then punct TokenType.ne (codes "!=")
    else if c == b'!'
    then punct TokenType.bang (codes "!")
    else if (c == b'<') && (n == b'<')
    then (if m == b'='
        then punct TokenType.left_shift_assign (codes "<<=")
        else punct TokenType.left_shift (codes "<<"))
    else if (c == b'>') && (n == b'>')
    then (if m == b'='
        then punct TokenType.right_shift_assign (codes ">>=")
        else punct TokenType.right_shift (codes ">>"))
    else if (c == b'<') && (n == b'=')
    then punct TokenType.le (codes "<=")
    else if (c == b'>') && (n == b'=')
    then punct TokenType.ge (codes ">=")
    else if c == b'<'
    then punct TokenType.lt (codes "<")
    else if c == b'>'
    then punct TokenType.gt (codes ">")
    else none

unfoldable pub bitwise_punct : ℕ → ℕ → Option Punct
bitwise_punct c n =
    if (c == b'&') && (n == b'&')
    then punct TokenType.and_and (codes "&&")
    else if (c == b'&') && (n == b'=')
    then punct TokenType.amp_assign (codes "&=")
    else if c == b'&'
    then punct TokenType.ampersand (codes "&")
    else if (c == b'|') && (n == b'|')
    then punct TokenType.or_or (codes "||")
    else if (c == b'|') && (n == b'=')
    then punct TokenType.pipe_assign (codes "|=")
    else if c == b'|'
    then punct TokenType.pipe (codes "|")
    else if (c == b'^') && (n == b'=')
    then punct TokenType.caret_assign (codes "^=")
    else if c == b'^'
    then punct TokenType.caret (codes "^")
    else none

-- The next block is tried where this one falls through.
infixr 20 ◌or_punct◌
abbrev pub ◌or_punct◌ : Option Punct → Option Punct → Option Punct
some p or_punct o = some p
none or_punct o = o

-- The blocks in the order of the source, on the next three characters. A dot before a digit is a number,
-- which is read before.
unfoldable pub next_punct : ℕ → ℕ → ℕ → Option Punct
next_punct c n m =
    single_punct c
    or_punct (if c == b'.' then dot_punct n m else none)
    or_punct arith_punct c n
    or_punct relational_punct c n m
    or_punct bitwise_punct c n
