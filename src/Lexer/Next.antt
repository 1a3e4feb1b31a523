-- ===== src/Lexer/Next.antt =====
-- `lexer_next_token`, src/lexer.c, and the loop of `print_tokens_mode`, src/compiler.c, that calls it.
use claudec.Base.{
  ℕ, zero, suc, ◌+◌, Bool, true, false, ◌&&◌, ◌||◌, Option, none, some, List, [], ◌∷◌, leb, ◌==◌,
  if◌then◌else◌, Bytes, codes, length, drop,
}
use claudec.CType.{int}
use claudec.Memory.{Outcome, ok, fatal, stuck, ◌>>=◌}
use claudec.Lexer.{
  TokenType, Token, Lexer, char_at, run, advance_by, lexer_store_bytes, token_set_pos, with_text,
}
use claudec.Lexer.Names.{keywords, find_keyword}
use claudec.Lexer.Space.{isdigit, lexer_skip_whitespace}
use claudec.Lexer.Punct.{Punct, next_punct}
use claudec.Lexer.Escape.{read_string, read_char}
use claudec.Lexer.Number.{
  Number, floating, integer, read_dot_number, read_number, finish_integer, is_suffix,
}

abbrev pub isalpha : ℕ → Bool
isalpha c = (leb b'a' c && leb c b'z') || (leb b'A' c && leb c b'Z')

abbrev pub is_word_start : ℕ → Bool
is_word_start c = isalpha c || (c == b'_')

abbrev pub is_word_char : ℕ → Bool
is_word_char c = isalpha c || isdigit c || (c == b'_')

-- A token whose text is not stored, n characters long.
abbrev pub plain_token : Token → Lexer → ℕ → TokenType → Bytes → Token × Lexer
plain_token t l n k s = (with_text t k s, advance_by n l)

-- A token whose text is stored by `lexer_store_bytes`.
abbrev pub stored_token : Token → Lexer → ℕ → TokenType → Bytes → Token × Lexer
stored_token t l n k s = (with_text t k s, lexer_store_bytes (advance_by n l) s)

abbrev pub punct_token : Token → Lexer → Punct → Token × Lexer
punct_token t l p = plain_token t l (length p.text) p.token_type p.text

unfoldable pub string_token : Token → Lexer → Outcome (Token × Lexer)
string_token t l = do
  s ← read_string (length l.rest) (drop 1 l.rest)
  ok (stored_token t l (1 + s.width) TokenType.string_literal s.bytes)

unfoldable pub char_token : Token → Lexer → Outcome (Token × Lexer)
char_token t l = do
  e ← read_char (drop 1 l.rest)
  ok (
      stored_token (record t { long_value = e.byte; literal_type = int }) l (2 + e.width)
        TokenType.char_literal (e.byte ∷ []))

abbrev pub float_type : Bool → TokenType
float_type has_f = if has_f then TokenType.float_literal else TokenType.double_literal

unfoldable pub number_token : Token → Lexer → Number → Outcome (Token × Lexer)
number_token t l (floating buf has_f) = ok (stored_token t l (length buf) (float_type has_f) buf)
number_token t l (integer buf base) = do
  let suffix = run is_suffix (length l.rest) (drop (length buf) l.rest)
  i ← finish_integer buf base suffix
  ok (
      stored_token
        (record t { long_value = i.long_value; literal_type = i.kind; is_unsigned = i.is_unsigned })
        l (length buf + length suffix) TokenType.int_literal i.text)

abbrev pub word_of : Token → Lexer → Bytes → Option TokenType → Token × Lexer
word_of t l s (some k) = plain_token t l (length s) k s
word_of t l s none = stored_token t l (length s) TokenType.identifier s

unfoldable pub word_token : Token → Lexer → Token × Lexer
word_token t l =
    let s = run is_word_char (length l.rest) l.rest in word_of t l s (find_keyword keywords s)

abbrev pub is_wide : ℕ → ℕ → Bool
is_wide c n = ((c == b'L') || (c == b'U') || (c == b'u')) && (n == b'\'')

-- What is left when no punctuator begins here.
unfoldable pub other_token : Token → Lexer → Outcome (Token × Lexer)
other_token t l =
    let c = char_at l.rest 0 in
    if c == b'"'
    then string_token t l
    else if c == b'\''
    then char_token t l
    else if is_wide c (char_at l.rest 1)
    then fatal (codes "error: wide character literal not supported")
    else if isdigit c
    then (do n ← read_number l.rest; number_token t l n)
    else if is_word_start c
    then ok (word_token t l)
    else ok (stored_token t l 1 TokenType.unknown (c ∷ []))

abbrev pub punct_or_other : Token → Lexer → Option Punct → Outcome (Token × Lexer)
punct_or_other t l (some p) = ok (punct_token t l p)
punct_or_other t l none = other_token t l

-- A dot before a digit begins a number, unless an ellipsis stands there.
abbrev pub is_dot_number : ℕ → ℕ → Bool
is_dot_number c n = (c == b'.') && isdigit n

unfoldable pub token_here : Token → Lexer → Outcome (Token × Lexer)
token_here t l =
    let c = char_at l.rest 0 in
    let n = char_at l.rest 1 in
    if c == 0
    then ok (t, l)
    else if is_dot_number c n
    then (do x ← read_dot_number l.rest; number_token t l x)
    else punct_or_other t l (next_punct c n (char_at l.rest 2))

unfoldable pub lexer_next_token : Lexer → Outcome (Token × Lexer)
lexer_next_token l = let s = lexer_skip_whitespace l in token_here (token_set_pos s) s

abbrev pub is_eof : TokenType → Bool
is_eof TokenType.eof = true
is_eof _ = false

-- The loop up to the end of the file, with fuel.
unfoldable pub all_tokens : ℕ → Lexer → Outcome (List Token)
all_tokens zero l = stuck
all_tokens (suc fuel) l = do
  (t, l') ← lexer_next_token l
  let rest = (do ts ← all_tokens fuel l'; ok (t ∷ ts))
  if is_eof t.token_type then ok (t ∷ []) else rest
