-- ===== src/Lexer/Escape.antt =====
-- String and character literals of `lexer_next_token`, src/lexer.c, from the position after the opening
-- quote. The results say how many characters the calls of `lexer_advance` pass over.
use claudec.Base.{
  ℕ, zero, suc, ◌+◌, ◌*◌, ◌-◌, ◌%◌, ◌^◌, Bool, ◌&&◌, ◌||◌, not, Option, none, some, [], ◌∷◌, leb,
  ◌==◌, if◌then◌else◌, Bytes, codes, length, drop,
}
use claudec.Memory.{Outcome, ok, fatal, stuck, ◌>>=◌}
use claudec.Lexer.{char_at, run}
use claudec.Lexer.Space.{isdigit}

abbrev pub isxdigit : ℕ → Bool
isxdigit c = isdigit c || (leb b'a' c && leb c b'f') || (leb b'A' c && leb c b'F')

abbrev pub is_octal_digit : ℕ → Bool
is_octal_digit c = leb b'0' c && leb c b'7'

abbrev pub hex_digit : ℕ → ℕ
hex_digit c =
    if isdigit c
    then c - b'0'
    else if leb b'a' c && leb c b'f'
    then c - b'a' + 10
    else c - b'A' + 10

-- `val = val * base + digit` on `unsigned int`.
unfoldable pub hex_value : ℕ → Bytes → ℕ
hex_value val [] = val
hex_value val (d ∷ ds) = hex_value ((val * 16 + hex_digit d) % 2 ^ 32) ds

unfoldable pub octal_value : ℕ → Bytes → ℕ
octal_value val [] = val
octal_value val (d ∷ ds) = octal_value ((val * 8 + (d - b'0')) % 2 ^ 32) ds

-- The decoded byte, and the length of the sequence with its backslash.
pub record Escape : Type 0 where
  pub byte : ℕ
  pub width : ℕ

-- The escapes of one letter in a string.
unfoldable pub string_letter : ℕ → Option ℕ
string_letter c =
    if c == b'n'
    then some 10
    else if c == b't'
    then some 9
    else if c == b'r'
    then some 13
    else if c == b'\\'
    then some b'\\'
    else if c == b'"'
    then some b'"'
    else none

-- Those in a character literal.
unfoldable pub char_letter : ℕ → Option ℕ
char_letter c =
    if c == b'a'
    then some 7
    else if c == b'b'
    then some 8
    else if c == b'f'
    then some 12
    else if c == b'n'
    then some 10
    else if c == b'r'
    then some 13
    else if c == b't'
    then some 9
    else if c == b'v'
    then some 11
    else if c == b'\\'
    then some b'\\'
    else if c == b'\''
    then some b'\''
    else if c == b'"'
    then some b'"'
    else if c == b'?'
    then some b'?'
    else none

abbrev pub letter_escape : Bytes → Option ℕ → Outcome Escape
letter_escape msg none = fatal msg
letter_escape msg (some b) = ok (record { byte = b; width = 2 })

abbrev pub hex_escape : Bytes → Bytes → Outcome Escape
hex_escape msg cs =
    let digits = run isxdigit (length cs) cs in
    if isxdigit (char_at cs 0)
    then ok (record { byte = hex_value 0 digits % 256; width = 2 + length digits })
    else fatal msg

abbrev pub octal_escape : Bytes → Escape
octal_escape cs =
    let digits = run is_octal_digit 3 cs in
    record { byte = octal_value 0 digits % 256; width = 1 + length digits }

-- At a backslash, with the letters and the messages of the kind of literal.
unfoldable pub read_escape : (ℕ → Option ℕ) → Bytes → Bytes → Bytes → Outcome Escape
read_escape letters bad_hex bad cs =
    let next = char_at cs 1 in
    if next == b'x'
    then hex_escape bad_hex (drop 2 cs)
    else if is_octal_digit next
    then ok (octal_escape (drop 1 cs))
    else letter_escape bad (letters next)

unfoldable pub string_escape : Bytes → Outcome Escape
string_escape =
    read_escape string_letter (codes "error: invalid hex escape in string literal")
      (codes "error: invalid escape sequence in string literal")

-- The bytes of a literal, and how many characters it takes with its closing quote.
pub record Literal : Type 0 where
  pub bytes : Bytes
  pub width : ℕ

abbrev pub literal_after : ℕ → ℕ → Literal → Literal
literal_after b n s = record { bytes = b ∷ s.bytes; width = n + s.width }

-- The loop, with fuel: each round passes a character.
unfoldable pub read_string : ℕ → Bytes → Outcome Literal
read_string zero cs = stuck
read_string (suc fuel) cs =
    let c = char_at cs 0 in
    let escaped = (do
      e ← string_escape cs
      s ← read_string fuel (drop e.width cs)
      ok (literal_after e.byte e.width s)) in
    let plain = (do s ← read_string fuel (drop 1 cs); ok (literal_after c 1 s)) in
    if c == b'"'
    then ok (record { bytes = []; width = 1 })
    else if c == 0
    then fatal (codes "error: unterminated string literal")
    else if c == b'\n'
    then fatal (codes "error: newline in string literal")
    else if c == b'\\'
    then escaped
    else plain

abbrev pub ends_char : ℕ → Bool
ends_char c = (c == 0) || (c == b'\n') || (c == b'\'')

-- The check of the closing quote, after the character.
unfoldable pub close_char : Escape → Bytes → Outcome Escape
close_char e cs =
    let line = run (λ c. not (ends_char c)) (length cs) cs in
    if char_at cs 0 == b'\''
    then ok e
    else if char_at (drop (length line) cs) 0 == b'\''
    then fatal (codes "error: multi character constant")
    else fatal (codes "error: unterminated character literal")

abbrev pub first_char : Bytes → Outcome Escape
first_char cs =
    if char_at cs 0 == b'\\'
    then read_escape char_letter (codes "error: invalid hex escape in character literal")
        (codes "error: invalid escape sequence in character literal") cs
    else ok (record { byte = char_at cs 0; width = 1 })

-- The byte, and how many characters it takes without the quotes.
unfoldable pub read_char : Bytes → Outcome Escape
read_char cs =
    let c = char_at cs 0 in
    if c == 0
    then fatal (codes "error: unterminated character literal")
    else if c == b'\n'
    then fatal (codes "error: newline in character literal")
    else if c == b'\''
    then fatal (codes "error: empty character literal")
    else do e ← first_char cs; close_char e (drop e.width cs)
