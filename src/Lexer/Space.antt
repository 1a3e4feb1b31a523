-- ===== src/Lexer/Space.antt =====
-- White space and the location markers of the preprocessor, src/lexer.c.
use claudec.Base.{
  ℕ, zero, suc, ◌+◌, ◌*◌, ◌-◌, Bool, ◌&&◌, ◌||◌, some, [], ◌∷◌, leb, ◌==◌, if◌then◌else◌, Bytes,
  length, take, drop, not,
}
use claudec.Lexer.{Lexer, char_at, run, lexer_advance, lexer_intern_file}

-- The tests of <ctype.h> on a byte, in the C locale.
abbrev pub isspace : ℕ → Bool
isspace c = (c == 32) || (leb 9 c && leb c 13)

abbrev pub isdigit : ℕ → Bool
isdigit c = leb b'0' c && leb c b'9'

-- A step of the loop over the decimal digits.
unfoldable pub line_number : ℕ → Bytes → ℕ
line_number n [] = n
line_number n (d ∷ ds) = line_number (n * 10 + (d - b'0')) ds

-- `pos` moves over n characters, and `line` and `col` stay.
unfoldable pub jump : ℕ → Lexer → Lexer
jump n l = record l { rest = drop n l.rest; pos = l.pos + n }

-- `if (source[pos] == c) pos++;`
unfoldable pub jump_if : ℕ → Lexer → Lexer
jump_if c l = if char_at l.rest 0 == c then jump 1 l else l

abbrev pub not_newline : ℕ → Bool
not_newline c = not (c == b'\n')

abbrev pub enter_file : Lexer → Bytes → Lexer
enter_file l [] = l
enter_file l (c ∷ cs) =
    let (l', i) = lexer_intern_file l (take 511 (c ∷ cs)) in record l' { file = some i }

-- The marker is skipped, read, and then the state of the lexer is set from it.
unfoldable pub lexer_parse_location_marker : Lexer → Lexer
lexer_parse_location_marker l =
    let l1 = jump 1 l in
    let digits = run isdigit (length l1.rest) l1.rest in
    let l2 = jump_if b':' (jump (length digits) l1) in
    let path = run not_newline (length l2.rest) l2.rest in
    let l3 = jump_if b'\n' (jump (length path) l2) in
    enter_file (record l3 { line = line_number 0 digits; col = 1 }) path

-- The loop, with fuel: each round passes a character.
unfoldable pub skip_from : ℕ → Lexer → Lexer
skip_from zero l = l
skip_from (suc fuel) l =
    let c = char_at l.rest 0 in
    let marked = skip_from fuel (lexer_parse_location_marker l) in
    let spaced = skip_from fuel (lexer_advance l) in
    if c == 1 then marked else if isspace c then spaced else l

unfoldable pub lexer_skip_whitespace : Lexer → Lexer
lexer_skip_whitespace l = skip_from (length l.rest) l
