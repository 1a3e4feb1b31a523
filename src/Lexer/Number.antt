-- ===== src/Lexer/Number.antt =====
-- The numbers of `lexer_next_token`, src/lexer.c. Each character that is stored in `num_buf` or `fp_buf`
-- is passed over once, so the text from the start of the number begins with the buffer. Both have 64
-- bytes, and a write behind them is `stuck`.
use claudec.Base.{
  ℕ, ◌+◌, ◌-◌, ◌^◌, Bool, true, false, ◌&&◌, ◌||◌, not, [], ◌∷◌, ◌++◌, leb, ltb, ◌==◌,
  if◌then◌else◌, Bytes, codes, length, drop, take,
}
use claudec.CType.{TypeKind, int, long, long_long, unsigned_long_long}
use claudec.Memory.{Outcome, ok, fatal, stuck, ◌>>=◌}
use claudec.Long.Text.{read_digits, print_decimal}
use claudec.Lexer.{char_at, run}
use claudec.Lexer.Space.{isdigit}
use claudec.Lexer.Escape.{isxdigit}

abbrev pub num_buf_size : ℕ
num_buf_size = 64

-- `buf[i++] = c`
unfoldable pub put_char : Bytes → ℕ → Outcome Bytes
put_char buf c = if ltb (length buf) num_buf_size then ok (buf ++ c ∷ []) else stuck

-- `while (test(source[pos]) && i < 62)`, for the buffer filled so far from the text of the number.
unfoldable pub put_run : (ℕ → Bool) → Bytes → Bytes → Bytes
put_run t cs buf = buf ++ run t (62 - length buf) (drop (length buf) cs)

-- `source[pos]`, with `buf` behind it.
abbrev pub here : Bytes → Bytes → ℕ
here cs buf = char_at (drop (length buf) cs) 0

abbrev pub is_e : ℕ → Bool
is_e c = (c == b'e') || (c == b'E')

abbrev pub is_f : ℕ → Bool
is_f c = (c == b'f') || (c == b'F')

abbrev pub is_sign : ℕ → Bool
is_sign c = (c == b'+') || (c == b'-')

-- `if (test) { buf[i++] = source[pos]; lexer_advance(lexer); }`
abbrev pub put_if : (ℕ → Bool) → Bytes → Bytes → Outcome Bytes
put_if t cs buf = if t (here cs buf) then put_char buf (here cs buf) else ok buf

-- The exponent, if there is one, and whether there is.
unfoldable pub put_exponent : Bytes → Bytes → Outcome (Bytes × Bool)
put_exponent cs buf =
    if is_e (here cs buf)
    then (do
      b ← put_char buf (here cs buf)
      b' ← put_if is_sign cs b
      ok (put_run isdigit cs b', true))
    else ok (buf, false)

-- The fraction, if there is one, and whether there is. A second dot belongs to an ellipsis.
unfoldable pub put_fraction : Bytes → Bytes → Outcome (Bytes × Bool)
put_fraction cs buf =
    if (here cs buf == b'.') && not (char_at (drop (length buf) cs) 1 == b'.')
    then (do b ← put_char buf b'.'; ok (put_run isdigit cs b, true))
    else ok (buf, false)

-- `buf[i] = '\0'`
abbrev pub terminated : Bytes → Outcome Bytes
terminated buf = if ltb (length buf) num_buf_size then ok buf else stuck

-- What a number is: the text of its buffer, and how it was read.
pub data Number : Type 0 where
  floating : Bytes → Bool → Number
  integer : Bytes → ℕ → Number

-- The suffix and the end of a floating number.
unfoldable pub end_floating : Bytes → Bytes → Outcome Number
end_floating cs buf = do
  b ← put_if is_f cs buf
  b' ← terminated b
  ok (floating b' (is_f (here cs buf)))

-- The branch of the numbers that begin with a dot.
unfoldable pub read_dot_number : Bytes → Outcome Number
read_dot_number cs = do
  (b, exponent) ← put_exponent cs (put_run isdigit cs (b'.' ∷ []))
  end_floating cs b

-- After the digits: an integer of base 10, or a floating number.
unfoldable pub read_decimal : Bytes → Outcome Number
read_decimal cs = do
  (b, fraction) ← put_fraction cs (put_run isdigit cs [])
  (b', exponent) ← put_exponent cs b
  if fraction || exponent then end_floating cs b' else (do t ← terminated b'; ok (integer t 10))

abbrev pub is_bad_octal : ℕ → Bool
is_bad_octal c = (c == b'8') || (c == b'9')

abbrev pub is_octal_digit : ℕ → Bool
is_octal_digit c = isdigit c && not (is_bad_octal c)

-- The loop stops with the message at a digit 8 or 9 that it would store.
unfoldable pub read_octal : Bytes → Outcome Number
read_octal cs =
    let buf = put_run is_octal_digit cs [] in
    if ltb (length buf) 62 && is_bad_octal (here cs buf)
    then fatal (codes "error: invalid digit '" ++ (here cs buf ∷ codes "' in octal constant"))
    else ok (integer buf 8)

unfoldable pub read_hex : Bytes → Outcome Number
read_hex cs =
    if isxdigit (char_at cs 2)
    then ok (integer (put_run isxdigit cs (take 2 cs)) 16)
    else fatal (codes "error: invalid hexadecimal integer literal")

unfoldable pub read_number : Bytes → Outcome Number
read_number cs =
    let n = char_at cs 1 in
    if (char_at cs 0 == b'0') && ((n == b'x') || (n == b'X'))
    then read_hex cs
    else if (char_at cs 0 == b'0') && isdigit n
    then read_octal cs
    else read_decimal cs

abbrev pub is_u : ℕ → Bool
is_u c = (c == b'U') || (c == b'u')

abbrev pub is_suffix : ℕ → Bool
is_suffix c = is_u c || (c == b'L') || (c == b'l')

-- `l_count` and `has_unsigned_suffix`.
unfoldable pub l_count : Bytes → ℕ
l_count [] = 0
l_count (c ∷ cs) = (if is_u c then 0 else 1) + l_count cs

unfoldable pub has_unsigned_suffix : Bytes → Bool
has_unsigned_suffix [] = false
has_unsigned_suffix (c ∷ cs) = is_u c || has_unsigned_suffix cs

-- What `strtoul(num_buf, &end, base)` reads, before it is cut to the range of `unsigned long`.
unfoldable pub digits_value : Bytes → ℕ → ℕ
digits_value buf base = read_digits base 0 (if base == 16 then drop 2 buf else buf)

unfoldable pub integer_literal_type : ℕ → Bool → ℕ → TypeKind
integer_literal_type l unsigned_suffix parsed =
    if l == 2
    then (if unsigned_suffix then unsigned_long_long else long_long)
    else if l == 1
    then long
    else if unsigned_suffix
    then (if leb parsed 4294967295 then int else long)
    else if leb parsed 2147483647
    then int
    else long

-- The fields of an integer token.
pub record Integer : Type 0 where
  pub text : Bytes
  pub long_value : ℕ
  pub kind : TypeKind
  pub is_unsigned : Bool

-- The range of the type that the suffix asks for. Out of range `strtoul` sets ERANGE.
abbrev pub too_large : ℕ → Bool → ℕ → Bool
too_large l unsigned_suffix n =
    leb (2 ^ 64) n || (not unsigned_suffix && not (l == 2) && leb (2 ^ 63) n)

unfoldable pub finish_integer : Bytes → ℕ → Bytes → Outcome Integer
finish_integer buf base suffix =
    let l = l_count suffix in
    let u = has_unsigned_suffix suffix in
    let n = digits_value buf base in
    if ltb 2 l
    then fatal (codes "error: integer literal has too many 'L' suffixes")
    else if too_large l u n
    then fatal (
        codes "error: integer literal '"
        ++ (buf ++ codes "' too large for supported integer types"))
    else ok (record {
      text = if base == 8 then print_decimal n else buf;
      long_value = n;
      kind = integer_literal_type l u n;
      is_unsigned = u;
    })
