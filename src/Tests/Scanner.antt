-- ===== src/Tests/Scanner.antt =====
-- Runs of the lexer.
use claudec.Base.{none, List, [], ◌∷◌, ◌++◌, ◌≡◌, refl, inl, arith, Bytes, codes, replicate, str_eq}
use claudec.Memory.{Outcome, ok, fatal, stuck, Ensures}
use claudec.Lexer.{
  TokenType, Token, Lexer, lexer_init, run, lexer_advance_over, lexer_advance, advance_by,
  find_file, lexer_intern_file, lexer_store_bytes, lexer_free, token_set_pos,
}
use claudec.Lexer.Names.{token_display_name, keywords, find_keyword}
use claudec.Long.Text.{read_digits, print_decimal, put_digits}
use claudec.Lexer.Space.{
  lexer_skip_whitespace, line_number, jump, jump_if, lexer_parse_location_marker, skip_from,
}
use claudec.Lexer.Punct.{
  next_punct, single_punct, dot_punct, arith_punct, relational_punct, bitwise_punct,
}
use claudec.Lexer.Escape.{
  read_string, read_char, hex_value, octal_value, string_letter, char_letter, read_escape,
  string_escape, close_char,
}
use claudec.Lexer.Number.{
  read_decimal, read_number, finish_integer, put_char, put_run, put_exponent, put_fraction,
  end_floating, read_dot_number, read_octal, read_hex, l_count, has_unsigned_suffix, digits_value,
  integer_literal_type,
}
use claudec.Lexer.Next.{
  lexer_next_token, all_tokens, string_token, char_token, number_token, word_token, other_token,
  token_here,
}
use claudec.Lexer.Skipped.{IsSkipped, InText, lexer_skip_whitespace-IsSkipped}
use claudec.Lexer.Progress.{Passed, lexer_next_token-Passed}
use claudec.Lexer.Scanning.{Scanned, all_tokens-Scanned}
use claudec.Lexer.RoundTrip.{
  quote_bytes, AreBytes, read_back, read_string-quote_bytes, read_string-unclosed,
}
use claudec.Lexer.Values.{IsRanged, finish_integer-IsRanged}

abbrev statement : Lexer
statement = lexer_init (codes "  if (x1 >= 0x1F)\n\treturn \"a\\n\";") none

abbrev types_of : Outcome (List Token) → List TokenType
types_of (ok []) = []
types_of (ok (t ∷ ts)) = t.token_type ∷ types_of (ok ts)
types_of (fatal m) = []
types_of stuck = []

tokens_test :
    types_of (all_tokens 40 statement)
    ≡ TokenType.if_token ∷ TokenType.lparen ∷ TokenType.identifier ∷ TokenType.ge
      ∷ TokenType.int_literal ∷ TokenType.rparen ∷ TokenType.return ∷ TokenType.string_literal
      ∷ TokenType.semicolon ∷ TokenType.eof ∷ []
unfolding run lexer_advance_over lexer_advance advance_by find_file lexer_intern_file
    lexer_store_bytes lexer_init lexer_free token_set_pos token_display_name keywords find_keyword
    line_number jump jump_if lexer_parse_location_marker skip_from lexer_skip_whitespace
    single_punct dot_punct arith_punct relational_punct bitwise_punct next_punct hex_value
    octal_value string_letter char_letter read_escape string_escape read_string close_char read_char
    put_char put_run put_exponent put_fraction end_floating read_dot_number read_decimal read_octal
    read_hex read_number l_count has_unsigned_suffix digits_value integer_literal_type
    finish_integer string_token char_token number_token word_token other_token token_here
    lexer_next_token all_tokens read_digits print_decimal put_digits str_eq
tokens_test = refl

-- A floating constant that begins with an octal prefix is read as two tokens.
leading_zero_test :
    types_of (all_tokens 9 (lexer_init (codes "01.5") none))
    ≡ TokenType.int_literal ∷ TokenType.double_literal ∷ TokenType.eof ∷ []
unfolding run lexer_advance_over lexer_advance advance_by find_file lexer_intern_file
    lexer_store_bytes lexer_init lexer_free token_set_pos token_display_name keywords find_keyword
    line_number jump jump_if lexer_parse_location_marker skip_from lexer_skip_whitespace
    single_punct dot_punct arith_punct relational_punct bitwise_punct next_punct hex_value
    octal_value string_letter char_letter read_escape string_escape read_string close_char read_char
    put_char put_run put_exponent put_fraction end_floating read_dot_number read_decimal read_octal
    read_hex read_number l_count has_unsigned_suffix digits_value integer_literal_type
    finish_integer string_token char_token number_token word_token other_token token_here
    lexer_next_token all_tokens read_digits print_decimal put_digits
leading_zero_test = refl

-- 62 digits and then two characters fill the buffer of 64 bytes.
overflow_test : read_decimal (replicate 62 b'1' ++ codes ".e+5") ≡ stuck
unfolding run lexer_advance_over lexer_advance advance_by find_file lexer_intern_file
    lexer_store_bytes lexer_init lexer_free token_set_pos token_display_name keywords find_keyword
    line_number jump jump_if lexer_parse_location_marker skip_from lexer_skip_whitespace
    single_punct dot_punct arith_punct relational_punct bitwise_punct next_punct hex_value
    octal_value string_letter char_letter read_escape string_escape read_string close_char read_char
    put_char put_run put_exponent put_fraction end_floating read_dot_number read_decimal read_octal
    read_hex read_number l_count has_unsigned_suffix digits_value integer_literal_type
    finish_integer string_token char_token number_token word_token other_token token_here
    lexer_next_token all_tokens read_digits print_decimal put_digits
overflow_test = refl

char_test : read_char (codes "\\x41'") ≡ ok (record { byte = 65; width = 4 })
unfolding run lexer_advance_over lexer_advance advance_by find_file lexer_intern_file
    lexer_store_bytes lexer_init lexer_free token_set_pos token_display_name keywords find_keyword
    line_number jump jump_if lexer_parse_location_marker skip_from lexer_skip_whitespace
    single_punct dot_punct arith_punct relational_punct bitwise_punct next_punct hex_value
    octal_value string_letter char_letter read_escape string_escape read_string close_char read_char
    put_char put_run put_exponent put_fraction end_floating read_dot_number read_decimal read_octal
    read_hex read_number l_count has_unsigned_suffix digits_value integer_literal_type
    finish_integer string_token char_token number_token word_token other_token token_here
    lexer_next_token all_tokens read_digits print_decimal put_digits
char_test = refl

lexer_next_token-Passed_example : Ensures (Passed statement) (lexer_next_token statement)
lexer_next_token-Passed_example = lexer_next_token-Passed statement

all_tokens-Scanned_example : Scanned statement (all_tokens 40 statement)
all_tokens-Scanned_example = all_tokens-Scanned 40 statement (unfold lexer_init in omega arith)

lexer_skip_whitespace-IsSkipped_example :
    IsSkipped (lexer_skip_whitespace statement) × InText statement (lexer_skip_whitespace statement)
lexer_skip_whitespace-IsSkipped_example = lexer_skip_whitespace-IsSkipped statement

abbrev some_bytes : Bytes
some_bytes = b'a' ∷ 0 ∷ b'"' ∷ 200 ∷ 10 ∷ []

some_bytes-AreBytes : AreBytes some_bytes
unfolding AreBytes
some_bytes-AreBytes = (omega arith, (omega arith, (omega arith, (omega arith, (omega arith, tt)))))

read_string-quote_bytes_example :
    read_string 18 (quote_bytes some_bytes ++ codes "\";") ≡ ok (read_back some_bytes)
read_string-quote_bytes_example =
    read_string-quote_bytes some_bytes (codes ";") 18 some_bytes-AreBytes
      (unfold quote_bytes in omega arith)

read_string-unclosed_example :
    (read_string 18 (quote_bytes some_bytes ++ [])
      ≡ fatal (codes "error: unterminated string literal"))
    × (read_string 18 (quote_bytes some_bytes ++ (b'\n' ∷ codes "x"))
        ≡ fatal (codes "error: newline in string literal"))
read_string-unclosed_example =
    read_string-unclosed some_bytes (codes "x") 18 some_bytes-AreBytes
      (unfold quote_bytes in omega arith)

finish_integer-IsRanged_example :
    Ensures (IsRanged (codes "0777") 8) (finish_integer (codes "0777") 8 (codes "UL"))
finish_integer-IsRanged_example = finish_integer-IsRanged (codes "0777") 8 (codes "UL") (inl refl)
