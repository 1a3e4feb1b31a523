-- ===== src/Lexer.antt =====
-- The scanner: src/lexer.c, include/lexer.h and include/token.h.
--
-- The source text is the list of its bytes up to the terminating 0, and `rest` is the part from `pos`
-- on. A string of the pool is its bytes, and `value_len` is their number. `file` is an index into
-- `file_pool`. That an allocation fails, and that `line` or `col` exceeds an `int`, is not modelled.
pub mod Names
pub mod Codes
pub mod Space
pub mod Punct
pub mod Escape
pub mod Number
pub mod Next
pub mod Bounds
pub mod Skipped
pub mod Spelling
pub mod Literals
pub mod Operators
pub mod Progress
pub mod Scanning
pub mod RoundTrip
pub mod Values
use claudec.Base.{
  ℕ, zero, suc, ◌+◌, Bool, false, Option, none, some, List, [], ◌∷◌, ◌++◌, ◌==◌, if◌then◌else◌,
  Bytes, str_eq, length,
}
use claudec.CType.{TypeKind, void as no_type}

pub data TokenType : Type 0 where
  eof int char short long return if_token else_token while do_token for break : TokenType
  continue switch default case goto sizeof extern static typedef enum struct union : TokenType
  void float double bool const volatile restrict inline auto register signed : TokenType
  unsigned identifier int_literal float_literal double_literal string_literal : TokenType
  char_literal lparen rparen lbrace rbrace lbracket rbracket semicolon colon comma : TokenType
  plus minus star slash percent bang tilde assign plus_assign minus_assign : TokenType
  star_assign slash_assign percent_assign left_shift_assign right_shift_assign : TokenType
  amp_assign caret_assign pipe_assign increment decrement eq ne lt le gt ge : TokenType
  left_shift right_shift and_and or_or ampersand caret pipe question dot arrow : TokenType
  ellipsis unknown : TokenType

-- `Token`. The lexeme is NULL for the end of the file, and the value otherwise.
pub record Token : Type 0 where
  pub token_type : TokenType
  pub lexeme : Option Bytes
  pub value : Bytes
  pub long_value : ℕ
  pub literal_type : TypeKind
  pub is_unsigned : Bool
  pub line : ℕ
  pub col : ℕ
  pub file : Option ℕ

pub record Lexer : Type 0 where
  pub rest : Bytes
  pub pos : ℕ
  pub line : ℕ
  pub col : ℕ
  pub file : Option ℕ
  pub file_pool : List Bytes
  pub str_pool : List Bytes

-- `source[pos + i]`, with the terminator after the last byte.
abbrev pub char_at : Bytes → ℕ → ℕ
char_at [] i = 0
char_at (c ∷ cs) zero = c
char_at (c ∷ cs) (suc i) = char_at cs i

-- `while (test(source[pos]) && i < limit) { ...; lexer_advance(lexer); }`: what is passed over.
unfoldable pub run : (ℕ → Bool) → ℕ → Bytes → Bytes
run t zero cs = []
run t (suc limit) [] = []
run t (suc limit) (c ∷ cs) = if t c then c ∷ run t limit cs else []

unfoldable pub lexer_advance_over : ℕ → Bytes → Lexer → Lexer
lexer_advance_over c cs l =
    if c == b'\n'
    then record l { rest = cs; pos = l.pos + 1; line = l.line + 1; col = 1 }
    else record l { rest = cs; pos = l.pos + 1; col = l.col + 1 }

-- At the terminator the position would leave the text.
abbrev pub advance_from : Bytes → Lexer → Lexer
advance_from [] l = record l { pos = l.pos + 1; col = l.col + 1 }
advance_from (c ∷ cs) l = lexer_advance_over c cs l

unfoldable pub lexer_advance : Lexer → Lexer
unfolding lexer_advance_over
lexer_advance l = advance_from l.rest l

-- n calls of `lexer_advance`.
unfoldable pub advance_by : ℕ → Lexer → Lexer
advance_by zero l = l
advance_by (suc n) l = advance_by n (lexer_advance l)

-- The index of the path in the pool, if it is there.
unfoldable pub find_file : List Bytes → Bytes → ℕ → Option ℕ
find_file [] path i = none
find_file (p ∷ ps) path i =
    let later = find_file ps path (suc i) in if str_eq p path then some i else later

abbrev pub file_or_new : Lexer → Bytes → Option ℕ → Lexer × ℕ
file_or_new l path (some i) = (l, i)
file_or_new l path none = (record l { file_pool = l.file_pool ++ path ∷ [] }, length l.file_pool)

unfoldable pub lexer_intern_file : Lexer → Bytes → Lexer × ℕ
lexer_intern_file l path = file_or_new l path (find_file l.file_pool path 0)

-- The result is the stored bytes.
unfoldable pub lexer_store_bytes : Lexer → Bytes → Lexer
lexer_store_bytes l bytes = record l { str_pool = l.str_pool ++ bytes ∷ [] }

abbrev opened : Lexer → Option Bytes → Lexer
opened l none = l
opened l (some path) = let (l', i) = lexer_intern_file l path in record l' { file = some i }

unfoldable pub lexer_init : Bytes → Option Bytes → Lexer
lexer_init source filename =
    opened
      (record {
        rest = source;
        pos = 0;
        line = 1;
        col = 1;
        file = none;
        file_pool = [];
        str_pool = [];
      })
      filename

unfoldable pub lexer_free : Lexer → Lexer
lexer_free l = record l { file_pool = []; str_pool = [] }

-- The token at the position of the lexer, before it has a type.
unfoldable pub token_set_pos : Lexer → Token
token_set_pos l = record {
  token_type = TokenType.eof;
  lexeme = none;
  value = [];
  long_value = 0;
  literal_type = no_type;
  is_unsigned = false;
  line = l.line;
  col = l.col;
  file = l.file;
}

-- The three assignments that give a token its type and text.
abbrev pub with_text : Token → TokenType → Bytes → Token
with_text t k s = record t { token_type = k; lexeme = some s; value = s }
