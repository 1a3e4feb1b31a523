-- ===== src/Lexer/Names.antt =====
-- `token_display_name` and the keywords of src/lexer.c.
use claudec.Base.{Option, none, some, List, [], ◌∷◌, Bytes, codes, str_eq, if◌then◌else◌}
use claudec.Lexer.{TokenType}

unfoldable pub token_display_name : TokenType → Bytes
token_display_name TokenType.eof = codes "<EOF>"
token_display_name TokenType.int = codes "'int'"
token_display_name TokenType.char = codes "'char'"
token_display_name TokenType.short = codes "'short'"
token_display_name TokenType.long = codes "'long'"
token_display_name TokenType.return = codes "'return'"
token_display_name TokenType.if_token = codes "'if'"
token_display_name TokenType.else_token = codes "'else'"
token_display_name TokenType.while = codes "'while'"
token_display_name TokenType.do_token = codes "'do'"
token_display_name TokenType.for = codes "'for'"
token_display_name TokenType.break = codes "'break'"
token_display_name TokenType.continue = codes "'continue'"
token_display_name TokenType.switch = codes "'switch'"
token_display_name TokenType.default = codes "'default'"
token_display_name TokenType.case = codes "'case'"
token_display_name TokenType.goto = codes "'goto'"
token_display_name TokenType.sizeof = codes "'sizeof'"
token_display_name TokenType.extern = codes "'extern'"
token_display_name TokenType.static = codes "'static'"
token_display_name TokenType.typedef = codes "'typedef'"
token_display_name TokenType.enum = codes "'enum'"
token_display_name TokenType.struct = codes "'struct'"
token_display_name TokenType.union = codes "'union'"
token_display_name TokenType.void = codes "'void'"
token_display_name TokenType.float = codes "'float'"
token_display_name TokenType.double = codes "'double'"
token_display_name TokenType.bool = codes "'_Bool'"
token_display_name TokenType.const = codes "'const'"
token_display_name TokenType.volatile = codes "'volatile'"
token_display_name TokenType.restrict = codes "'restrict'"
token_display_name TokenType.inline = codes "'inline'"
token_display_name TokenType.auto = codes "'auto'"
token_display_name TokenType.register = codes "'register'"
token_display_name TokenType.signed = codes "'signed'"
token_display_name TokenType.unsigned = codes "'unsigned'"
token_display_name TokenType.identifier = codes "identifier"
token_display_name TokenType.int_literal = codes "integer literal"
token_display_name TokenType.float_literal = codes "float literal"
token_display_name TokenType.double_literal = codes "double literal"
token_display_name TokenType.string_literal = codes "string literal"
token_display_name TokenType.char_literal = codes "character literal"
token_display_name TokenType.lparen = codes "'('"
token_display_name TokenType.rparen = codes "')'"
token_display_name TokenType.lbrace = codes "'{'"
token_display_name TokenType.rbrace = codes "'}'"
token_display_name TokenType.lbracket = codes "'['"
token_display_name TokenType.rbracket = codes "']'"
token_display_name TokenType.semicolon = codes "';'"
token_display_name TokenType.colon = codes "':'"
token_display_name TokenType.comma = codes "','"
token_display_name TokenType.plus = codes "'+'"
token_display_name TokenType.minus = codes "'-'"
token_display_name TokenType.star = codes "'*'"
token_display_name TokenType.slash = codes "'/'"
token_display_name TokenType.percent = codes "'%'"
token_display_name TokenType.bang = codes "'!'"
token_display_name TokenType.tilde = codes "'~'"
token_display_name TokenType.assign = codes "'='"
token_display_name TokenType.plus_assign = codes "'+='"
token_display_name TokenType.minus_assign = codes "'-='"
token_display_name TokenType.star_assign = codes "'*='"
token_display_name TokenType.slash_assign = codes "'/='"
token_display_name TokenType.percent_assign = codes "'%='"
token_display_name TokenType.left_shift_assign = codes "'<<='"
token_display_name TokenType.right_shift_assign = codes "'>>='"
token_display_name TokenType.amp_assign = codes "'&='"
token_display_name TokenType.caret_assign = codes "'^='"
token_display_name TokenType.pipe_assign = codes "'|='"
token_display_name TokenType.increment = codes "'++'"
token_display_name TokenType.decrement = codes "'--'"
token_display_name TokenType.eq = codes "'=='"
token_display_name TokenType.ne = codes "'!='"
token_display_name TokenType.lt = codes "'<'"
token_display_name TokenType.le = codes "'<='"
token_display_name TokenType.gt = codes "'>'"
token_display_name TokenType.ge = codes "'>='"
token_display_name TokenType.left_shift = codes "'<<'"
token_display_name TokenType.right_shift = codes "'>>'"
token_display_name TokenType.and_and = codes "'&&'"
token_display_name TokenType.or_or = codes "'||'"
token_display_name TokenType.ampersand = codes "'&'"
token_display_name TokenType.caret = codes "'^'"
token_display_name TokenType.pipe = codes "'|'"
token_display_name TokenType.question = codes "'?'"
token_display_name TokenType.dot = codes "'.'"
token_display_name TokenType.arrow = codes "'->'"
token_display_name TokenType.ellipsis = codes "'...'"
token_display_name TokenType.unknown = codes "<unknown>"

-- A keyword and its token.
pub record Keyword : Type 0 where
  pub text : Bytes
  pub token_type : TokenType

abbrev pub keyword : Bytes → TokenType → Keyword
keyword s k = record { text = s; token_type = k }

-- The chain of comparisons, in its order.
unfoldable pub keywords : List Keyword
keywords =
    keyword (codes "int") TokenType.int
    ∷ keyword (codes "char") TokenType.char
    ∷ keyword (codes "short") TokenType.short
    ∷ keyword (codes "long") TokenType.long
    ∷ keyword (codes "return") TokenType.return
    ∷ keyword (codes "if") TokenType.if_token
    ∷ keyword (codes "else") TokenType.else_token
    ∷ keyword (codes "while") TokenType.while
    ∷ keyword (codes "do") TokenType.do_token
    ∷ keyword (codes "for") TokenType.for
    ∷ keyword (codes "break") TokenType.break
    ∷ keyword (codes "continue") TokenType.continue
    ∷ keyword (codes "switch") TokenType.switch
    ∷ keyword (codes "default") TokenType.default
    ∷ keyword (codes "case") TokenType.case
    ∷ keyword (codes "goto") TokenType.goto
    ∷ keyword (codes "sizeof") TokenType.sizeof
    ∷ keyword (codes "extern") TokenType.extern
    ∷ keyword (codes "static") TokenType.static
    ∷ keyword (codes "typedef") TokenType.typedef
    ∷ keyword (codes "enum") TokenType.enum
    ∷ keyword (codes "struct") TokenType.struct
    ∷ keyword (codes "union") TokenType.union
    ∷ keyword (codes "void") TokenType.void
    ∷ keyword (codes "float") TokenType.float
    ∷ keyword (codes "double") TokenType.double
    ∷ keyword (codes "const") TokenType.const
    ∷ keyword (codes "volatile") TokenType.volatile
    ∷ keyword (codes "restrict") TokenType.restrict
    ∷ keyword (codes "inline") TokenType.inline
    ∷ keyword (codes "auto") TokenType.auto
    ∷ keyword (codes "register") TokenType.register
    ∷ keyword (codes "signed") TokenType.signed
    ∷ keyword (codes "unsigned") TokenType.unsigned
    ∷ keyword (codes "_Bool") TokenType.bool
    ∷ []

unfoldable pub find_keyword : List Keyword → Bytes → Option TokenType
find_keyword [] s = none
find_keyword (k ∷ ks) s = if str_eq s k.text then some k.token_type else find_keyword ks s
