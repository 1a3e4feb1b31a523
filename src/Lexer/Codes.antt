-- ===== src/Lexer/Codes.antt =====
-- The numbers of the enumerators of `TokenType`, include/token.h.
use claudec.Base.{ℕ, Bool, ◌==◌}
use claudec.Lexer.{TokenType}

abbrev pub token_code : TokenType → ℕ
token_code TokenType.eof = 0
token_code TokenType.int = 1
token_code TokenType.char = 2
token_code TokenType.short = 3
token_code TokenType.long = 4
token_code TokenType.return = 5
token_code TokenType.if_token = 6
token_code TokenType.else_token = 7
token_code TokenType.while = 8
token_code TokenType.do_token = 9
token_code TokenType.for = 10
token_code TokenType.break = 11
token_code TokenType.continue = 12
token_code TokenType.switch = 13
token_code TokenType.default = 14
token_code TokenType.case = 15
token_code TokenType.goto = 16
token_code TokenType.sizeof = 17
token_code TokenType.extern = 18
token_code TokenType.static = 19
token_code TokenType.typedef = 20
token_code TokenType.enum = 21
token_code TokenType.struct = 22
token_code TokenType.union = 23
token_code TokenType.void = 24
token_code TokenType.float = 25
token_code TokenType.double = 26
token_code TokenType.bool = 27
token_code TokenType.const = 28
token_code TokenType.volatile = 29
token_code TokenType.restrict = 30
token_code TokenType.inline = 31
token_code TokenType.auto = 32
token_code TokenType.register = 33
token_code TokenType.signed = 34
token_code TokenType.unsigned = 35
token_code TokenType.identifier = 36
token_code TokenType.int_literal = 37
token_code TokenType.float_literal = 38
token_code TokenType.double_literal = 39
token_code TokenType.string_literal = 40
token_code TokenType.char_literal = 41
token_code TokenType.lparen = 42
token_code TokenType.rparen = 43
token_code TokenType.lbrace = 44
token_code TokenType.rbrace = 45
token_code TokenType.lbracket = 46
token_code TokenType.rbracket = 47
token_code TokenType.semicolon = 48
token_code TokenType.colon = 49
token_code TokenType.comma = 50
token_code TokenType.plus = 51
token_code TokenType.minus = 52
token_code TokenType.star = 53
token_code TokenType.slash = 54
token_code TokenType.percent = 55
token_code TokenType.bang = 56
token_code TokenType.tilde = 57
token_code TokenType.assign = 58
token_code TokenType.plus_assign = 59
token_code TokenType.minus_assign = 60
token_code TokenType.star_assign = 61
token_code TokenType.slash_assign = 62
token_code TokenType.percent_assign = 63
token_code TokenType.left_shift_assign = 64
token_code TokenType.right_shift_assign = 65
token_code TokenType.amp_assign = 66
token_code TokenType.caret_assign = 67
token_code TokenType.pipe_assign = 68
token_code TokenType.increment = 69
token_code TokenType.decrement = 70
token_code TokenType.eq = 71
token_code TokenType.ne = 72
token_code TokenType.lt = 73
token_code TokenType.le = 74
token_code TokenType.gt = 75
token_code TokenType.ge = 76
token_code TokenType.left_shift = 77
token_code TokenType.right_shift = 78
token_code TokenType.and_and = 79
token_code TokenType.or_or = 80
token_code TokenType.ampersand = 81
token_code TokenType.caret = 82
token_code TokenType.pipe = 83
token_code TokenType.question = 84
token_code TokenType.dot = 85
token_code TokenType.arrow = 86
token_code TokenType.ellipsis = 87
token_code TokenType.unknown = 88

-- `a == b` on two of them.
abbrev pub token_eq : TokenType → TokenType → Bool
token_eq a b = token_code a == token_code b
