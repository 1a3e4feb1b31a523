-- ===== src/Parser/Types.antt =====
-- `parse_type_specifier`, src/parser.c. Only the kind of the type, which is `*out_kind` too, is left out of
-- the result.
use claudec.Base.{ℕ, Bool, true, false, Option, none, some, if◌then◌else◌, codes}
use claudec.CType.{
  TypeKind, TypeInfo, CType, null, type, cleared, type_void, type_bool, type_char, type_short,
  type_int, type_long, type_long_long, type_unsigned_char, type_unsigned_short, type_unsigned_int,
  type_unsigned_long, type_unsigned_long_long, type_float, type_double,
}
use claudec.Lexer.{TokenType}
use claudec.Parser.{TypedefEntry, done, error, ◌>>=◌, Parse, is, advance}
use claudec.Parser.Tables.{parser_find_typedef}
use claudec.Parser.Tags.{
  skip_if, parse_enum_specifier, parse_struct_specifier, parse_union_specifier,
}

-- The type, after an `int` that may stand here.
unfoldable pub with_int : CType → Parse CType
with_int t p = do p' ← skip_if TokenType.int p; done (t, p')

-- The type, after the current token.
unfoldable pub past : CType → Parse CType
past t p = do p' ← advance p; done (t, p')

-- After `long long`, which a third `long` may not follow.
unfoldable pub after_long_long : CType → Parse CType
after_long_long t p =
    if is TokenType.long p
    then error (codes "error: 'long long long' is not a valid type")
    else with_int t p

-- After a sign and `long`, in either order.
unfoldable pub after_signed_long : CType → CType → Parse CType
after_signed_long once twice p =
    if is TokenType.long p then (do p' ← advance p; after_long_long twice p') else with_int once p

-- After `long long`, where a sign may stand.
unfoldable pub long_long_sign : Parse CType
long_long_sign p =
    if is TokenType.long p
    then error (codes "error: 'long long long' is not a valid type")
    else if is TokenType.unsigned p
    then (do p' ← advance p; with_int type_unsigned_long_long p')
    else if is TokenType.signed p
    then (do p' ← advance p; with_int type_long_long p')
    else with_int type_long_long p

-- After `long`.
unfoldable pub after_long : Parse CType
after_long p =
    if is TokenType.unsigned p
    then (do p' ← advance p; after_signed_long type_unsigned_long type_unsigned_long_long p')
    else if is TokenType.signed p
    then (do p' ← advance p; after_signed_long type_long type_long_long p')
    else if is TokenType.long p
    then (do p' ← advance p; long_long_sign p')
    else if is TokenType.double p
    then past type_double p
    else with_int type_long p

-- The types that a sign can be given to, with it.
pub record Signs : Type 0 where
  pub of_char : CType
  pub of_short : CType
  pub of_int : CType
  pub of_long : CType
  pub of_long_long : CType

abbrev pub signed_types : Signs
signed_types = record {
  of_char = type_char;
  of_short = type_short;
  of_int = type_int;
  of_long = type_long;
  of_long_long = type_long_long;
}

abbrev pub unsigned_types : Signs
unsigned_types = record {
  of_char = type_unsigned_char;
  of_short = type_unsigned_short;
  of_int = type_unsigned_int;
  of_long = type_unsigned_long;
  of_long_long = type_unsigned_long_long;
}

-- After `signed` or `unsigned`, where the other one may not stand.
unfoldable pub after_sign : TokenType → Signs → Parse CType
after_sign other s p =
    if is other p
    then error (codes "error: 'signed' and 'unsigned' cannot both be specified")
    else if is TokenType.bool p
    then error (codes "error: _Bool type cannot have a sign qualifier")
    else if is TokenType.char p
    then past s.of_char p
    else if is TokenType.short p
    then (do p' ← advance p; with_int s.of_short p')
    else if is TokenType.int p
    then past s.of_int p
    else if is TokenType.long p
    then (do p' ← advance p; after_signed_long s.of_long s.of_long_long p')
    else done (s.of_int, p)

abbrev pub kind_type : TypeKind → CType
kind_type TypeKind.char = type_char
kind_type TypeKind.short = type_short
kind_type TypeKind.long = type_long
kind_type TypeKind.long_long = type_long_long
kind_type TypeKind.unsigned_long_long = type_unsigned_long_long
kind_type _ = type_int

abbrev pub or_kind_type : CType → TypeKind → CType
or_kind_type null kind = kind_type kind
or_kind_type t kind = t

abbrev pub is_short_or_long : TypeKind → Bool
is_short_or_long TypeKind.short = true
is_short_or_long TypeKind.long = true
is_short_or_long _ = false

abbrev pub typedef_int : Bool → CType → Parse CType
typedef_int b t p = if b then with_int t p else done (t, p)

abbrev pub of_typedef : Option TypedefEntry → Parse CType
of_typedef none p = error (codes "error: unknown type name '%s'")
of_typedef (some e) p = do
  p' ← advance p
  typedef_int (is_short_or_long e.kind) (or_kind_type e.full_type e.kind) p'

-- The fields of a type that is not NULL.
abbrev no_info : TypeInfo
no_info = cleared TypeKind.void

abbrev pub info : CType → TypeInfo
info null = no_info
info (type i b ps fs) = i

abbrev pub base_of : CType → CType
base_of null = null
base_of (type i b ps fs) = b

abbrev pub type_kind : CType → TypeKind
type_kind t = (info t).kind

unfoldable pub parse_type_specifier : Parse ℕ → Parse CType
parse_type_specifier eval_const_expr p =
    if is TokenType.void p
    then past type_void p
    else if is TokenType.bool p
    then past type_bool p
    else if is TokenType.char p
    then past type_char p
    else if is TokenType.short p
    then (do p' ← advance p; with_int type_short p')
    else if is TokenType.float p
    then past type_float p
    else if is TokenType.double p
    then past type_double p
    else if is TokenType.long p
    then (do p' ← advance p; after_long p')
    else if is TokenType.int p
    then past type_int p
    else if is TokenType.signed p
    then (do p' ← advance p; after_sign TokenType.unsigned signed_types p')
    else if is TokenType.unsigned p
    then (do p' ← advance p; after_sign TokenType.signed unsigned_types p')
    else if is TokenType.identifier p
    then of_typedef (parser_find_typedef p p.current.value) p
    else if is TokenType.enum p
    then parse_enum_specifier eval_const_expr p
    else if is TokenType.struct p
    then parse_struct_specifier p
    else if is TokenType.union p
    then parse_union_specifier p
    else error (codes "error: expected integer type, got '%s'")
