-- ===== src/Parser/Words.antt =====
-- The types that keywords stand for: the table of the C standard, as far as src/parser.c takes it.
use claudec.Base.{Bool, true, false, List, [], ◌∷◌, ◌≡◌, ℕ, ◌≢◌, refl}
use claudec.CType.{
  TypeKind, CType, type_void, type_bool, type_char, type_short, type_int, type_long, type_long_long,
  type_float, type_double, type_pointer, type_const_copy, type_volatile_copy, null, type,
  type_array, type_unsigned_char, type_unsigned_short, type_unsigned_int, type_unsigned_long,
  type_unsigned_long_long,
}
use claudec.Lexer.{TokenType}
use claudec.Parser.Types.{Signs, type_kind, kind_type, or_kind_type}
use claudec.Parser.{TypedefEntry}
use claudec.Parser.Tables.{build_array_type_from_dims}
use claudec.Parser.Runs.{View, Next}
use claudec.Parser.Symbols.{Optional}

-- A keyword that is a sign, and the types that it gives.
pub data SignWord : TokenType → Signs → Type 0 where
  signed : SignWord TokenType.signed (record {
    of_char = type_char;
    of_short = type_short;
    of_int = type_int;
    of_long = type_long;
    of_long_long = type_long_long;
  })
  unsigned : SignWord TokenType.unsigned (record {
    of_char = type_unsigned_char;
    of_short = type_unsigned_short;
    of_int = type_unsigned_int;
    of_long = type_unsigned_long;
    of_long_long = type_unsigned_long_long;
  })

pub data Words : List TokenType → CType → Type 0 where
  void : Words (TokenType.void ∷ []) type_void
  bool : Words (TokenType.bool ∷ []) type_bool
  char : Words (TokenType.char ∷ []) type_char
  short : Words (TokenType.short ∷ []) type_short
  int : Words (TokenType.int ∷ []) type_int
  long : Words (TokenType.long ∷ []) type_long
  long_long : Words (TokenType.long ∷ (TokenType.long ∷ [])) type_long_long
  float : Words (TokenType.float ∷ []) type_float
  double : Words (TokenType.double ∷ []) type_double
  -- A `long double` is a `double` here.
  long_double : Words (TokenType.long ∷ (TokenType.double ∷ [])) type_double
  sign : {k : TokenType} {s : Signs} → SignWord k s → Words (k ∷ []) s.of_int
  sign_char :
      {k : TokenType} {s : Signs} → SignWord k s → Words (k ∷ (TokenType.char ∷ [])) s.of_char
  sign_short :
      {k : TokenType} {s : Signs} → SignWord k s → Words (k ∷ (TokenType.short ∷ [])) s.of_short
  sign_int : {k : TokenType} {s : Signs} → SignWord k s → Words (k ∷ (TokenType.int ∷ [])) s.of_int
  sign_long :
      {k : TokenType} {s : Signs} → SignWord k s → Words (k ∷ (TokenType.long ∷ [])) s.of_long
  sign_long_long :
      {k : TokenType} {s : Signs}
      → SignWord k s
      → Words (k ∷ (TokenType.long ∷ (TokenType.long ∷ []))) s.of_long_long
  long_sign :
      {k : TokenType} {s : Signs} → SignWord k s → Words (TokenType.long ∷ (k ∷ [])) s.of_long
  long_sign_long :
      {k : TokenType} {s : Signs}
      → SignWord k s
      → Words (TokenType.long ∷ (k ∷ (TokenType.long ∷ []))) s.of_long_long
  long_long_sign :
      {k : TokenType} {s : Signs}
      → SignWord k s
      → Words (TokenType.long ∷ (TokenType.long ∷ (k ∷ []))) s.of_long_long

pub data Passes : List TokenType → View → View → Type 0 where
  stop : {v : View} → Passes [] v v
  pass :
      {k : TokenType} {ks : List TokenType} {v v' w : View}
      → Next k v v'
      → Passes ks v' w
      → Passes (k ∷ ks) v w

-- The types behind whose keywords `int` may stand.
abbrev pub takes_int : TypeKind → Bool
takes_int TypeKind.short = true
takes_int TypeKind.long = true
takes_int TypeKind.long_long = true
takes_int TypeKind.unsigned_long_long = true
takes_int _ = false

-- The keywords of a type.
pub data Specifier (t : CType) : View → View → Type 0 where
  words : {ks : List TokenType} {v w : View} → Words ks t → Passes ks v w → Specifier t v w
  with_int :
      {ks : List TokenType} {v v' w : View}
      → Words ks t
      → takes_int (type_kind t) ≡ true
      → Passes ks v v'
      → Optional TokenType.int v' w
      → Specifier t v w

pub data Qualifier : TokenType → Type 0 where
  const : Qualifier TokenType.const
  volatile : Qualifier TokenType.volatile
  restrict : Qualifier TokenType.restrict

pub data Qualifiers : View → View → Type 0 where
  no_qualifier : {v : View} → Qualifiers v v
  qualifier :
      {k : TokenType} {v v' w : View} → Qualifier k → Next k v v' → Qualifiers v' w → Qualifiers v w

-- Each star makes a pointer, and qualifiers may follow it.
pub data Stars : CType → View → View → CType → Type 0 where
  no_star : {t : CType} {v : View} → Stars t v v t
  star :
      {t u : CType} {v v₁ v₂ w : View}
      → Next TokenType.star v v₁
      → Qualifiers v₁ v₂
      → Stars (type_pointer t) v₂ w u
      → Stars t v w u

-- The qualifier before a type, with what it makes of it.
pub data Qualified : View → View → (CType → CType) → Type 0 where
  plain : {v : View} → Qualified v v (λ t. t)
  constant : {v w : View} → Next TokenType.const v w → Qualified v w type_const_copy
  changing : {v w : View} → Next TokenType.volatile v w → Qualified v w type_volatile_copy

-- An array of the dimensions, of which the first is the outermost.
pub data ArrayOf (t : CType) : List ℕ → CType → Type 0 where
  no_array : ArrayOf t [] t
  array_of :
      {n : ℕ} {ns : List ℕ} {u : CType} → ArrayOf t ns u → ArrayOf t (n ∷ ns) (type_array u n)

pub build_array_type_from_dims-ArrayOf :
    (t : CType) (ns : List ℕ) → ArrayOf t ns (build_array_type_from_dims t ns)
unfolding build_array_type_from_dims
build_array_type_from_dims-ArrayOf t [] = no_array
build_array_type_from_dims-ArrayOf t (n ∷ ns) = array_of (build_array_type_from_dims-ArrayOf t ns)

-- The types of the integer kinds. Any other kind stands for `int`.
pub data KindType : TypeKind → CType → Type 0 where
  char_kind : KindType TypeKind.char type_char
  short_kind : KindType TypeKind.short type_short
  long_kind : KindType TypeKind.long type_long
  long_long_kind : KindType TypeKind.long_long type_long_long
  unsigned_long_long_kind : KindType TypeKind.unsigned_long_long type_unsigned_long_long
  void_kind : KindType TypeKind.void type_int
  bool_kind : KindType TypeKind.bool type_int
  int_kind : KindType TypeKind.int type_int
  float_kind : KindType TypeKind.float type_int
  double_kind : KindType TypeKind.double type_int
  pointer_kind : KindType TypeKind.pointer type_int
  array_kind : KindType TypeKind.array type_int
  function_kind : KindType TypeKind.function type_int
  struct_kind : KindType TypeKind.struct type_int
  union_kind : KindType TypeKind.union type_int

kind_type-KindType : (k : TypeKind) → KindType k (kind_type k)
kind_type-KindType TypeKind.char = char_kind
kind_type-KindType TypeKind.short = short_kind
kind_type-KindType TypeKind.long = long_kind
kind_type-KindType TypeKind.long_long = long_long_kind
kind_type-KindType TypeKind.unsigned_long_long = unsigned_long_long_kind
kind_type-KindType TypeKind.void = void_kind
kind_type-KindType TypeKind.bool = bool_kind
kind_type-KindType TypeKind.int = int_kind
kind_type-KindType TypeKind.float = float_kind
kind_type-KindType TypeKind.double = double_kind
kind_type-KindType TypeKind.pointer = pointer_kind
kind_type-KindType TypeKind.array = array_kind
kind_type-KindType TypeKind.function = function_kind
kind_type-KindType TypeKind.struct = struct_kind
kind_type-KindType TypeKind.union = union_kind

-- A typedef stands for its type, or for that of its kind where it has none.
pub data TypedefType (e : TypedefEntry) : CType → Type 0 where
  full : e.full_type ≢ null → TypedefType e e.full_type
  by_kind : {t : CType} → e.full_type ≡ null → KindType e.kind t → TypedefType e t

pub or_kind_type-TypedefType : (e : TypedefEntry) → TypedefType e (or_kind_type e.full_type e.kind)
or_kind_type-TypedefType e = by_type e.full_type refl
  where
    by_type : (t : CType) → e.full_type ≡ t → TypedefType e (or_kind_type t e.kind)
    by_type null h = by_kind h (kind_type-KindType e.kind)
    by_type (type i b ps fs) h = rw (← h) (full (λ n. cc))
