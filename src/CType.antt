-- ===== src/CType.antt =====
-- The compiler's view of C types: include/type.h and src/type.c.
--
-- An `int` of the source is its bit pattern below 2 ^ 32, so a product wraps by `%`. A `Type *` is
-- `null` or a record of the plain fields with the base type, the parameters and the struct fields.
-- `calloc` always succeeds here, and the fields that it clears are those of `cleared`. The
-- singletons of the source are never written to, so a value stands for its pointer.
pub mod Rules
pub mod Call
pub mod Placed
pub mod Slots
pub mod Laws
pub mod Arith
use claudec.Base.{ℕ, zero, suc, ◌*◌, ◌%◌, ◌^◌, Bool, true, false, ◌==◌, Bytes, codes}

pub data TypeKind : Type 0 where
  void bool char short int long long_long unsigned_long_long : TypeKind
  float double pointer array function struct union : TypeKind

-- The number of the enumerator.
abbrev pub kind_code : TypeKind → ℕ
kind_code void = 0
kind_code bool = 1
kind_code char = 2
kind_code short = 3
kind_code int = 4
kind_code long = 5
kind_code long_long = 6
kind_code unsigned_long_long = 7
kind_code float = 8
kind_code double = 9
kind_code pointer = 10
kind_code array = 11
kind_code function = 12
kind_code struct = 13
kind_code union = 14

abbrev pub kind_eq : TypeKind → TypeKind → Bool
kind_eq a b = kind_code a == kind_code b

pub record FieldInfo : Type 0 where
  pub name : Bytes
  pub offset : ℕ
  pub kind : TypeKind
  pub is_const : Bool
  pub is_volatile : Bool
  pub is_bitfield : Bool
  pub bit_width : ℕ
  pub bit_offset : ℕ
  pub is_flexible_array : Bool

pub record TypeInfo : Type 0 where
  pub kind : TypeKind
  pub size : ℕ
  pub alignment : ℕ
  pub is_signed : Bool
  pub length : ℕ
  pub param_count : ℕ
  pub field_count : ℕ
  pub is_const : Bool
  pub is_volatile : Bool

-- `Type *` with the arrays that it owns. Slots of `params` that were never filled are not listed.
mutual
  pub data CType : Type 0 where
    null : CType
    type : TypeInfo → CType → Params → Fields → CType

  pub data Params : Type 0 where
    no_param : Params
    param : CType → Params → Params

  pub data Fields : Type 0 where
    no_field : Fields
    field : FieldInfo → CType → Fields → Fields

abbrev pub scalar : TypeKind → ℕ → Bool → TypeInfo
scalar k n s = record {
  kind = k;
  size = n;
  alignment = n;
  is_signed = s;
  length = 0;
  param_count = 0;
  field_count = 0;
  is_const = false;
  is_volatile = false;
}

-- What `calloc` leaves, with a kind.
abbrev pub cleared : TypeKind → TypeInfo
cleared k = scalar k 0 false

abbrev pub singleton : TypeInfo → CType
singleton i = type i null no_param no_field

abbrev pub type_void : CType
type_void = singleton (scalar void 0 false)

abbrev pub type_bool : CType
type_bool = singleton (scalar bool 1 false)

abbrev pub type_char : CType
type_char = singleton (scalar char 1 true)

abbrev pub type_short : CType
type_short = singleton (scalar short 2 true)

abbrev pub type_int : CType
type_int = singleton (scalar int 4 true)

abbrev pub type_long : CType
type_long = singleton (scalar long 8 true)

abbrev pub type_long_long : CType
type_long_long = singleton (scalar long_long 8 true)

abbrev pub type_unsigned_char : CType
type_unsigned_char = singleton (scalar char 1 false)

abbrev pub type_unsigned_short : CType
type_unsigned_short = singleton (scalar short 2 false)

abbrev pub type_unsigned_int : CType
type_unsigned_int = singleton (scalar int 4 false)

abbrev pub type_unsigned_long : CType
type_unsigned_long = singleton (scalar long 8 false)

abbrev pub type_unsigned_long_long : CType
type_unsigned_long_long = singleton (scalar unsigned_long_long 8 false)

abbrev pub type_float : CType
type_float = singleton (scalar float 4 false)

abbrev pub type_double : CType
type_double = singleton (scalar double 8 false)

unfoldable pub type_pointer : CType → CType
type_pointer base = type (scalar pointer 8 false) base no_param no_field

unfoldable pub type_size : CType → ℕ
type_size null = 0
type_size (type i _ _ _) = i.size

unfoldable pub type_alignment : CType → ℕ
type_alignment null = 0
type_alignment (type i _ _ _) = i.alignment

-- The element type is not NULL: `type_array` reads its size.
unfoldable pub type_array : CType → ℕ → CType
unfolding type_size type_alignment
type_array element n =
    type
      (record (cleared array) {
        size = (type_size element * n) % 2 ^ 32;
        alignment = type_alignment element;
        length = n;
      })
      element no_param no_field

abbrev pub func_type_max_params : ℕ
func_type_max_params = 16

-- The first `room` of the parameters.
abbrev pub keep_params : ℕ → Params → Params
keep_params zero ps = no_param
keep_params (suc room) no_param = no_param
keep_params (suc room) (param t ps) = param t (keep_params room ps)

abbrev pub count_params : Params → ℕ
count_params no_param = 0
count_params (param _ ps) = suc (count_params ps)

-- `param_count` is the length of the array that the caller passes.
unfoldable pub type_function : CType → Params → CType
type_function result ps =
    type (record (cleared function) { param_count = count_params ps }) result
      (keep_params func_type_max_params ps) no_field

-- The argument is dereferenced, so it is not NULL.
unfoldable pub type_const_copy : CType → CType
type_const_copy null = null
type_const_copy (type i b ps fs) = type (record i { is_const = true }) b ps fs

unfoldable pub type_volatile_copy : CType → CType
type_volatile_copy null = null
type_volatile_copy (type i b ps fs) = type (record i { is_volatile = true }) b ps fs

unfoldable pub type_struct : ℕ → ℕ → CType
type_struct n a = singleton (record (cleared struct) { size = n; alignment = a })

unfoldable pub type_union : ℕ → ℕ → CType
type_union n a = singleton (record (cleared union) { size = n; alignment = a })

abbrev pub type_kind_name : TypeKind → Bytes
type_kind_name void = codes "void"
type_kind_name bool = codes "_Bool"
type_kind_name char = codes "char"
type_kind_name short = codes "short"
type_kind_name int = codes "int"
type_kind_name long = codes "long"
type_kind_name long_long = codes "long long"
type_kind_name unsigned_long_long = codes "unsigned long long"
type_kind_name float = codes "float"
type_kind_name double = codes "double"
type_kind_name pointer = codes "pointer"
type_kind_name array = codes "array"
type_kind_name function = codes "function"
type_kind_name struct = codes "struct"
type_kind_name union = codes "union"

abbrev is_integer_kind : TypeKind → Bool
is_integer_kind bool = true
is_integer_kind char = true
is_integer_kind short = true
is_integer_kind int = true
is_integer_kind long = true
is_integer_kind long_long = true
is_integer_kind unsigned_long_long = true
is_integer_kind _ = false

unfoldable pub type_is_integer : CType → Bool
type_is_integer null = false
type_is_integer (type i _ _ _) = is_integer_kind i.kind
