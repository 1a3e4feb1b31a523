-- ===== src/CType/Rules.antt =====
-- How the code generator classifies types (src/codegen.c): pointer compatibility, the usual
-- arithmetic conversions and the passing of structs in registers.
use claudec.Base.{ℕ, ◌^◌, Bool, true, false, not, ◌&&◌, ◌||◌, ◌==◌, leb, ltb, if◌then◌else◌}
use claudec.CType.{
  TypeKind, void, bool, char, short, int, long, long_long, unsigned_long_long, float, double,
  pointer, array, function, struct, union, kind_eq, CType, null, type,
}

unfoldable pub type_kind_bytes : TypeKind → ℕ
type_kind_bytes void = 0
type_kind_bytes bool = 1
type_kind_bytes char = 1
type_kind_bytes short = 2
type_kind_bytes int = 4
type_kind_bytes long = 8
type_kind_bytes long_long = 8
type_kind_bytes unsigned_long_long = 8
type_kind_bytes float = 4
type_kind_bytes double = 8
type_kind_bytes pointer = 8
type_kind_bytes array = 0
type_kind_bytes function = 0
type_kind_bytes struct = 0
type_kind_bytes union = 0

unfoldable pub type_is_fp : TypeKind → Bool
type_is_fp k = kind_eq k float || kind_eq k double

unfoldable pub is_struct_or_union_kind : TypeKind → Bool
is_struct_or_union_kind k = kind_eq k struct || kind_eq k union

-- `sz <= 0` is 0 or a negative `int`, whose bit pattern is large.
unfoldable pub struct_reg_eightbytes : CType → ℕ
struct_reg_eightbytes null = 0
struct_reg_eightbytes (type i _ _ _) =
    if (i.size == 0) || leb (2 ^ 31) i.size || ltb 16 i.size
    then 0
    else if ltb 8 i.size
    then 2
    else 1

-- `a == b` of pointers is reached only where one of them is NULL.
unfoldable pub pointer_types_equal : CType → CType → Bool
pointer_types_equal null null = true
pointer_types_equal null (type _ _ _ _) = false
pointer_types_equal (type _ _ _ _) null = false
pointer_types_equal (type i a _ _) (type j b _ _) =
    let deeper = pointer_types_equal a b in
    if not (kind_eq i.kind j.kind)
    then false
    else if not (kind_eq i.kind pointer)
    then true
    else deeper

abbrev pub has_kind : TypeKind → CType → Bool
has_kind k null = false
has_kind k (type i _ _ _) = kind_eq i.kind k

abbrev pub base_has_kind : TypeKind → CType → Bool
base_has_kind k null = false
base_has_kind k (type _ b _ _) = has_kind k b

unfoldable pub is_void_ptr : CType → Bool
is_void_ptr t = has_kind pointer t && base_has_kind void t

unfoldable pub pointer_types_assignable : CType → CType → Bool
pointer_types_assignable dst src =
    if not (has_kind pointer dst)
    then false
    else if not (has_kind pointer src)
    then false
    else if base_has_kind function dst
    then pointer_types_equal dst src
    else if base_has_kind function src
    then pointer_types_equal dst src
    else if is_void_ptr dst || is_void_ptr src
    then true
    else pointer_types_equal dst src

unfoldable pub promote_kind : TypeKind → TypeKind
promote_kind t =
    if kind_eq t long || kind_eq t long_long || kind_eq t unsigned_long_long then long else int

unfoldable pub common_arith_kind : TypeKind → TypeKind → TypeKind
common_arith_kind a b =
    if kind_eq (promote_kind a) long || kind_eq (promote_kind b) long then long else int

unfoldable pub fp_common_arith_kind : TypeKind → TypeKind → TypeKind
fp_common_arith_kind a b =
    if kind_eq a double || kind_eq b double
    then double
    else if kind_eq a float || kind_eq b float
    then float
    else common_arith_kind a b

-- The two normalising tests at the top of `uac_is_unsigned`.
abbrev pub uac_kind : TypeKind → TypeKind
uac_kind k =
    if kind_eq k char || kind_eq k short
    then int
    else if kind_eq k long_long || kind_eq k unsigned_long_long
    then long
    else k

abbrev pub same_sign : Bool → Bool → Bool
same_sign true b = b
same_sign false b = not b

unfoldable pub uac_is_unsigned : TypeKind → Bool → TypeKind → Bool → Bool
uac_is_unsigned ak au bk bu =
    let ulong_present = (au && kind_eq (uac_kind ak) long) || (bu && kind_eq (uac_kind bk) long) in
    let slong_present =
      (not au && kind_eq (uac_kind ak) long) || (not bu && kind_eq (uac_kind bk) long) in
    if same_sign au bu
    then au
    else if ulong_present
    then true
    else if slong_present
    then false
    else true

unfoldable pub type_kind_from_size : ℕ → TypeKind
type_kind_from_size n = if n == 8 then long else int
