-- ===== src/Optimize/Types.antt =====
-- Blocks of `optimize_expr` that look at types and names: `sizeof`, casts of literals, and the
-- table of constant locals.
use claudec.Base.{
  ℕ, ◌+◌, ◌-◌, ◌^◌, ◌%◌, Bool, true, false, not, ◌&&◌, ◌||◌, Option, none, some, List, [], ◌∷◌, leb,
  ◌==◌, if◌then◌else◌, Bytes, str_eq,
}
use claudec.CType.{
  TypeKind, bool, char, short, int, long, long_long, unsigned_long_long, pointer, double, array,
  struct, union, kind_eq, CType, null as null_type, type, type_size,
}
use claudec.Ast.{
  int_literal, string_literal, char_literal, cast, var_ref, sizeof_type, sizeof_expr, Attrs, Ast,
  node, nil, cons,
}
use claudec.Long.{long_mod, lt_long}
use claudec.Optimize.{literal, long_of, new_literal}

-- `ConstEntry`. The name of a declaration is not NULL.
pub record ConstEntry : Type 0 where
  pub name : Bytes
  pub value : ℕ
  pub decl_type : TypeKind
  pub is_unsigned : Bool

-- `g_const_table` up to `g_const_count`, oldest entry first.
abbrev pub Table : Type 0
Table = List ConstEntry

abbrev pub const_prop_max : ℕ
const_prop_max = 64

unfoldable pub is_scalar_int_type : TypeKind → Bool
is_scalar_int_type bool = true
is_scalar_int_type char = true
is_scalar_int_type short = true
is_scalar_int_type int = true
is_scalar_int_type long = true
is_scalar_int_type long_long = true
is_scalar_int_type unsigned_long_long = true
is_scalar_int_type _ = false

-- The scan from the right: a later entry wins.
unfoldable pub const_prop_lookup : Bytes → Table → Option ConstEntry
const_prop_lookup x [] = none
const_prop_lookup x (e ∷ es) = elim (const_prop_lookup x es) [
  | some found ↦ some found
  | none ↦ if str_eq x e.name then some e else none
]

-- `val >= lo && val <= hi` on `long`.
abbrev pub within : ℕ → ℕ → ℕ → Bool
within lo hi v = not (lt_long v lo) && not (lt_long hi v)

-- -n as a `long`.
abbrev pub opposite : ℕ → ℕ
opposite n = long_mod - n

unfoldable pub cast_value_safe : ℕ → TypeKind → Bool → Bool
cast_value_safe v bool u = (v == 0) || (v == 1)
cast_value_safe v char u = if u then within 0 255 v else within (opposite 128) 127 v
cast_value_safe v short u = if u then within 0 65535 v else within (opposite 32768) 32767 v
cast_value_safe v int u =
    if u then within 0 4294967295 v else within (opposite 2147483648) 2147483647 v
cast_value_safe v long u = if u then not (lt_long v 0) else true
cast_value_safe v long_long u = if u then not (lt_long v 0) else true
cast_value_safe v unsigned_long_long u = not (lt_long v 0)
cast_value_safe v _ u = false

unfoldable pub sizeof_scalar_size : TypeKind → ℕ
sizeof_scalar_size bool = 1
sizeof_scalar_size char = 1
sizeof_scalar_size short = 2
sizeof_scalar_size long = 8
sizeof_scalar_size long_long = 8
sizeof_scalar_size unsigned_long_long = 8
sizeof_scalar_size pointer = 8
sizeof_scalar_size double = 8
sizeof_scalar_size _ = 4

-- The `int` with a bit pattern, widened to `long`.
abbrev pub widen_int : ℕ → ℕ
widen_int n = if leb (2 ^ 31) n then n + (2 ^ 64 - 2 ^ 32) else n

abbrev pub make_sizeof_literal : ℕ → Ast
make_sizeof_literal n = new_literal (widen_int n) long true

abbrev has_layout : TypeKind → Bool
has_layout k = kind_eq k struct || kind_eq k union || kind_eq k array

abbrev is_null_type : CType → Bool
is_null_type null_type = true
is_null_type (type _ _ _ _) = false

unfoldable pub sizeof_type_folding : Ast → Option Ast
sizeof_type_folding (node sizeof_type n cs) = some (
    make_sizeof_literal (
      if has_layout n.decl_type && not (is_null_type n.full_type)
      then type_size n.full_type
      else sizeof_scalar_size n.decl_type))
sizeof_type_folding _ = none

abbrev operand_size : Ast → Option Ast
operand_size (node string_literal a _) = some (make_sizeof_literal ((a.byte_length + 1) % 2 ^ 32))
operand_size (node int_literal a _) = some (make_sizeof_literal (sizeof_scalar_size a.decl_type))
operand_size (node char_literal a _) = some (make_sizeof_literal 4)
operand_size _ = none

unfoldable pub sizeof_expr_folding : Ast → Option Ast
sizeof_expr_folding (node sizeof_expr n (cons x nil)) = operand_size x
sizeof_expr_folding _ = none

abbrev pub cast_literal : Attrs → Option Attrs → Option Ast
cast_literal n none = none
cast_literal n (some a) =
    if is_scalar_int_type n.decl_type && cast_value_safe (long_of a) n.decl_type n.is_unsigned
    then some (new_literal (long_of a) n.decl_type n.is_unsigned)
    else none

unfoldable pub cast_folding : Ast → Option Ast
cast_folding (node cast n (cons x nil)) = cast_literal n (literal x)
cast_folding _ = none

abbrev pub entry_literal : Option ConstEntry → Option Ast
entry_literal none = none
entry_literal (some e) = some (new_literal e.value e.decl_type e.is_unsigned)

abbrev pub propagate : Table → Option Bytes → Option Ast
propagate t none = none
propagate t (some x) = entry_literal (const_prop_lookup x t)

unfoldable pub const_propagation : Table → Ast → Option Ast
const_propagation t (node var_ref n cs) = propagate t n.value
const_propagation t _ = none
