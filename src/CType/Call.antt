-- ===== src/CType/Call.antt =====
-- Where the arguments of a call are passed: compute_call_layout of src/codegen.c.
use claudec.Base.{
  ℕ, ◌+◌, ◌*◌, ◌/◌, Bool, true, false, ◌&&◌, Option, none, some, List, [], ◌∷◌, ◌++◌, ltb, leb,
  if◌then◌else◌, codes, length,
}
use claudec.CType.{TypeKind, CType, null, type, type_size}
use claudec.CType.Rules.{
  type_kind_bytes, type_is_fp, is_struct_or_union_kind, struct_reg_eightbytes,
}
use claudec.Long.Text.{print_decimal}
use claudec.Memory.{Outcome, ok, fatal}

-- A parameter of the declaration: one of the first children that are AST_PARAM.
pub record Param : Type 0 where
  pub decl_type : TypeKind
  pub full_type : CType

pub record FnDecl : Type 0 where
  pub decl_type : TypeKind
  pub full_type : CType
  pub params : List Param

-- An argument node, with the type that the symbol tables have for it if it is a variable.
pub record ArgNode : Type 0 where
  pub decl_type : TypeKind
  pub full_type : CType
  pub variable_type : CType

-- What is known of an argument: its entry of `actual_types`, and its node, where they are given.
pub record Actual : Type 0 where
  pub actual_type : Option TypeKind
  pub node : Option ArgNode

-- An index that is -1 is none. The offset and the sizes are not negative.
pub record ArgSlot : Type 0 where
  pub is_struct : Bool
  pub is_fp : Bool
  pub mem : Bool
  pub nbytes : ℕ
  pub gp_start : Option ℕ
  pub gp_count : ℕ
  pub xmm_idx : Option ℕ
  pub stack_off : Option ℕ

pub record CallLayout : Type 0 where
  pub sret : Bool
  pub stack_bytes : ℕ
  pub items : List ArgSlot

-- What is taken so far.
pub record Taken : Type 0 where
  pub gp_next : ℕ
  pub xmm_next : ℕ
  pub stack_off : ℕ

abbrev pub max_call_layout_items : ℕ
max_call_layout_items = 24

abbrev pub node_kind : Option ArgNode → TypeKind
node_kind none = TypeKind.long
node_kind (some n) = n.decl_type

abbrev pub actual_kind : Actual → TypeKind
actual_kind a = kind_or a.actual_type
  where
    kind_or : Option TypeKind → TypeKind
    kind_or (some k) = k
    kind_or none = node_kind a.node

abbrev pub found_type : Bool → CType → CType → CType
found_type true null found = found
found_type true (type i b p f) found = type i b p f
found_type false t found = t

abbrev pub actual_full_type : Bool → Option ArgNode → CType
actual_full_type struct_arg none = null
actual_full_type struct_arg (some n) = found_type struct_arg n.full_type n.variable_type

unfoldable pub return_is_memory_struct : Option FnDecl → Bool
return_is_memory_struct none = false
return_is_memory_struct (some f) =
    is_struct_or_union_kind f.decl_type && ltb 16 (type_size f.full_type)

abbrev pub in_gp : Bool → ℕ → ℕ → Taken → ArgSlot × Taken
in_gp struct_arg nbytes count t = (
  record {
    is_struct = struct_arg;
    is_fp = false;
    mem = false;
    nbytes = nbytes;
    gp_start = some t.gp_next;
    gp_count = count;
    xmm_idx = none;
    stack_off = none;
  },
  record t { gp_next = t.gp_next + count },
)

abbrev pub in_xmm : ℕ → Taken → ArgSlot × Taken
in_xmm nbytes t = (
  record {
    is_struct = false;
    is_fp = true;
    mem = false;
    nbytes = nbytes;
    gp_start = none;
    gp_count = 0;
    xmm_idx = some t.xmm_next;
    stack_off = none;
  },
  record t { xmm_next = t.xmm_next + 1 },
)

-- The room is a multiple of 8.
abbrev pub on_stack : Bool → Bool → ℕ → ℕ → Taken → ArgSlot × Taken
on_stack struct_arg fp_arg nbytes room t = (
  record {
    is_struct = struct_arg;
    is_fp = fp_arg;
    mem = true;
    nbytes = nbytes;
    gp_start = none;
    gp_count = 0;
    xmm_idx = none;
    stack_off = some t.stack_off;
  },
  record t { stack_off = t.stack_off + room },
)

unfoldable pub place_struct : CType → Taken → ArgSlot × Taken
place_struct st t =
    let ebs = struct_reg_eightbytes st in
    if ltb 0 ebs && leb (t.gp_next + ebs) 6
    then in_gp true (type_size st) ebs t
    else on_stack true false (type_size st) ((type_size st + 7) / 8 * 8) t

unfoldable pub place_fp : ℕ → Taken → ArgSlot × Taken
place_fp nbytes t = if ltb t.xmm_next 8 then in_xmm nbytes t else on_stack false true nbytes 8 t

unfoldable pub place_gp : Taken → ArgSlot × Taken
place_gp t = if ltb t.gp_next 6 then in_gp false 8 1 t else on_stack false false 8 8 t

unfoldable pub place_kind : TypeKind → CType → ℕ → Taken → ArgSlot × Taken
place_kind k full_type fp_bytes t =
    if is_struct_or_union_kind k
    then place_struct full_type t
    else if type_is_fp k
    then place_fp fp_bytes t
    else place_gp t

-- One round of the loop: an argument with its parameter, or one behind the parameters.
unfoldable pub place : Option Param → Actual → Taken → ArgSlot × Taken
place (some p) a t = place_kind p.decl_type p.full_type (type_kind_bytes p.decl_type) t
place none a t =
    let k = actual_kind a in place_kind k (actual_full_type (is_struct_or_union_kind k) a.node) 8 t

abbrev pub first_param : List Param → Option Param
first_param [] = none
first_param (p ∷ ps) = some p

abbrev pub later_params : List Param → List Param
later_params [] = []
later_params (p ∷ ps) = ps

unfoldable pub place_all : List Param → List Actual → Taken → List ArgSlot × Taken
place_all ps [] t = ([], t)
place_all ps (a ∷ args) t =
    let (s, t') = place (first_param ps) a t in
    let (ss, t'') = place_all (later_params ps) args t' in (s ∷ ss, t'')

abbrev pub params_of : Option FnDecl → List Param
params_of none = []
params_of (some f) = f.params

unfoldable pub compute_call_layout : Option FnDecl → List Actual → Outcome CallLayout
compute_call_layout fn_decl args =
    let sret = return_is_memory_struct fn_decl in
    let (items, t) =
      place_all (params_of fn_decl) args
        (record { gp_next = if sret then 1 else 0; xmm_next = 0; stack_off = 0 }) in
    if ltb max_call_layout_items (length args)
    then fatal (
        codes "error: call has "
        ++ (print_decimal (length args) ++ codes " arguments; max supported is 24"))
    else ok (record { sret = sret; stack_bytes = t.stack_off; items = items })
