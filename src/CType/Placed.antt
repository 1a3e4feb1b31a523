-- ===== src/CType/Placed.antt =====
-- Where an argument of a call is placed: in what is free.
use claudec.Base.{
  ℕ, ◌+◌, ◌*◌, ◌/◌, ◌%◌, ◌≤◌, ◌<◌, Bool, true, false, ◌&&◌, Option, none, some, ltb, leb,
  if◌then◌else◌, ◌≡◌, refl, arith,
}
use claudec.CType.{TypeKind, CType, null, type, type_size}
use claudec.CType.Rules.{
  type_kind_bytes, type_is_fp, is_struct_or_union_kind, struct_reg_eightbytes,
}
use claudec.CType.Call.{
  Param, Actual, ArgSlot, Taken, actual_kind, actual_full_type, in_gp, in_xmm, on_stack,
  place_struct, place_fp, place_gp, place_kind, place,
}

-- The slot lies between what was taken before and after it.
pub record Within (lo hi : Taken) (s : ArgSlot) : Type 0 where
  pub gp : (g : ℕ) → s.gp_start ≡ some g → (lo.gp_next ≤ g) × (g + s.gp_count ≤ hi.gp_next)
  pub xmm : (x : ℕ) → s.xmm_idx ≡ some x → (lo.xmm_next ≤ x) × (x < hi.xmm_next)
  pub stack :
      (o : ℕ)
      → s.stack_off ≡ some o
      → (lo.stack_off ≤ o) × (o + s.nbytes ≤ hi.stack_off) × (o % 8 ≡ 0)

-- What was taken is within the registers there are, and in whole eightbytes.
pub record IsTaken (t : Taken) : Type 0 where
  pub gp : t.gp_next ≤ 6
  pub xmm : t.xmm_next ≤ 8
  pub aligned : t.stack_off % 8 ≡ 0

pub record Grows (lo hi : Taken) : Type 0 where
  pub gp : lo.gp_next ≤ hi.gp_next
  pub xmm : lo.xmm_next ≤ hi.xmm_next
  pub stack : lo.stack_off ≤ hi.stack_off

-- The place of an argument: enough general registers for it, a vector register, or bytes of the stack.
pub data HasPlace (s : ArgSlot) : Type 0 where
  in_general :
      (g : ℕ)
      → s.gp_start ≡ some g
      → 1 ≤ s.gp_count
      → s.nbytes ≤ 8 * s.gp_count
      → s.mem ≡ false
      → HasPlace s
  in_vector : (x : ℕ) → s.xmm_idx ≡ some x → s.nbytes ≤ 8 → s.mem ≡ false → HasPlace s
  in_memory : (o : ℕ) → s.stack_off ≡ some o → s.mem ≡ true → HasPlace s

pub record Placed (lo : Taken) (p : ArgSlot × Taken) : Type 0 where
  pub place : HasPlace p.0
  pub within : Within lo p.1 p.0
  pub taken : IsTaken p.1
  pub grows : Grows lo p.1

some-eq : (a b : ℕ) → some a ≡ some b → a ≡ b
some-eq a b e = cc

in_gp-Placed :
    (t : Taken) (struct_arg : Bool) (nbytes count : ℕ)
    → IsTaken t
    → 1 ≤ count
    → nbytes ≤ 8 * count
    → t.gp_next + count ≤ 6
    → Placed t (in_gp struct_arg nbytes count t)
in_gp-Placed t struct_arg nbytes count i one enough h = record {
  place = in_general t.gp_next refl one enough refl;
  within = record {
    gp = λ g e. let q = some-eq t.gp_next g e in (omega arith, omega arith);
    xmm = λ x e. cc;
    stack = λ o e. cc;
  };
  taken = record { gp = h; xmm = i.xmm; aligned = i.aligned };
  grows = record { gp = omega arith; xmm = omega arith; stack = omega arith };
}

in_xmm-Placed :
    (t : Taken) (nbytes : ℕ) → IsTaken t → nbytes ≤ 8 → t.xmm_next < 8 → Placed t (in_xmm nbytes t)
in_xmm-Placed t nbytes i fits h = record {
  place = in_vector t.xmm_next refl fits refl;
  within = record {
    gp = λ g e. cc;
    xmm = λ x e. let q = some-eq t.xmm_next x e in (omega arith, omega arith);
    stack = λ o e. cc;
  };
  taken = record { gp = i.gp; xmm = omega arith; aligned = i.aligned };
  grows = record { gp = omega arith; xmm = omega arith; stack = omega arith };
}

on_stack-Placed :
    (t : Taken) (struct_arg fp_arg : Bool) (nbytes room : ℕ)
    → IsTaken t
    → nbytes ≤ room
    → room % 8 ≡ 0
    → Placed t (on_stack struct_arg fp_arg nbytes room t)
on_stack-Placed t struct_arg fp_arg nbytes room i h m =
    let a = i.aligned in
    record {
      place = in_memory t.stack_off refl refl;
      within = record {
        gp = λ g e. cc;
        xmm = λ x e. cc;
        stack = λ o e. let q = some-eq t.stack_off o e in (omega arith, omega arith, omega arith);
      };
      taken = record { gp = i.gp; xmm = i.xmm; aligned = omega arith };
      grows = record { gp = omega arith; xmm = omega arith; stack = omega arith };
    }

if-Placed :
    (t : Taken) (b : Bool) {x y : ArgSlot × Taken}
    → (b ≡ true → Placed t x)
    → (b ≡ false → Placed t y)
    → Placed t (if b then x else y)
if-Placed t true h k = h refl
if-Placed t false h k = k refl

-- The eightbytes of a struct that is passed in registers hold it.
enough_eightbytes :
    (st : CType) → 1 ≤ struct_reg_eightbytes st → type_size st ≤ 8 * struct_reg_eightbytes st
unfolding struct_reg_eightbytes type_size
enough_eightbytes null h = ground arith
enough_eightbytes (type i b p f) h = ground arith

place_struct-Placed : (st : CType) (t : Taken) → IsTaken t → Placed t (place_struct st t)
unfolding place_struct
place_struct-Placed st t i =
    let ebs = struct_reg_eightbytes st in
    if-Placed t (ltb 0 ebs && leb (t.gp_next + ebs) 6)
      (λ e.
        in_gp-Placed t true (type_size st) ebs i (ground arith)
          (enough_eightbytes st (ground arith)) (ground arith))
      (λ _.
        on_stack-Placed t true false (type_size st) ((type_size st + 7) / 8 * 8) i (omega arith)
          (omega arith))

place_fp-Placed : (nbytes : ℕ) (t : Taken) → IsTaken t → nbytes ≤ 8 → Placed t (place_fp nbytes t)
unfolding place_fp
place_fp-Placed nbytes t i h =
    if-Placed t (ltb t.xmm_next 8) (λ e. in_xmm-Placed t nbytes i h (ground arith))
      (λ _. on_stack-Placed t false true nbytes 8 i h refl)

place_gp-Placed : (t : Taken) → IsTaken t → Placed t (place_gp t)
unfolding place_gp
place_gp-Placed t i =
    if-Placed t (ltb t.gp_next 6)
      (λ e. in_gp-Placed t false 8 1 i (omega arith) (omega arith) (ground arith))
      (λ _. on_stack-Placed t false false 8 8 i (omega arith) refl)

place_kind-Placed :
    (k : TypeKind) (full_type : CType) (fp_bytes : ℕ) (t : Taken)
    → IsTaken t
    → fp_bytes ≤ 8
    → Placed t (place_kind k full_type fp_bytes t)
unfolding place_kind
place_kind-Placed k full_type fp_bytes t i h =
    if-Placed t (is_struct_or_union_kind k) (λ _. place_struct-Placed full_type t i)
      (λ _.
        if-Placed t (type_is_fp k) (λ _. place_fp-Placed fp_bytes t i h) (λ _. place_gp-Placed t i))

type_kind_bytes_le : (k : TypeKind) → type_kind_bytes k ≤ 8
unfolding type_kind_bytes
type_kind_bytes_le TypeKind.void = omega arith
type_kind_bytes_le TypeKind.bool = omega arith
type_kind_bytes_le TypeKind.char = omega arith
type_kind_bytes_le TypeKind.short = omega arith
type_kind_bytes_le TypeKind.int = omega arith
type_kind_bytes_le TypeKind.long = omega arith
type_kind_bytes_le TypeKind.long_long = omega arith
type_kind_bytes_le TypeKind.unsigned_long_long = omega arith
type_kind_bytes_le TypeKind.float = omega arith
type_kind_bytes_le TypeKind.double = omega arith
type_kind_bytes_le TypeKind.pointer = omega arith
type_kind_bytes_le TypeKind.array = omega arith
type_kind_bytes_le TypeKind.function = omega arith
type_kind_bytes_le TypeKind.struct = omega arith
type_kind_bytes_le TypeKind.union = omega arith

pub place-Placed : (p : Option Param) (a : Actual) (t : Taken) → IsTaken t → Placed t (place p a t)
unfolding place
place-Placed (some p) a t i =
    place_kind-Placed p.decl_type p.full_type (type_kind_bytes p.decl_type) t i
      (type_kind_bytes_le p.decl_type)
place-Placed none a t i =
    place_kind-Placed (actual_kind a)
      (actual_full_type (is_struct_or_union_kind (actual_kind a)) a.node) 8 t i (omega arith)
