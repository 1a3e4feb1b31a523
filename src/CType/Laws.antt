-- ===== src/CType/Laws.antt =====
-- Laws of the compatibility rules for pointers, and of struct passing.
use claudec.Base.{
  ℕ, suc, ◌*◌, ◌%◌, ◌^◌, ◌≤◌, ◌<◌, true, List, [], ◌∷◌, ◌≡◌, ◌↔◌, refl, sym, ◌∙◌, ap, arith, ◌==◌,
  if◌then◌else◌, Bool-cases, ==_iff,
}
use claudec.CType.{
  TypeKind, void, bool, char, short, int, long, long_long, unsigned_long_long, float, double,
  pointer, array, function, struct, union, kind_code, kind_eq, CType, null, type, type_size,
  type_alignment, type_array, type_const_copy, type_volatile_copy,
}
use claudec.CType.Rules.{
  struct_reg_eightbytes, pointer_types_equal, is_void_ptr, pointer_types_assignable,
}

-- The enumerator of a number.
kind_of : ℕ → TypeKind
kind_of n =
    if n == 0
    then void
    else if n == 1
    then bool
    else if n == 2
    then char
    else if n == 3
    then short
    else if n == 4
    then int
    else if n == 5
    then long
    else if n == 6
    then long_long
    else if n == 7
    then unsigned_long_long
    else if n == 8
    then float
    else if n == 9
    then double
    else if n == 10
    then pointer
    else if n == 11
    then array
    else if n == 12
    then function
    else if n == 13
    then struct
    else union

kind_of-kind_code : (k : TypeKind) → kind_of (kind_code k) ≡ k
unfolding kind_of
kind_of-kind_code void = refl
kind_of-kind_code bool = refl
kind_of-kind_code _ = refl

pub kind_eq→eq : (a b : TypeKind) → kind_eq a b ≡ true → a ≡ b
kind_eq→eq a b h = sym (kind_of-kind_code a) ∙ ap kind_of ((==_iff _ _).0 h) ∙ kind_of-kind_code b

pub kind_eq_refl : (a : TypeKind) → kind_eq a a ≡ true
kind_eq_refl a = (==_iff _ _).1 refl

-- The kinds along a chain of pointers, down to the first that is no pointer.
abbrev pub pointer_chain : CType → List TypeKind
pointer_chain null = []
pointer_chain (type i b _ _) = i.kind ∷ (if kind_eq i.kind pointer then pointer_chain b else [])

-- Two types are equal to `pointer_types_equal` exactly when the kinds along their pointer chains are.
pub pointer_types_equal_iff :
    (a b : CType) → (pointer_types_equal a b ≡ true) ↔ (pointer_chain a ≡ pointer_chain b)
unfolding pointer_types_equal
pointer_types_equal_iff null null = ground arith
pointer_types_equal_iff null (type j b q f) = ground arith
pointer_types_equal_iff (type i a p f) null = ground arith
pointer_types_equal_iff (type i a p f) (type j b q g) =
    ground (arith, pointer_types_equal_iff a b, kind_eq→eq i.kind j.kind, kind_eq_refl j.kind)

-- Qualifiers play no part in the compatibility of pointers.
pub pointer_types_equal_qualified :
    (a b : CType)
    → (pointer_types_equal (type_const_copy a) b ≡ pointer_types_equal a b)
      × (pointer_types_equal a (type_volatile_copy b) ≡ pointer_types_equal a b)
unfolding pointer_types_equal type_const_copy type_volatile_copy
pointer_types_equal_qualified null null = (refl, refl)
pointer_types_equal_qualified null (type j b q g) = (refl, refl)
pointer_types_equal_qualified (type i a p f) null = (refl, refl)
pointer_types_equal_qualified (type i a p f) (type j b q g) = (refl, refl)

pub pointer_types_equal_comm : (a b : CType) → pointer_types_equal a b ≡ pointer_types_equal b a
pointer_types_equal_comm a b = ground (
  arith,
  pointer_types_equal_iff a b,
  pointer_types_equal_iff b a,
  Bool-cases (pointer_types_equal a b),
  Bool-cases (pointer_types_equal b a),
)

-- Two pointer types are assignable in both directions or in neither.
pointer_types_assignable_comm :
    (a b : CType) → pointer_types_assignable a b ≡ pointer_types_assignable b a
unfolding pointer_types_assignable is_void_ptr
pointer_types_assignable_comm a b = ground (arith, pointer_types_equal_comm a b)

-- For a size below 2^32, a struct takes n + 1 eightbyte registers exactly when it has 1 to 16 bytes
-- and n + 1 is the least number of eightbytes that hold it.
struct_reg_eightbytes_least :
    (t : CType) (n : ℕ)
    → type_size t < 2 ^ 32
    → (struct_reg_eightbytes t ≡ suc n)
      ↔ ((1 ≤ type_size t) × (type_size t ≤ 16) × (n * 8 < type_size t) × (type_size t ≤ suc n * 8))
unfolding struct_reg_eightbytes type_size
struct_reg_eightbytes_least null n h = ground arith
struct_reg_eightbytes_least (type i b p f) n h = ground arith

-- Every multiple of the alignment, as the size of an object must be.
abbrev pub IsLaidOut : CType → Type 0
IsLaidOut t = (k : ℕ) × (type_size t ≡ k * type_alignment t)

-- If the size of n elements fits an `int`, and the size of an element is a multiple of its alignment,
-- then so is the array's, which has the size of n elements and the alignment of one.
type_array-IsLaidOut :
    (t : CType) (n : ℕ)
    → type_size t * n < 2 ^ 31
    → IsLaidOut t
    → IsLaidOut (type_array t n)
      × (type_size (type_array t n) ≡ type_size t * n)
      × (type_alignment (type_array t n) ≡ type_alignment t)
unfolding type_array type_size type_alignment
type_array-IsLaidOut t n h (k, e) =
    let fits : (type_size t * n) % 2 ^ 32 ≡ type_size t * n = omega arith in
    ((k * n, omega (arith, ap (λ (m : ℕ). m * n) e)), fits, refl)
