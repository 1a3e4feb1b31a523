-- ===== src/CType/Arith.antt =====
-- The usual arithmetic conversions against ranks and precisions (ISO C 6.3.1.8).
use Prim.Native.Nat.{max}
use claudec.Base.{
  ℕ, Bool, ◌&&◌, ◌||◌, ◌≡◌, refl, arith, ◌==◌, if◌then◌else◌, leb, ◌≤◌, ◌⊎◌, inl, inr,
}
use claudec.CType.{
  TypeKind, void, bool, int, long, long_long, unsigned_long_long, float, double, kind_eq,
}
use claudec.CType.Rules.{
  promote_kind, common_arith_kind, fp_common_arith_kind, uac_kind, uac_is_unsigned,
}

-- The conversion rank of a kind, for the four results that a conversion can have.
abbrev pub rank : TypeKind → ℕ
rank double = 3
rank float = 2
rank long = 1
rank long_long = 1
rank unsigned_long_long = 1
rank _ = 0

-- The kind in which an operation of that rank is done.
abbrev pub kind_of_rank : ℕ → TypeKind
kind_of_rank n = if n == 0 then int else if n == 1 then long else if n == 2 then float else double

-- The tests of the code, read as ranks.
tests_as_ranks :
    (k : TypeKind)
    → (kind_eq k double ≡ (rank k == 3))
      × (kind_eq k float ≡ (rank k == 2))
      × (kind_eq (promote_kind k) long ≡ (rank k == 1))
      × (rank k ≤ 3)
unfolding promote_kind
tests_as_ranks void = ground arith
tests_as_ranks bool = ground arith
tests_as_ranks _ = ground arith

-- The common kind of two operands is the kind of the higher of their ranks: double, float, long, then
-- int.
pub fp_common_arith_kind_by_rank :
    (a b : TypeKind) → fp_common_arith_kind a b ≡ kind_of_rank (max (rank a) (rank b))
unfolding fp_common_arith_kind common_arith_kind
fp_common_arith_kind_by_rank a b = ground (arith, tests_as_ranks a, tests_as_ranks b)

rank-kind_of_rank : (n : ℕ) → n ≤ 3 → rank (kind_of_rank n) ≡ n
rank-kind_of_rank n h = ground arith

max_le_three : (a b : TypeKind) → max (rank a) (rank b) ≤ 3
max_le_three a b = omega (arith, (tests_as_ranks a).3, (tests_as_ranks b).3)

-- The common kind does not depend on the order or grouping of the operands.
fp_common_arith_kind_assoc_comm :
    (a b c : TypeKind)
    → (fp_common_arith_kind a b ≡ fp_common_arith_kind b a)
      × (fp_common_arith_kind (fp_common_arith_kind a b) c
          ≡ fp_common_arith_kind a (fp_common_arith_kind b c))
fp_common_arith_kind_assoc_comm a b c =
    let swapped : max (rank a) (rank b) ≡ max (rank b) (rank a) = omega arith in
    let regrouped : max (max (rank a) (rank b)) (rank c) ≡ max (rank a) (max (rank b) (rank c)) =
      omega arith in
    let left = rank-kind_of_rank (max (rank a) (rank b)) (max_le_three a b) in
    let right = rank-kind_of_rank (max (rank b) (rank c)) (max_le_three b c) in
    (
      simp fp_common_arith_kind_by_rank (rw swapped),
      simp fp_common_arith_kind_by_rank (rw (left, right) (rw regrouped)),
    )

-- The bits that an operand of a promoted kind is computed in.
abbrev pub precision : TypeKind → ℕ
precision long = 64
precision long_long = 64
precision unsigned_long_long = 64
precision _ = 32

long_test : (k : TypeKind) → kind_eq (uac_kind k) long ≡ (precision k == 64)
long_test void = refl
long_test bool = refl
long_test _ = refl

precision_cases : (k : TypeKind) → (precision k ≡ 32) ⊎ (precision k ≡ 64)
precision_cases void = inl refl
precision_cases long = inr refl
precision_cases long_long = inr refl
precision_cases unsigned_long_long = inr refl
precision_cases _ = inl refl

-- An operation is unsigned exactly when one of its operands is unsigned and has at least the
-- precision of the other.
pub uac_is_unsigned_by_precision :
    (a b : TypeKind) (au bu : Bool)
    → uac_is_unsigned a au b bu
      ≡ ((au && leb (precision b) (precision a)) || (bu && leb (precision a) (precision b)))
unfolding uac_is_unsigned
uac_is_unsigned_by_precision a b au bu =
    rw (long_test a, long_test b) (ground (arith, precision_cases a, precision_cases b))
