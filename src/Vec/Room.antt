-- ===== src/Vec/Room.antt =====
-- The elements of a vector, access to one, and the room that growing makes.
use native.Mathlib.Nat.{div-mul-le_self, mul-le-mul_right}
use claudec.Base.{
  ℕ, suc, ◌+◌, ◌*◌, ◌/◌, ◌%◌, ◌≤◌, ◌<◌, true, Bytes, codes, length, take, leb, ltb, ◌≡◌, refl, ap,
  ◌⊎◌, inl, inr, arith, Bool-cases, Option-cases, leb→le, leb→gt, ltb→lt, ltb→ge,
}
use claudec.Memory.{ok, fatal, size_max, size_mod, Realloc, IsRealloc, Refuses, Ends}
use claudec.Vec.{Vec, vec_reserve, vec_get}

pub record IsVec (v : Vec) : Type 0 where
  pub sized : length v.data_block ≡ v.cap * v.elem_size
  pub fits : v.len ≤ v.cap
  pub small : v.cap * v.elem_size < size_mod
  pub positive : 1 ≤ v.elem_size

pub last_fits : (i n k : ℕ) → i < n → i * k + k ≤ n * k
last_fits i n k h =
    let p = mul-le-mul_right {m = suc i} {n = n} k h in
    let e : suc i * k ≡ i * k + k = ground arith in omega arith

pub wraps_not : (n : ℕ) → n < size_mod → n % size_mod ≡ n
wraps_not n h = omega arith

-- In a well-formed vector an index below the length gives an offset at which a whole element lies in the block, and any other
-- ends in the message.
vec_get-in_block :
    (v : Vec) (i : ℕ)
    → IsVec v
    → ((i < v.len)
        × (vec_get v i ≡ ok (i * v.elem_size))
        × (i * v.elem_size + v.elem_size ≤ length v.data_block))
      ⊎ ((v.len ≤ i) × (vec_get v i ≡ fatal (codes "vec_get: index out of bounds")))
unfolding vec_get
vec_get-in_block v i w = elim (Bool-cases (leb v.len i)) [
  | inl out ↦ rw out (inr (leb→le _ _ out, refl))
  | inr inside ↦
      let below = leb→gt _ _ inside in
      let fits = w.fits in
      let sized = w.sized in
      let small = w.small in
      let room = last_fits i v.cap v.elem_size (omega arith) in
      let short : (i * v.elem_size) % size_mod ≡ i * v.elem_size = wraps_not _ (omega arith) in
      rw inside (inl (below, ap ok short, omega arith))
]

-- The bytes of the elements, one element after the other.
unfoldable pub elements : Vec → Bytes
elements v = take (v.len * v.elem_size) v.data_block

pub record HasRoom (v : Vec) (room : ℕ) (r : Vec) : Type 0 where
  pub vec : IsVec r
  pub same_len : r.len ≡ v.len
  pub same_size : r.elem_size ≡ v.elem_size
  pub same_elements : elements r ≡ elements v
  pub enough : room ≤ r.cap

-- Why a push may not return: the allocator refuses, or that many elements do not fit a size_t.
abbrev pub TooMany : Realloc → ℕ → ℕ → Type 0
TooMany realloc elem_size n = Refuses realloc ⊎ (size_max / elem_size < n)

module _ (realloc : Realloc) (lawful : IsRealloc realloc) where
  pub vec_reserve-Ends :
      (v : Vec) (room : ℕ)
      → IsVec v
      → Ends (HasRoom v room) (TooMany realloc v.elem_size room) (vec_reserve realloc v room)
  unfolding vec_reserve
  vec_reserve-Ends v room w = elim (Bool-cases (leb room v.cap)) [
    | inl there ↦ rw there (
        inl (
          v,
          refl,
          record {
            vec = w;
            same_len = refl;
            same_size = refl;
            same_elements = refl;
            enough = leb→le _ _ there;
          },
        ))
    | inr short ↦
        let positive = w.positive in
        let some_size : ltb 0 v.elem_size ≡ true = ground arith in
        elim (Bool-cases (ltb (size_max / v.elem_size) room)) [
          | inl large ↦ rw (short, some_size, large) (inr (_, refl, inr (ltb→lt _ _ large)))
          | inr small ↦
              let bytes = mul-le-mul_right v.elem_size (ltb→ge _ _ small) in
              let all = div-mul-le_self size_max v.elem_size in
              let below : room * v.elem_size < size_mod = omega arith in
              let e = wraps_not (room * v.elem_size) below in
              elim (Option-cases (realloc v.data_block (room * v.elem_size))) [
                | inl refused ↦
                    rw (short, some_size, small, e, refused)
                      (inr (_, refl, inl (v.data_block, room * v.elem_size, refused)))
                | inr (p, given) ↦
                    let fits = w.fits in
                    let sized = w.sized in
                    let above = leb→gt _ _ short in
                    let held = mul-le-mul_right v.elem_size fits in
                    let kept = mul-le-mul_right {m = v.len} {n = room} v.elem_size (omega arith) in
                    rw (short, some_size, small, e, given)
                      (inl (
                        _,
                        refl,
                        record {
                          vec = record {
                            sized = lawful.size _ _ p given;
                            fits = omega arith;
                            small = below;
                            positive = positive;
                          };
                          same_len = refl;
                          same_size = refl;
                          same_elements =
                              unfold elements in
                              lawful.kept _ _ p (v.len * v.elem_size) given (omega arith) kept;
                          enough = omega arith;
                        },
                      ))
              ]
        ]
  ]
