-- ===== src/Vec.antt =====
-- src/vec.c and include/vec.h: the growing array of elements of a fixed size.
--
-- The `int` results are always 1 and are left out, and `free` of the block is not seen in the model. A
-- pointer into the block is its offset. The element that is copied does not lie in the block itself.
use claudec.Base.{
  ℕ, ◌+◌, ◌-◌, ◌*◌, ◌/◌, ◌%◌, ◌&&◌, [], none, some, Bytes, codes, take, leb, ltb, ◌==◌,
  if◌then◌else◌,
}
use claudec.Memory.{Outcome, ok, fatal, ◌>>=◌, size_max, size_mod, write_at, Realloc}
pub mod Room
pub mod Push

pub record Vec : Type 0 where
  pub data_block : Bytes
  pub len : ℕ
  pub cap : ℕ
  pub elem_size : ℕ

unfoldable pub vec_init : ℕ → Vec
vec_init elem_size = record { data_block = []; len = 0; cap = 0; elem_size = elem_size }

unfoldable pub vec_free : Vec → Vec
vec_free v = record { data_block = []; len = 0; cap = 0; elem_size = 0 }

-- The capacity that `vec_push` asks for when the vector is full.
unfoldable pub next_cap : ℕ → Outcome ℕ
next_cap cap =
    if cap == 0
    then ok 8
    else if ltb (size_max / 2) cap
    then fatal (codes "vec_push: capacity overflow")
    else ok (cap * 2)

module _ (realloc : Realloc) where
  unfoldable pub vec_reserve : Vec → ℕ → Outcome Vec
  vec_reserve v min_cap =
      if leb min_cap v.cap
      then ok v
      else if ltb 0 v.elem_size && ltb (size_max / v.elem_size) min_cap
      then fatal (codes "vec_reserve: capacity overflow")
      else elim (realloc v.data_block ((min_cap * v.elem_size) % size_mod)) [
        | none ↦ fatal (codes "vec_reserve: out of memory")
        | some p ↦ ok (record v { data_block = p; cap = min_cap })
      ]

  unfoldable pub vec_push : Vec → Bytes → Outcome Vec
  vec_push v elem = do
    r ← if leb v.cap v.len then (do new_cap ← next_cap v.cap; vec_reserve v new_cap) else ok v
    d ← write_at r.data_block ((r.len * r.elem_size) % size_mod) (take r.elem_size elem)
    ok (record r { data_block = d; len = (r.len + 1) % size_mod })

unfoldable pub vec_get : Vec → ℕ → Outcome ℕ
vec_get v index =
    if leb v.len index
    then fatal (codes "vec_get: index out of bounds")
    else ok ((index * v.elem_size) % size_mod)

unfoldable pub vec_pop : Vec → Outcome Vec
vec_pop v =
    if v.len == 0
    then fatal (codes "vec_pop: vector is empty")
    else ok (record v { len = v.len - 1 })

unfoldable pub vec_clear : Vec → Vec
vec_clear v = record v { len = 0 }
