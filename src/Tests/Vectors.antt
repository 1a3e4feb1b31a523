-- ===== src/Tests/Vectors.antt =====
-- The same for the growing array, at elements of two bytes.
use claudec.Base.{◌+◌, ◌*◌, refl, arith, codes}
use claudec.Memory.{Ends}
use claudec.Vec.{Vec, vec_push}
use claudec.Vec.Room.{IsVec, TooMany}
use claudec.Vec.Push.{IsPushed, vec_push-Ends}
use claudec.Tests.Buffers.{allocator, allocator-IsRealloc}

abbrev pair : Vec
pair = record { data_block = codes "abcd"; len = 2; cap = 2; elem_size = 2 }

pair-IsVec : IsVec pair
pair-IsVec = record {
  sized = refl;
  fits = omega arith;
  small = omega arith;
  positive = omega arith;
}

vec_push-Ends_example :
    Ends
      (IsPushed pair (codes "ef"))
      (TooMany allocator pair.elem_size (8 + 2 * pair.len))
      (vec_push allocator pair (codes "ef"))
vec_push-Ends_example =
    vec_push-Ends allocator allocator-IsRealloc pair (codes "ef") pair-IsVec refl
