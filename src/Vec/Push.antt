-- ===== src/Vec/Push.antt =====
-- What `vec_push` does to a vector.
use native.Mathlib.Nat.{div-mul-le_self, le-mul_of_pos_right}
use claudec.Base.{
  ℕ, ◌+◌, ◌*◌, ◌/◌, ◌%◌, ◌≤◌, ◌++◌, Bytes, length, take, leb, ltb, ◌==◌, if◌then◌else◌, ◌≡◌, refl,
  sym, ap, ◌∙◌, inl, inr, arith, Bool-cases, leb→le, leb→gt, ltb→lt, take-all,
}
use claudec.Memory.{ok, ◌>>=◌, size_max, size_mod, write_at, Realloc, IsRealloc, Ends, >>=-Ends}
use claudec.StrBuf.Room.{write_at-ok}
use claudec.Vec.{Vec, next_cap, vec_reserve, vec_push}
use claudec.Vec.Room.{IsVec, elements, HasRoom, TooMany, last_fits, wraps_not, vec_reserve-Ends}

-- The element stands after the elements that the vector had.
pub record IsPushed (v : Vec) (elem : Bytes) (r : Vec) : Type 0 where
  pub vec : IsVec r
  pub same_size : r.elem_size ≡ v.elem_size
  pub longer : r.len ≡ v.len + 1
  pub extended : elements r ≡ elements v ++ elem

module _ (realloc : Realloc) (lawful : IsRealloc realloc) where
  grow-Ends :
      (v : Vec) (room : ℕ)
      → IsVec v
      → v.len + 1 ≤ room
      → room ≤ 8 + 2 * v.len
      → Ends
          (HasRoom v (v.len + 1))
          (TooMany realloc v.elem_size (8 + 2 * v.len))
          (vec_reserve realloc v room)
  grow-Ends v room w h k = elim (vec_reserve-Ends realloc lawful v room w) [
    | inr (m, e, inl refused) ↦ inr (m, e, inl refused)
    | inr (m, e, inr large) ↦ inr (m, e, inr (omega arith))
    | inl (r, e, u) ↦
        let enough = u.enough in
        inl (
          r,
          e,
          record {
            vec = u.vec;
            same_len = u.same_len;
            same_size = u.same_size;
            same_elements = u.same_elements;
            enough = omega arith;
          },
        )
  ]

  room-Ends :
      (v : Vec)
      → IsVec v
      → Ends
          (HasRoom v (v.len + 1))
          (TooMany realloc v.elem_size (8 + 2 * v.len))
          (if leb v.cap v.len then (next_cap v.cap >>= vec_reserve realloc v) else ok v)
  unfolding next_cap
  room-Ends v w = elim (Bool-cases (leb v.cap v.len)) [
    | inr there ↦
        let below = leb→gt _ _ there in
        rw there (
          inl (
            v,
            refl,
            record {
              vec = w;
              same_len = refl;
              same_size = refl;
              same_elements = refl;
              enough = omega arith;
            },
          ))
    | inl full ↦
        let above = leb→le _ _ full in
        let fits = w.fits in
        elim (Bool-cases (v.cap == 0)) [
          | inl z ↦
              let none_yet : v.cap ≡ 0 = ground arith in
              rw (full, z) (grow-Ends v 8 w (omega arith) (omega arith))
          | inr z ↦
              let some_yet : 1 ≤ v.cap = ground arith in
              elim (Bool-cases (ltb (size_max / 2) v.cap)) [
                | inl large ↦
                    let huge = ltb→lt _ _ large in
                    let all = div-mul-le_self size_max v.elem_size in
                    let part = le-mul_of_pos_right (size_max / v.elem_size) w.positive in
                    rw (full, z, large) (inr (_, refl, inr (omega arith)))
                | inr small ↦
                    rw (full, z, small) (grow-Ends v (v.cap * 2) w (omega arith) (omega arith))
              ]
        ]
  ]

  put-Ends :
      (Q : Type 0) (v r : Vec) (elem : Bytes)
      → length elem ≡ v.elem_size
      → HasRoom v (v.len + 1) r
      → Ends (IsPushed v elem) Q (
          write_at r.data_block ((r.len * r.elem_size) % size_mod) (take r.elem_size elem) >>= λ d.
          ok (record r { data_block = d; len = (r.len + 1) % size_mod }))
  put-Ends Q v r elem h u =
      let w = u.vec in
      let sized = w.sized in
      let small = w.small in
      let enough = u.enough in
      let same = u.same_len in
      let size = u.same_size in
      let whole : take r.elem_size elem ≡ elem =
        ap (λ k. take k elem) (size ∙ sym h) ∙ take-all elem in
      let inside = last_fits r.len r.cap r.elem_size (omega arith) in
      let cap_small = le-mul_of_pos_right r.cap w.positive in
      let at_end = wraps_not (r.len * r.elem_size) (omega arith) in
      let one_more = wraps_not (r.len + 1) (omega arith) in
      let (d, written, (same_block, front)) =
        write_at-ok r.data_block (r.len * r.elem_size) elem (omega arith) in
      let ends : (r.len + 1) * r.elem_size ≡ r.len * r.elem_size + length elem = ground arith in
      rw (whole, at_end, one_more, written)
        (inl (
          _,
          refl,
          record {
            vec = record {
              sized = same_block ∙ sized;
              fits = omega arith;
              small = small;
              positive = w.positive;
            };
            same_size = size;
            longer = omega arith;
            extended =
                unfold elements in
                ap (λ k. take k d) ends
                ∙ front
                ∙ ap (◌++ elem) (unfold elements in u.same_elements);
          },
        ))

  -- With an allocator as the C standard describes it, pushing an element of the size of a well-formed
  -- vector's elements ends:
  -- either the vector is well formed, one longer, and has the element after those that it had, or the
  -- call exits with a message, and then the allocator refuses a request or 8 + 2 * len elements do not
  -- fit a size_t. It never writes out of bounds.
  pub vec_push-Ends :
      (v : Vec) (elem : Bytes)
      → IsVec v
      → length elem ≡ v.elem_size
      → Ends
          (IsPushed v elem)
          (TooMany realloc v.elem_size (8 + 2 * v.len))
          (vec_push realloc v elem)
  unfolding vec_push
  vec_push-Ends v elem w h = >>=-Ends _ _ _ _ _ (room-Ends v w) (λ r u. put-Ends _ v r elem h u)
