-- ===== src/StrBuf/Finish.antt =====
-- What `strbuf_null_terminate` does to a character buffer, and when an append cannot fail.

use claudec.Base.{
  ◌≢◌, none, ℕ, ◌+◌, ◌^◌, ◌≤◌, [], ◌∷◌, ◌++◌, Bytes, codes, length, take, ◌≡◌, refl, ap, ◌∙◌, inl,
  inr, arith,
}
use claudec.Memory.{ok, ◌>>=◌, write_at, Realloc, IsRealloc, Ends, >>=-Ends}
use claudec.StrBuf.{StrBuf, strbuf_append_n}
use claudec.StrBuf.Room.{IsBuffer, contents, IsReserved, write_at-ok}
use claudec.StrBuf.{strbuf_null_terminate}
use claudec.StrBuf.Append.{IsAppended, TooMuch, with_room-Ends, strbuf_append_n-Ends}

-- The block holds what the buffer held, and a 0 after it that its length does not count.
pub record IsTerminated (b r : StrBuf) : Type 0 where
  pub buffer : IsBuffer r
  pub same_len : r.len ≡ b.len
  pub text : take (r.len + 1) r.data_block ≡ contents b ++ (0 ∷ [])

module _ (realloc : Realloc) (lawful : IsRealloc realloc) where
  -- With an allocator as the C standard describes it, `strbuf_null_terminate` on a well-formed buffer
  -- ends: either the buffer is well formed, of the same length, and its block holds what it held and
  -- then a 0, or the call exits with a message, and then the allocator refuses a request or the length
  -- is 2^63 or more. It never writes out of bounds.
  pub strbuf_null_terminate-Ends :
      (b : StrBuf)
      → IsBuffer b
      → Ends (IsTerminated b) (TooMuch realloc (b.len + 1)) (strbuf_null_terminate realloc b)
  unfolding strbuf_null_terminate
  strbuf_null_terminate-Ends b w =
      >>=-Ends _ _ _ _ _
        (with_room-Ends realloc lawful (codes "strbuf_null_terminate: capacity overflow") b w)
        terminated
    where
      terminated :
          (r : StrBuf)
          → IsReserved b (b.len + 1) r
          → Ends (IsTerminated b) (TooMuch realloc (b.len + 1)) (
              write_at r.data_block r.len (0 ∷ []) >>= λ d.
              ok (record { data_block = d; len = r.len; cap = r.cap }))
      terminated r v =
          let u = v.buffer in
          let sized = u.sized in
          let same = v.same_len in
          let enough = v.enough in
          let (d, written, (size, front)) = write_at-ok r.data_block r.len (0 ∷ []) (omega arith) in
          rw written (
            inl (
              _,
              refl,
              record {
                buffer = record { sized = size ∙ sized; fits = u.fits; small = u.small };
                same_len = same;
                text = front ∙ ap (◌++ (0 ∷ [])) (unfold contents in v.same_contents);
              },
            ))

  -- With an allocator that also never refuses, appending the first n bytes of s to a well-formed buffer
  -- succeeds where the new length is at most 2^63, and the buffer holds them after what it held.
  pub strbuf_append_n-succeeds :
      ((p : Bytes) (n : ℕ) → realloc p n ≢ none)
      → (b : StrBuf) (s : Bytes) (n : ℕ) → IsBuffer b
      → n ≤ length s
      → b.len + n ≤ 2 ^ 63
      → (r : StrBuf) × (strbuf_append_n realloc b s n ≡ ok r) × IsAppended b (take n s) r
  strbuf_append_n-succeeds gives b s n w h k =
      elim (strbuf_append_n-Ends realloc lawful b s n w h (omega arith)) [
        | inl done ↦ done
        | inr (m, e, inl (p, size, refused)) ↦ absurd (gives p size refused)
        | inr (m, e, inr large) ↦ absurd (omega arith)
      ]
