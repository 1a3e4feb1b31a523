-- ===== src/StrBuf/Append.antt =====
-- What each append does to a character buffer.
use mathlib.Core.List.{append-nil}
use claudec.Base.{
  ℕ, zero, suc, ◌+◌, ◌*◌, ◌/◌, ◌%◌, ◌^◌, ◌≤◌, ◌<◌, false, [], ◌∷◌, ◌++◌, Bytes, codes, length, take,
  leb, ltb, ◌==◌, if◌then◌else◌, ◌≡◌, refl, sym, ap, ◌∙◌, ◌⊎◌, inl, inr, arith, Bool-cases, leb→le,
  leb→gt, ltb→ge, length-take, subst,
}
use claudec.Memory.{
  Outcome, ok, ◌>>=◌, size_max, size_mod, write_at, Realloc, IsRealloc, Refuses, Ends, >>=-Ends,
}
use claudec.StrBuf.{
  StrBuf, doubled_cap, grown_cap, strbuf_reserve, with_room, strbuf_append_char, append_needed,
  strbuf_append_n,
}
use claudec.StrBuf.Room.{
  IsBuffer, contents, Grows, grown_cap-Grows, IsReserved, write_at-ok, strbuf_reserve-Ends,
}

-- The buffer holds the bytes s after what it held before.
pub record IsAppended (b : StrBuf) (s : Bytes) (r : StrBuf) : Type 0 where
  pub buffer : IsBuffer r
  pub longer : r.len ≡ b.len + length s
  pub extended : contents r ≡ contents b ++ s

-- Why an append may not return: the allocator refuses, or the buffer would exceed 2^63 bytes.
abbrev pub TooMuch : Realloc → ℕ → Type 0
TooMuch realloc n = Refuses realloc ⊎ (2 ^ 63 < n)

Ends-weaken :
    {A : Type 0} (P : A → Type 0) (Q Q' : Type 0) (o : Outcome A)
    → (Q → Q')
    → Ends P Q o
    → Ends P Q' o
Ends-weaken P Q Q' o f (inl x) = inl x
Ends-weaken P Q Q' o f (inr (m, e, q)) = inr (m, e, f q)

module _ (realloc : Realloc) (lawful : IsRealloc realloc) where
  -- The copy at the end of an append.
  store-Ends :
      (Q : Type 0) (b r : StrBuf) (s : Bytes)
      → IsReserved b (b.len + length s) r
      → Ends (IsAppended b s) Q (
          write_at r.data_block r.len s >>= λ d.
          ok (record { data_block = d; len = (r.len + length s) % size_mod; cap = r.cap }))
  store-Ends Q b r s v =
      let w = v.buffer in
      let sized = w.sized in
      let small = w.small in
      let same = v.same_len in
      let enough = v.enough in
      let (d, written, (size, front)) = write_at-ok r.data_block r.len s (omega arith) in
      let short : (r.len + length s) % size_mod ≡ r.len + length s = ground arith in
      rw written (
        inl (
          _,
          refl,
          record {
            buffer = record { sized = size ∙ sized; fits = omega arith; small = small };
            longer = omega arith;
            extended =
                unfold contents in
                ap (λ k. take k d) short ∙ front ∙ ap (◌++ s) (unfold contents in v.same_contents);
          },
        ))

  IsReserved-Ends :
      (b : StrBuf) (room n : ℕ) (o : Outcome ℕ)
      → IsBuffer b
      → Ends (λ c. (room ≤ c) × (c < size_mod)) (2 ^ 63 < n) o
      → Ends (IsReserved b room) (TooMuch realloc n) (o >>= strbuf_reserve realloc b)
  IsReserved-Ends b room n o w (inr (m, e, q)) = rw e (inr (m, refl, inr q))
  IsReserved-Ends b room n o w (inl (c, e, (large, small))) =
      rw e (grown (strbuf_reserve-Ends realloc lawful b c w small))
    where
      grown :
          Ends (IsReserved b c) (Refuses realloc) (strbuf_reserve realloc b c)
          → Ends (IsReserved b room) (TooMuch realloc n) (strbuf_reserve realloc b c)
      grown (inr (m, e, q)) = inr (m, e, inl q)
      grown (inl (r, e, v)) =
          let enough = v.enough in
          inl (
            r,
            e,
            record {
              buffer = v.buffer;
              same_len = v.same_len;
              same_contents = v.same_contents;
              enough = omega arith;
            },
          )

  same-IsReserved : (b : StrBuf) (room : ℕ) → IsBuffer b → room ≤ b.cap → IsReserved b room b
  same-IsReserved b room w h = record {
    buffer = w;
    same_len = refl;
    same_contents = refl;
    enough = h;
  }

  doubled_cap-Ends :
      (msg : Bytes) (cap : ℕ)
      → cap < size_mod
      → Ends (λ c. (cap + 1 ≤ c) × (c < size_mod)) (2 ^ 63 < cap + 1) (doubled_cap msg cap)
  unfolding doubled_cap
  doubled_cap-Ends msg cap h = elim (Bool-cases (cap == 0)) [
    | inl none_yet ↦ rw none_yet (inl (8, refl, (ground arith, omega arith)))
    | inr some_yet ↦ elim (Bool-cases (ltb (size_max / 2) cap)) [
      | inl large ↦ rw (some_yet, large) (inr (msg, refl, ground arith))
      | inr small ↦ rw (some_yet, small) (inl (cap * 2, refl, (ground arith, ground arith)))
    ]
  ]

  pub with_room-Ends :
      (msg : Bytes) (b : StrBuf)
      → IsBuffer b
      → Ends (IsReserved b (b.len + 1)) (TooMuch realloc (b.len + 1)) (with_room realloc msg b)
  unfolding with_room
  with_room-Ends msg b w = elim (Bool-cases (leb b.cap b.len)) [
    | inr room ↦
        let below = leb→gt _ _ room in
        rw room (inl (b, refl, same-IsReserved b (b.len + 1) w (omega arith)))
    | inl full ↦
        let above = leb→le _ _ full in
        let fits = w.fits in
        let e : b.cap ≡ b.len = omega arith in
        rw full (
          IsReserved-Ends b (b.len + 1) (b.len + 1) (doubled_cap msg b.cap) w (
            subst
              (λ k.
                Ends (λ c. (k + 1 ≤ c) × (c < size_mod)) (2 ^ 63 < k + 1) (doubled_cap msg b.cap))
              e (doubled_cap-Ends msg b.cap w.small)))
  ]

  -- With an allocator as the C standard describes it, appending a character to a buffer ends: either
  -- the buffer is well formed, one longer, and holds the character after what it held, or the call
  -- exits with a message, and then the allocator refuses a request or the length exceeds 2^63. It
  -- never writes out of bounds.
  pub strbuf_append_char-Ends :
      (b : StrBuf) (c : ℕ)
      → IsBuffer b
      → Ends (IsAppended b (c ∷ [])) (TooMuch realloc (b.len + 1)) (strbuf_append_char realloc b c)
  unfolding strbuf_append_char
  strbuf_append_char-Ends b c w =
      >>=-Ends _ _ _ _ _ (with_room-Ends (codes "strbuf_append_char: capacity overflow") b w)
        (λ r v. store-Ends _ b r (c ∷ []) v)

  append_needed-Ends :
      (b : StrBuf) (s : Bytes) (n : ℕ)
      → IsBuffer b
      → n ≤ length s
      → b.len + n < size_mod
      → Ends
          (IsAppended b (take n s))
          (TooMuch realloc (b.len + n))
          (append_needed realloc b s n (b.len + n))
  unfolding append_needed
  append_needed-Ends b s n w h k = >>=-Ends _ _ _ _ _ room stored
    where
      needed : ℕ
      needed = b.len + n

      start : ℕ
      start = if b.cap == 0 then 8 else b.cap

      start-Grows : Grows needed (grown_cap 65 start needed)
      start-Grows = elim (Bool-cases (b.cap == 0)) [
        | inl z ↦ rw z (grown_cap-Grows 64 8 needed (omega arith) k (omega arith))
        | inr z ↦
            let small = w.small in
            let positive : 1 ≤ b.cap = ground arith in
            rw z (grown_cap-Grows 64 b.cap needed small k (omega arith))
      ]

      room : Ends (IsReserved b needed) (TooMuch realloc needed) (
          if ltb b.cap needed
          then (grown_cap 65 start needed >>= strbuf_reserve realloc b)
          else ok b)
      room = elim (Bool-cases (ltb b.cap needed)) [
        | inl short ↦ rw short (IsReserved-Ends b needed needed _ w start-Grows)
        | inr enough ↦ rw enough (inl (b, refl, same-IsReserved b needed w (ltb→ge _ _ enough)))
      ]

      stored :
          (r : StrBuf)
          → IsReserved b needed r
          → Ends (IsAppended b (take n s)) (TooMuch realloc needed) (
              write_at r.data_block r.len (take n s) >>= λ d.
              ok (record { data_block = d; len = (r.len + n) % size_mod; cap = r.cap }))
      stored r v =
          subst
            (λ m.
              IsReserved b (b.len + m) r
              → Ends (IsAppended b (take n s)) (TooMuch realloc needed) (
                  write_at r.data_block r.len (take n s) >>= λ d.
                  ok (record { data_block = d; len = (r.len + m) % size_mod; cap = r.cap })))
            (length-take n s h) (store-Ends _ b r (take n s)) v

  -- With an allocator as the C standard describes it, appending the first n bytes of s ends: either
  -- the buffer is well formed and holds these bytes after what it held, or the call exits with a
  -- message, and then the allocator refuses a request or the length exceeds 2^63. The loop that
  -- doubles the capacity ends, and nothing is written out of bounds.
  pub strbuf_append_n-Ends :
      (b : StrBuf) (s : Bytes) (n : ℕ)
      → IsBuffer b
      → n ≤ length s
      → n < size_mod
      → Ends (IsAppended b (take n s)) (TooMuch realloc (b.len + n)) (strbuf_append_n realloc b s n)
  unfolding strbuf_append_n
  strbuf_append_n-Ends b s zero w h k = inl (
    b,
    refl,
    record { buffer = w; longer = omega arith; extended = sym (append-nil (contents b)) },
  )
  strbuf_append_n-Ends b s (suc m) w h k =
      let n = suc m in
      let small = w.small in
      let fits = w.fits in
      let some_bytes : (suc m == 0) ≡ false = ground arith in
      elim (Bool-cases (ltb ((b.len + n) % size_mod) b.len)) [
        | inl wraps ↦
            rw (some_bytes, wraps)
              (inr (codes "strbuf_append_n: size overflow", refl, inr (ground arith)))
        | inr holds ↦
            let e : b.len + n ≡ (b.len + n) % size_mod = ground arith in
            rw (some_bytes, holds, sym e) (append_needed-Ends b s n w h (ground arith))
      ]
