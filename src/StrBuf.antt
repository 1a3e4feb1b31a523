-- ===== src/StrBuf.antt =====
-- src/strbuf.c and include/strbuf.h: the growing character buffer.
--
-- The `int` results are always 1 and are left out. `strlen(s)` is the length of s, a C string
-- without its terminator. `free` of the block is not seen in the model. The source of a copy does not lie in the buffer itself.
use claudec.Base.{
  ℕ, zero, suc, ◌+◌, ◌*◌, ◌/◌, ◌%◌, [], ◌∷◌, none, some, Bytes, codes, length, take, leb, ltb, ◌==◌,
  if◌then◌else◌,
}
use claudec.Memory.{Outcome, ok, fatal, stuck, ◌>>=◌, size_max, size_mod, write_at, Realloc}
pub mod Room
pub mod Append
pub mod Finish

pub record StrBuf : Type 0 where
  pub data_block : Bytes
  pub len : ℕ
  pub cap : ℕ

unfoldable pub strbuf_init : StrBuf
strbuf_init = record { data_block = []; len = 0; cap = 0 }

unfoldable pub strbuf_free : StrBuf → StrBuf
strbuf_free b = record { data_block = []; len = 0; cap = 0 }

-- The growth step of `strbuf_append_char` and `strbuf_null_terminate`.
unfoldable pub doubled_cap : Bytes → ℕ → Outcome ℕ
doubled_cap msg cap =
    if cap == 0 then ok 8 else if ltb (size_max / 2) cap then fatal msg else ok (cap * 2)

-- `while (new_cap < needed)`
unfoldable pub grown_cap : ℕ → ℕ → ℕ → Outcome ℕ
grown_cap zero new_cap needed = stuck
grown_cap (suc fuel) new_cap needed =
    let next = grown_cap fuel (new_cap * 2) needed in
    if ltb new_cap needed
    then (if ltb (size_max / 2) new_cap
        then fatal (codes "strbuf_append_n: capacity overflow")
        else next)
    else ok new_cap

module _ (realloc : Realloc) where
  unfoldable pub strbuf_reserve : StrBuf → ℕ → Outcome StrBuf
  strbuf_reserve b min_cap =
      if leb min_cap b.cap then ok b else elim (realloc b.data_block min_cap) [
        | none ↦ fatal (codes "strbuf_reserve: out of memory")
        | some p ↦ ok (record { data_block = p; len = b.len; cap = min_cap })
      ]

  -- Room for one more byte.
  unfoldable pub with_room : Bytes → StrBuf → Outcome StrBuf
  with_room msg b =
      if leb b.cap b.len
      then (do new_cap ← doubled_cap msg b.cap; strbuf_reserve b new_cap)
      else ok b

  unfoldable pub strbuf_append_char : StrBuf → ℕ → Outcome StrBuf
  strbuf_append_char b c = do
    r ← with_room (codes "strbuf_append_char: capacity overflow") b
    d ← write_at r.data_block r.len (c ∷ [])
    ok (record { data_block = d; len = (r.len + 1) % size_mod; cap = r.cap })

  -- From `if (needed > b->cap)` on.
  unfoldable pub append_needed : StrBuf → Bytes → ℕ → ℕ → Outcome StrBuf
  append_needed b s n needed = do
    r ←
        if ltb b.cap needed
        then (do
          new_cap ← grown_cap 65 (if b.cap == 0 then 8 else b.cap) needed
          strbuf_reserve b new_cap)
        else ok b
    d ← write_at r.data_block r.len (take n s)
    ok (record { data_block = d; len = (r.len + n) % size_mod; cap = r.cap })

  unfoldable pub strbuf_append_n : StrBuf → Bytes → ℕ → Outcome StrBuf
  strbuf_append_n b s n =
      let needed = (b.len + n) % size_mod in
      if n == 0
      then ok b
      else if ltb needed b.len
      then fatal (codes "strbuf_append_n: size overflow")
      else append_needed b s n needed

  unfoldable pub strbuf_append_str : StrBuf → Bytes → Outcome StrBuf
  strbuf_append_str b s = strbuf_append_n b s (length s)

  unfoldable pub strbuf_null_terminate : StrBuf → Outcome StrBuf
  strbuf_null_terminate b = do
    r ← with_room (codes "strbuf_null_terminate: capacity overflow") b
    d ← write_at r.data_block r.len (0 ∷ [])
    ok (record { data_block = d; len = r.len; cap = r.cap })
