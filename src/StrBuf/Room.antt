-- ===== src/StrBuf/Room.antt =====
-- The contents of a character buffer, and the room that growing makes.
use mathlib.Core.List.{append_assoc}
use native.Mathlib.Nat.{pow-suc}
use claudec.Base.{
  ℕ, zero, suc, ◌+◌, ◌*◌, ◌/◌, ◌^◌, ◌≤◌, ◌<◌, ◌++◌, Bytes, codes, length, take, drop, leb, ltb, ◌≡◌,
  refl, sym, ap, ◌∙◌, inl, inr, arith, Bool-cases, Option-cases, leb→le, leb→gt, ltb→lt, ltb→ge,
  le→leb, length-append, length-take, length-drop, take-append,
}
use claudec.Memory.{Outcome, ok, size_max, size_mod, write_at, Realloc, IsRealloc, Refuses, Ends}
use claudec.StrBuf.{StrBuf, grown_cap, strbuf_reserve}

-- What is kept between calls: the block is as large as the capacity says.
pub record IsBuffer (b : StrBuf) : Type 0 where
  pub sized : length b.data_block ≡ b.cap
  pub fits : b.len ≤ b.cap
  pub small : b.cap < size_mod

-- The characters that the buffer holds.
unfoldable pub contents : StrBuf → Bytes
contents b = take b.len b.data_block

-- A capacity that is enough, unless more than 2^63 bytes are needed.
abbrev pub Grows : ℕ → Outcome ℕ → Type 0
Grows needed = Ends (λ c. (needed ≤ c) × (c < size_mod)) (2 ^ 63 < needed)

grown_cap-step :
    (fuel c needed : ℕ)
    → c < size_mod
    → needed < size_mod
    → (c < needed → c ≤ size_max / 2 → Grows needed (grown_cap fuel (c * 2) needed))
    → Grows needed (grown_cap (suc fuel) c needed)
unfolding grown_cap
grown_cap-step fuel c needed h k next = elim (Bool-cases (ltb c needed)) [
  | inr enough ↦ rw enough (inl (c, refl, (ltb→ge _ _ enough, h)))
  | inl more ↦ elim (Bool-cases (ltb (size_max / 2) c)) [
    | inl large ↦
        rw (more, large) (inr (codes "strbuf_append_n: capacity overflow", refl, ground arith))
    | inr small ↦ rw (more, small) (next (ltb→lt _ _ more) (ltb→ge _ _ small))
  ]
]

-- Enough fuel to double up to what is needed.
pub grown_cap-Grows :
    (fuel c needed : ℕ)
    → c < size_mod
    → needed < size_mod
    → needed ≤ c * 2 ^ fuel
    → Grows needed (grown_cap (suc fuel) c needed)
grown_cap-Grows zero c needed h k l =
    grown_cap-step zero c needed h k (λ more small. absurd (omega arith))
grown_cap-Grows (suc fuel) c needed h k l =
    let e : c * 2 ^ suc fuel ≡ c * 2 * 2 ^ fuel = rw (pow-suc 2 fuel) (ground arith) in
    let q = rw e at l in
    grown_cap-step (suc fuel) c needed h k
      (λ more small. grown_cap-Grows fuel (c * 2) needed (omega arith) k q)

-- What `strbuf_reserve` keeps, and the room it makes.
pub record IsReserved (b : StrBuf) (room : ℕ) (r : StrBuf) : Type 0 where
  pub buffer : IsBuffer r
  pub same_len : r.len ≡ b.len
  pub same_contents : contents r ≡ contents b
  pub enough : room ≤ r.cap

pub write_at-ok :
    (block : Bytes) (off : ℕ) (src : Bytes)
    → off + length src ≤ length block
    → (d : Bytes) × (write_at block off src ≡ ok d)
      × ((length d ≡ length block) × (take (off + length src) d ≡ take off block ++ src))
unfolding write_at
write_at-ok block off src h =
    let front = take off block in
    let rest = drop (off + length src) block in
    let off_fits = length-take off block (omega arith) in
    let joined : length (front ++ src) ≡ off + length src =
      length-append front src ∙ omega (arith, off_fits) in
    rw (le→leb _ _ h) (
      front ++ (src ++ rest),
      refl,
      (
        length-append front (src ++ rest)
            ∙ omega (arith, length-append src rest, length-drop (off + length src) block, off_fits),
        ap (λ k. take k (front ++ (src ++ rest))) (sym joined)
            ∙ ap (take (length (front ++ src))) (sym (append_assoc front src rest))
            ∙ take-append (front ++ src) rest,
      ),
    )

module _ (realloc : Realloc) (lawful : IsRealloc realloc) where
  pub strbuf_reserve-Ends :
      (b : StrBuf) (room : ℕ)
      → IsBuffer b
      → room < size_mod
      → Ends (IsReserved b room) (Refuses realloc) (strbuf_reserve realloc b room)
  unfolding strbuf_reserve
  strbuf_reserve-Ends b room w h = elim (Bool-cases (leb room b.cap)) [
    | inl there ↦ rw there (
        inl (
          b,
          refl,
          record { buffer = w; same_len = refl; same_contents = refl; enough = leb→le _ _ there },
        ))
    | inr not_there ↦ elim (Option-cases (realloc b.data_block room)) [
      | inl refused ↦ rw (not_there, refused) (inr (_, refl, (b.data_block, room, refused)))
      | inr (p, given) ↦
          let n = leb→gt _ _ not_there in
          rw (not_there, given)
            (inl (
              _,
              refl,
              record {
                buffer = record {
                  sized = lawful.size b.data_block room p given;
                  fits = omega arith;
                  small = h;
                };
                same_len = refl;
                same_contents =
                    unfold contents in
                    lawful.kept b.data_block room p b.len given (omega arith) (omega arith);
                enough = omega arith;
              },
            ))
    ]
  ]
