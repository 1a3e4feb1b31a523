-- ===== src/Peephole/Moves.antt =====
-- src/peephole.c: moves of a register to itself, and a push before a pop.
use claudec.Base.{
  ◌>>=◌, ℕ, Bool, true, false, Option, none, some, List, [], ◌∷◌, str_eq, Bytes, codes,
  if◌then◌else◌,
}
use claudec.Peephole.Text.{
  is_blank, not_comma, passed, rest_after, strip_prefix, copied, strncat_within, indent,
}

-- After "mov ": the destination, ", " and the destination again up to the end of the line.
unfoldable pub is_same_move : Bytes → Bool
is_same_move p = elim (strip_prefix (codes ", ") (rest_after not_comma p)) [
  | none ↦ false
  | some q ↦ str_eq q (passed not_comma p)
]

unfoldable pub match_nop_move : List Bytes → Bool
match_nop_move [] = false
match_nop_move (line ∷ _) = elim (strip_prefix (codes "mov ") (rest_after is_blank line)) [
  | none ↦ false
  | some p ↦ is_same_move p
]

unfoldable pub replace_nop_move : List Bytes → Option (List Bytes)
replace_nop_move win = some []

-- The register of a "push REG" or "pop REG" line.
unfoldable pub pp_extract_reg : Bytes → Bytes → ℕ → Option Bytes
pp_extract_reg line mnemonic dst_size = do
  reg ← strip_prefix mnemonic (rest_after is_blank line)
  copied dst_size reg

unfoldable pub push_reg : Bytes → Option Bytes
push_reg line = pp_extract_reg line (codes "push ") 32

unfoldable pub pop_reg : Bytes → Option Bytes
pop_reg line = pp_extract_reg line (codes "pop ") 32

unfoldable pub match_push_pop : List Bytes → Bool
match_push_pop (a ∷ b ∷ _) = elim (push_reg a) [
  | none ↦ false
  | some _ ↦ elim (pop_reg b) [ none ↦ false | some _ ↦ true ]
]
match_push_pop _ = false

-- The four calls of `strncat` on the buffer of 80 bytes.
unfoldable pub move_line : Bytes → Bytes → Bytes → Bytes
move_line line r0 r1 =
    let put = strncat_within 80 in
    put (put (put (put (indent 80 line) (codes "mov ")) r1) (codes ", ")) r0

unfoldable pub replace_push_pop : List Bytes → Option (List Bytes)
replace_push_pop (a ∷ b ∷ _) = do
  r0 ← push_reg a
  r1 ← pop_reg b
  some (if str_eq r0 r1 then [] else move_line a r0 r1 ∷ [])
replace_push_pop _ = none
