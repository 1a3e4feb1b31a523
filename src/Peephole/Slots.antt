-- ===== src/Peephole/Slots.antt =====
-- src/peephole.c: stores to and reloads from a stack slot.
use claudec.Base.{
  ◌>>=◌, ℕ, Bool, false, ◌&&◌, Option, none, some, List, [], ◌∷◌, str_eq, Bytes, codes,
  if◌then◌else◌,
}
use claudec.Peephole.Text.{is_blank, is_digit, not_comma, passed, rest_after, strip_prefix, copied}

-- The register and the offset that a store or a reload names, as text.
pub record Slot : Type 0 where
  pub reg : Bytes
  pub off : Bytes

abbrev pub reg_size : ℕ
reg_size = 32

abbrev pub off_size : ℕ
off_size = 16

-- "mov [rbp - N], REG"
unfoldable pub pp_parse_store_rbp : Bytes → Option Slot
pp_parse_store_rbp line = do
  p ← strip_prefix (codes "mov ") (rest_after is_blank line)
  q ← strip_prefix (codes "[rbp - ") p
  off ← copied off_size (passed is_digit q)
  r ← strip_prefix (codes "], ") (rest_after is_digit q)
  reg ← copied reg_size r
  some (record { reg = reg; off = off })

-- "mov REG, [rbp - N]"
unfoldable pub pp_parse_reload_rbp : Bytes → Option Slot
pp_parse_reload_rbp line = do
  p ← strip_prefix (codes "mov ") (rest_after is_blank line)
  reg ← copied reg_size (passed not_comma p)
  q ← strip_prefix (codes ", [rbp - ") (rest_after not_comma p)
  off ← copied off_size (passed is_digit q)
  if str_eq (rest_after is_digit q) (codes "]")
      then some (record { reg = reg; off = off })
      else none

abbrev pub both : Option Slot → Option Slot → (Slot → Slot → Bool) → Bool
both none o t = false
both (some s) none t = false
both (some s) (some r) t = t s r

abbrev pub same_slot : Slot → Slot → Bool
same_slot s r = str_eq s.reg r.reg && str_eq s.off r.off

abbrev pub same_offset : Slot → Slot → Bool
same_offset s r = str_eq s.off r.off

unfoldable pub match_redundant_reload : List Bytes → Bool
match_redundant_reload (a ∷ b ∷ _) = both (pp_parse_store_rbp a) (pp_parse_reload_rbp b) same_slot
match_redundant_reload _ = false

unfoldable pub replace_redundant_reload : List Bytes → Option (List Bytes)
replace_redundant_reload [] = none
replace_redundant_reload (a ∷ _) = some (a ∷ [])

unfoldable pub match_redundant_store : List Bytes → Bool
match_redundant_store (a ∷ b ∷ _) = both (pp_parse_store_rbp a) (pp_parse_store_rbp b) same_offset
match_redundant_store _ = false

unfoldable pub replace_redundant_store : List Bytes → Option (List Bytes)
replace_redundant_store (a ∷ b ∷ _) = some (b ∷ [])
replace_redundant_store _ = none
