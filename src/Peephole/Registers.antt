-- ===== src/Peephole/Registers.antt =====
-- src/peephole.c: the zero-register idiom, `mov REG, 0` to `xor REG32, REG32`.
use claudec.Base.{
  ◌>>=◌, ℕ, suc, Bool, true, false, Option, none, some, List, [], ◌∷◌, str_eq, Bytes, codes,
  if◌then◌else◌, get_elem?,
}
use claudec.Peephole.Text.{is_blank, rest_after, strip_prefix, strncat_within, indent}

abbrev pub zr_src : List Bytes
zr_src =
    codes "rax"
    ∷ codes "rbx"
    ∷ codes "rcx"
    ∷ codes "rdx"
    ∷ codes "rsi"
    ∷ codes "rdi"
    ∷ codes "r8"
    ∷ codes "r9"
    ∷ codes "r10"
    ∷ codes "r11"
    ∷ codes "r12"
    ∷ codes "r13"
    ∷ codes "r14"
    ∷ codes "r15"
    ∷ codes "eax"
    ∷ codes "ebx"
    ∷ codes "ecx"
    ∷ codes "edx"
    ∷ codes "esi"
    ∷ codes "edi"
    ∷ []

abbrev pub zr_dst : List Bytes
zr_dst =
    codes "eax"
    ∷ codes "ebx"
    ∷ codes "ecx"
    ∷ codes "edx"
    ∷ codes "esi"
    ∷ codes "edi"
    ∷ codes "r8d"
    ∷ codes "r9d"
    ∷ codes "r10d"
    ∷ codes "r11d"
    ∷ codes "r12d"
    ∷ codes "r13d"
    ∷ codes "r14d"
    ∷ codes "r15d"
    ∷ codes "eax"
    ∷ codes "ebx"
    ∷ codes "ecx"
    ∷ codes "edx"
    ∷ codes "esi"
    ∷ codes "edi"
    ∷ []

-- The body of the loop: the register, then exactly ", 0".
unfoldable pub zr_is : Bytes → Bytes → Bool
zr_is reg p = elim (strip_prefix reg p) [ none ↦ false | some q ↦ str_eq q (codes ", 0") ]

-- The loop over the table, from index i.
unfoldable pub zr_scan : List Bytes → ℕ → Bytes → Option ℕ
zr_scan [] i p = none
zr_scan (reg ∷ regs) i p =
    let later = zr_scan regs (suc i) p in if zr_is reg p then some i else later

unfoldable pub zr_find_reg : Bytes → Option ℕ
zr_find_reg line = elim (strip_prefix (codes "mov ") (rest_after is_blank line)) [
  | none ↦ none
  | some p ↦ zr_scan zr_src 0 p
]

unfoldable pub match_zero_reg : List Bytes → Bool
match_zero_reg [] = false
match_zero_reg (line ∷ _) = elim (zr_find_reg line) [ none ↦ false | some _ ↦ true ]

-- The four calls of `strncat` on the buffer of 64 bytes.
unfoldable pub zero_reg_line : Bytes → Bytes → Bytes
zero_reg_line line reg =
    let put = strncat_within 64 in
    put (put (put (put (indent 64 line) (codes "xor ")) reg) (codes ", ")) reg

unfoldable pub replace_zero_reg : List Bytes → Option (List Bytes)
replace_zero_reg [] = none
replace_zero_reg (line ∷ _) = do
  idx ← zr_find_reg line
  reg ← get_elem? zr_dst idx
  some (zero_reg_line line reg ∷ [])
