-- ===== src/Peephole/Jumps.antt =====
-- src/peephole.c: a jump to the label on the next line.
use claudec.Base.{
  ◌>>=◌, ℕ, ◌-◌, Bool, true, false, ◌&&◌, ◌||◌, Option, none, some, List, [], ◌∷◌, str_eq, Bytes,
  codes, if◌then◌else◌, ◌==◌, leb, length, take,
}
use claudec.Peephole.Text.{is_blank, not_colon, passed, rest_after, strip_prefix}

-- A character that the loop at the end of `pp_parse_jmp_label` cuts off.
abbrev pub is_trailing : ℕ → Bool
is_trailing c = is_blank c || (c == 13) || (c == 10)

-- `while (len > 0 && is_trailing(buf[len-1])) buf[--len] = '\0';`
unfoldable pub strip_end : Bytes → Bytes
strip_end [] = []
strip_end (c ∷ cs) = elim (strip_end cs) [
  | [] ↦ if is_trailing c then [] else c ∷ []
  | d ∷ ds ↦ c ∷ d ∷ ds
]

abbrev pub is_nonempty : Bytes → Bool
is_nonempty [] = false
is_nonempty (_ ∷ _) = true

-- After "jmp": a blank, then the label.
unfoldable pub jump_target : Bytes → ℕ → Option Bytes
jump_target [] bufsz = none
jump_target (c ∷ cs) bufsz =
    let label = rest_after is_blank (c ∷ cs) in
    let buf = strip_end (take (bufsz - 1) label) in
    if is_blank c && is_nonempty label && is_nonempty buf then some buf else none

unfoldable pub pp_parse_jmp_label : Bytes → ℕ → Option Bytes
pp_parse_jmp_label line bufsz = do
  p ← strip_prefix (codes "jmp") (rest_after is_blank line)
  jump_target p bufsz

-- "LABEL:" at the start of the line. Nothing is asked of what follows the colon.
unfoldable pub pp_parse_label_def : Bytes → ℕ → Option Bytes
pp_parse_label_def [] bufsz = none
pp_parse_label_def (c ∷ cs) bufsz =
    let name = passed not_colon (c ∷ cs) in
    if is_blank c
    then none
    else if is_nonempty (rest_after not_colon (c ∷ cs))
    then (if (length name == 0) || leb bufsz (length name) then none else some name)
    else none

abbrev pub both_names : Option Bytes → Option Bytes → Bool
both_names none o = false
both_names (some a) none = false
both_names (some a) (some b) = str_eq a b

unfoldable pub match_dead_jump : List Bytes → Bool
match_dead_jump (a ∷ b ∷ _) = both_names (pp_parse_jmp_label a 64) (pp_parse_label_def b 64)
match_dead_jump _ = false

unfoldable pub replace_dead_jump : List Bytes → Option (List Bytes)
replace_dead_jump (a ∷ b ∷ _) = some (b ∷ [])
replace_dead_jump _ = none
