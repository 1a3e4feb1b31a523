-- ===== src/Peephole/Text.antt =====
-- The string handling of src/peephole.c: prefixes, runs of characters and bounded buffers.
use claudec.Base.{
  ℕ, ◌-◌, Bool, true, false, ◌||◌, ◌&&◌, Option, none, some, [], ◌∷◌, ◌++◌, leb, ◌==◌,
  if◌then◌else◌, Bytes, take, length,
}

-- The test of `while (*p == ' ' || *p == '\t')`.
abbrev pub is_blank : ℕ → Bool
is_blank c = (c == 32) || (c == 9)

abbrev pub is_digit : ℕ → Bool
is_digit c = leb b'0' c && leb c b'9'

abbrev pub not_comma : ℕ → Bool
not_comma c = if c == b',' then false else true

abbrev pub not_colon : ℕ → Bool
not_colon c = if c == b':' then false else true

-- `while (test(*p)) p++`: what is passed over, and what p points to then.
unfoldable pub passed : (ℕ → Bool) → Bytes → Bytes
passed t [] = []
passed t (c ∷ cs) = if t c then c ∷ passed t cs else []

unfoldable pub rest_after : (ℕ → Bool) → Bytes → Bytes
rest_after t [] = []
rest_after t (c ∷ cs) = if t c then rest_after t cs else c ∷ cs

-- `if (strncmp(p, prefix, strlen(prefix)) != 0) return 0; p += strlen(prefix);`
unfoldable pub strip_prefix : Bytes → Bytes → Option Bytes
strip_prefix [] cs = some cs
strip_prefix (p ∷ ps) [] = none
strip_prefix (p ∷ ps) (c ∷ cs) = if p == c then strip_prefix ps cs else none

-- `if (len == 0 || len >= size) return 0; strncpy(dst, start, len); dst[len] = '\0';`
unfoldable pub copied : ℕ → Bytes → Option Bytes
copied size s = if (length s == 0) || leb size (length s) then none else some s

-- `strncat(buf, s, sizeof(buf) - strlen(buf) - 1)`
unfoldable pub strncat_within : ℕ → Bytes → Bytes → Bytes
strncat_within size buf s = buf ++ take (size - length buf - 1) s

-- The indentation of a line, cut to what the buffer of `size` bytes takes.
unfoldable pub indent : ℕ → Bytes → Bytes
indent size line =
    let prefix = passed is_blank line in
    if leb (size - 1) (length prefix) then take (size - 2) prefix else prefix
