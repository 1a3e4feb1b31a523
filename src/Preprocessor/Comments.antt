-- ===== src/Preprocessor/Comments.antt =====
-- Line splicing and the comments in a condition, src/preprocessor.c.
use claudec.Base.{
  ℕ, Bool, true, false, ◌&&◌, [], ◌∷◌, ◌==◌, if◌then◌else◌, Bytes, ◌≡◌, refl, Bool-cases, inl, inr,
  arith, &&-eq-true, ==_iff,
}
use claudec.Lexer.{char_at}

abbrev splices : ℕ → ℕ → Bool
splices c d = (c == b'\\') && (d == b'\n')

-- A backslash and the end of its line are left out.
unfoldable pub splice_lines : Bytes → Bytes
splice_lines [] = []
splice_lines (c ∷ []) = c ∷ []
splice_lines (c ∷ d ∷ cs) =
    let joined = splice_lines cs in
    let copied = splice_lines (d ∷ cs) in if splices c d then joined else c ∷ copied

abbrev opens_block : ℕ → ℕ → Bool
opens_block c d = (c == b'/') && (d == b'*')

abbrev opens_line : ℕ → ℕ → Bool
opens_line c d = (c == b'/') && (d == b'/')

abbrev closes_block : ℕ → ℕ → Bool
closes_block c d = (c == b'*') && (d == b'/')

-- Where the scan stands: outside of comments, or in one of the two kinds.
pub data Scan : Type 0 where
  outside in_block in_line : Scan

-- The loop of `strip_cond_comments` and the two loops inside of it, with what is written.
unfoldable pub strip_from : Scan → Bytes → Bytes
strip_from outside [] = []
strip_from outside (c ∷ []) = c ∷ []
strip_from outside (c ∷ d ∷ cs) =
    let block = strip_from in_block cs in
    let line = strip_from in_line cs in
    let copied = strip_from outside (d ∷ cs) in
    if opens_block c d then b' ' ∷ block else if opens_line c d then b' ' ∷ line else c ∷ copied
strip_from in_block [] = []
strip_from in_block (c ∷ []) = []
strip_from in_block (c ∷ d ∷ cs) =
    let closed = strip_from outside cs in
    let skipped = strip_from in_block (d ∷ cs) in if closes_block c d then closed else skipped
strip_from in_line [] = []
strip_from in_line (c ∷ cs) =
    let copied = strip_from outside cs in
    let skipped = strip_from in_line cs in if c == b'\n' then c ∷ copied else skipped

unfoldable pub strip_cond_comments : Bytes → Bytes
strip_cond_comments cs = strip_from outside cs

-- No comment begins in the text.
unfoldable pub IsClean : Bytes → Type 0
IsClean [] = Unit
IsClean (c ∷ []) = Unit
IsClean (c ∷ d ∷ cs) = (opens_block c d ≡ false) × (opens_line c d ≡ false) × IsClean (d ∷ cs)

cons-IsClean : (c : ℕ) (cs : Bytes) → (c == b'/') ≡ false → IsClean cs → IsClean (c ∷ cs)
unfolding IsClean
cons-IsClean c [] h k = tt
cons-IsClean c (d ∷ cs) h k = (rw h refl, rw h refl, k)

-- A character that is no slash is copied.
copied_first :
    (d : ℕ) (cs : Bytes)
    → (d == b'/') ≡ false
    → (out : Bytes) × (strip_from outside (d ∷ cs) ≡ d ∷ out)
unfolding strip_from
copied_first d [] h = ([], refl)
copied_first d (e ∷ cs) h = (strip_from outside (e ∷ cs), rw h refl)

slash-IsClean :
    (c d : ℕ) (out : Bytes)
    → opens_block c d ≡ false
    → opens_line c d ≡ false
    → IsClean (d ∷ out)
    → IsClean (c ∷ d ∷ out)
unfolding IsClean
slash-IsClean c d out b l k = (b, l, k)

copy-IsClean :
    (c d : ℕ) (cs : Bytes)
    → opens_block c d ≡ false
    → opens_line c d ≡ false
    → IsClean (strip_from outside (d ∷ cs))
    → IsClean (c ∷ strip_from outside (d ∷ cs))
copy-IsClean c d cs b l k = elim (Bool-cases (c == b'/')) [
  | inr other ↦ cons-IsClean c _ other k
  | inl slash ↦
      let (out, e) = copied_first d cs (rw slash at l) in
      let rest : IsClean (d ∷ out) = rw e at k in rw e (slash-IsClean c d out b l rest)
]

strip_from-IsClean : (m : Scan) (cs : Bytes) → IsClean (strip_from m cs)
unfolding strip_from
strip_from-IsClean outside [] = unfold IsClean in tt
strip_from-IsClean outside (c ∷ []) = unfold IsClean in tt
strip_from-IsClean outside (c ∷ d ∷ cs) =
    let block = strip_from-IsClean in_block cs in
    let line = strip_from-IsClean in_line cs in
    let copied = strip_from-IsClean outside (d ∷ cs) in
    elim (Bool-cases (opens_block c d)) [
      | inl b ↦ rw b (cons-IsClean b' ' _ refl block)
      | inr b ↦ elim (Bool-cases (opens_line c d)) [
        | inl l ↦ rw (b, l) (cons-IsClean b' ' _ refl line)
        | inr l ↦ rw (b, l) (copy-IsClean c d cs b l copied)
      ]
    ]
strip_from-IsClean in_block [] = unfold IsClean in tt
strip_from-IsClean in_block (c ∷ []) = unfold IsClean in tt
strip_from-IsClean in_block (c ∷ d ∷ cs) =
    let closed = strip_from-IsClean outside cs in
    let skipped = strip_from-IsClean in_block (d ∷ cs) in
    elim (Bool-cases (closes_block c d)) [ inl b ↦ rw b closed | inr b ↦ rw b skipped ]
strip_from-IsClean in_line [] = unfold IsClean in tt
strip_from-IsClean in_line (c ∷ cs) =
    let copied = strip_from-IsClean outside cs in
    let skipped = strip_from-IsClean in_line cs in
    elim (Bool-cases (c == b'\n')) [
      | inl e ↦ rw e (cons-IsClean c _ (ground arith) copied)
      | inr e ↦ rw e skipped
    ]

-- The text behind the block comment that the first text is in: behind the first end of a comment, or
-- nothing where there is none.
pub data BehindBlock : Bytes → Bytes → Type 0 where
  block_cut : BehindBlock [] []
  block_end : {cs : Bytes} → BehindBlock (b'*' ∷ (b'/' ∷ cs)) cs
  in_comment :
      {c : ℕ} {cs rest : Bytes}
      → closes_block c (char_at cs 0) ≡ false
      → BehindBlock cs rest
      → BehindBlock (c ∷ cs) rest

-- The text behind a line comment, from the end of the line on.
pub data BehindLine : Bytes → Bytes → Type 0 where
  line_cut : BehindLine [] []
  line_end : {cs : Bytes} → BehindLine (b'\n' ∷ cs) (b'\n' ∷ cs)
  on_line :
      {c : ℕ} {cs rest : Bytes}
      → (c == b'\n') ≡ false
      → BehindLine cs rest
      → BehindLine (c ∷ cs) rest

-- The text with a blank for each comment, and every other character as it is.
pub data Uncommented : Bytes → Bytes → Type 0 where
  uncommented_end : Uncommented [] []
  block_comment :
      {cs rest out : Bytes}
      → BehindBlock cs rest
      → Uncommented rest out
      → Uncommented (b'/' ∷ (b'*' ∷ cs)) (b' ' ∷ out)
  line_comment :
      {cs rest out : Bytes}
      → BehindLine cs rest
      → Uncommented rest out
      → Uncommented (b'/' ∷ (b'/' ∷ cs)) (b' ' ∷ out)
  kept :
      {c : ℕ} {cs out : Bytes}
      → opens_block c (char_at cs 0) ≡ false
      → opens_line c (char_at cs 0) ≡ false
      → Uncommented cs out
      → Uncommented (c ∷ cs) (c ∷ out)

-- What the scan writes, by where it stands.
abbrev Scans : Scan → Bytes → Type 0
Scans outside cs = Uncommented cs (strip_from outside cs)
Scans in_block cs = (rest : Bytes) × BehindBlock cs rest × Uncommented rest (strip_from in_block cs)
Scans in_line cs = (rest : Bytes) × BehindLine cs rest × Uncommented rest (strip_from in_line cs)

-- Two characters that were tested are these.
are_these : (c d x y : ℕ) → (c == x) && (d == y) ≡ true → (c ≡ x) × (d ≡ y)
are_these c d x y h = let (e, f) = &&-eq-true _ _ h in ((==_iff c x).0 e, (==_iff d y).0 f)

strip_from-Scans : (m : Scan) (cs : Bytes) → Scans m cs
unfolding strip_from
strip_from-Scans outside [] = uncommented_end
strip_from-Scans outside (c ∷ []) = kept (ground arith) (ground arith) uncommented_end
strip_from-Scans outside (c ∷ d ∷ cs) =
    let (r, x, y) = strip_from-Scans in_block cs in
    let (r', x', y') = strip_from-Scans in_line cs in
    let copied = strip_from-Scans outside (d ∷ cs) in
    elim (Bool-cases (opens_block c d)) [
      | inl b ↦ let (e, f) = are_these c d b'/' b'*' b in rw (e, f) (block_comment x y)
      | inr b ↦ elim (Bool-cases (opens_line c d)) [
        | inl l ↦ let (e, f) = are_these c d b'/' b'/' l in rw (e, f) (line_comment x' y')
        | inr l ↦ rw (b, l) (kept b l copied)
      ]
    ]
strip_from-Scans in_block [] = ([], block_cut, uncommented_end)
strip_from-Scans in_block (c ∷ []) = ([], in_comment (ground arith) block_cut, uncommented_end)
strip_from-Scans in_block (c ∷ d ∷ cs) =
    let closed = strip_from-Scans outside cs in
    let (r, x, y) = strip_from-Scans in_block (d ∷ cs) in
    elim (Bool-cases (closes_block c d)) [
      | inl b ↦ let (e, f) = are_these c d b'*' b'/' b in rw (e, f) (cs, block_end, closed)
      | inr b ↦ rw b (r, in_comment b x, y)
    ]
strip_from-Scans in_line [] = ([], line_cut, uncommented_end)
strip_from-Scans in_line (c ∷ cs) =
    let copied = strip_from-Scans outside cs in
    let (r, x, y) = strip_from-Scans in_line cs in
    elim (Bool-cases (c == b'\n')) [
      | inl e ↦ rw ((==_iff c b'\n').0 e) (b'\n' ∷ cs, line_end, kept refl refl copied)
      | inr e ↦ rw e (r, on_line e x, y)
    ]

-- `strip_cond_comments` gives the text with a blank for each comment and every other character as it is,
-- and in what it gives no comment begins.
pub strip_cond_comments-Uncommented :
    (cs : Bytes) → Uncommented cs (strip_cond_comments cs) × IsClean (strip_cond_comments cs)
unfolding strip_cond_comments
strip_cond_comments-Uncommented cs = (strip_from-Scans outside cs, strip_from-IsClean outside cs)
