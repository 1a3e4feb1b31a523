-- ===== src/Preprocessor/Sections.antt =====
-- What conditionals mean: of nested sections of a text, the first branch whose condition holds.
use Prim.Native.Nat.{max}
use claudec.Base.{ℕ, suc, List, [], ◌∷◌, ◌++◌, if◌then◌else◌}
use claudec.Memory.{Outcome, ok, ◌>>=◌}
use claudec.Preprocessor.Conditionals.{
  Test, test_value, Line, if_line, elif_line, else_line, endif_line, other_line,
}

mutual
  pub data Section (A : Type 0) : Type 0 where
    plain : A → Section A
    conditional : Test → Sections A → Rest A → Section A

  pub data Sections (A : Type 0) : Type 0 where
    done : Sections A
    then_more : Section A → Sections A → Sections A

  -- The branches after the first.
  pub data Rest (A : Type 0) : Type 0 where
    no_branch : Rest A
    otherwise : Sections A → Rest A
    or_if : Test → Sections A → Rest A → Rest A

module _ {A : Type 0} where
  -- The lines of a section, up to its #endif.
  unfoldable mutual
    pub section_lines : Section A → List (Line A)
    section_lines (plain a) = other_line a ∷ []
    section_lines (conditional t body rest) = if_line t ∷ (sections_lines body ++ rest_lines rest)

    pub sections_lines : Sections A → List (Line A)
    sections_lines done = []
    sections_lines (then_more s more) = section_lines s ++ sections_lines more

    pub rest_lines : Rest A → List (Line A)
    rest_lines no_branch = endif_line ∷ []
    rest_lines (otherwise body) = else_line ∷ (sections_lines body ++ endif_line ∷ [])
    rest_lines (or_if t body rest) = elif_line t ∷ (sections_lines body ++ rest_lines rest)

  -- How deep conditionals are nested.
  unfoldable mutual
    pub section_depth : Section A → ℕ
    section_depth (plain a) = 0
    section_depth (conditional t body rest) = suc (max (sections_depth body) (rest_depth rest))

    pub sections_depth : Sections A → ℕ
    sections_depth done = 0
    sections_depth (then_more s more) = max (section_depth s) (sections_depth more)

    pub rest_depth : Rest A → ℕ
    rest_depth no_branch = 0
    rest_depth (otherwise body) = sections_depth body
    rest_depth (or_if t body rest) = max (sections_depth body) (rest_depth rest)

  -- The lines that are kept: those of the first branch whose condition holds. No other condition behind
  -- it is evaluated.
  unfoldable mutual
    pub section_kept : Section A → Outcome (List A)
    section_kept (plain a) = ok (a ∷ [])
    section_kept (conditional t body rest) = do
      b ← test_value t
      if b then sections_kept body else rest_kept rest

    pub sections_kept : Sections A → Outcome (List A)
    sections_kept done = ok []
    sections_kept (then_more s more) = do
      out ← section_kept s
      out' ← sections_kept more
      ok (out ++ out')

    pub rest_kept : Rest A → Outcome (List A)
    rest_kept no_branch = ok []
    rest_kept (otherwise body) = sections_kept body
    rest_kept (or_if t body rest) = do
      b ← test_value t
      if b then sections_kept body else rest_kept rest
