-- ===== src/Lexer/Skipped.antt =====
-- `lexer_skip_whitespace` stays in the text and leaves no white space in front.
use claudec.Base.{
  ℕ, zero, suc, ◌+◌, ◌≤◌, Bool, false, Option, none, some, [], ◌∷◌, ◌==◌, Bytes, length, take, ◌≡◌,
  ◌≢◌, refl, sym, ap, ◌∙◌, arith, Bool-cases, inl, inr, length-drop, ==_iff,
}
use claudec.Lexer.{Lexer, char_at, run, lexer_advance, lexer_intern_file, find_file, file_or_new}
use claudec.Lexer.Space.{
  isspace, isdigit, line_number, jump, jump_if, not_newline, enter_file,
  lexer_parse_location_marker, skip_from, lexer_skip_whitespace,
}
use claudec.Lexer.Bounds.{
  char_at-inside, char_at-end, length-run, Moved, Moved-refl, Moved-trans, lexer_advance-Moved,
}

-- Some characters of the text were passed, and none behind it.
abbrev pub InText : Lexer → Lexer → Type 0
InText l l' = (n : ℕ) × Moved n l l'

pub InText-trans : (k l p : Lexer) → InText k l → InText l p → InText k p
InText-trans k l p (m, a) (n, b) = (m + n, Moved-trans m n k l p a b)

jump-Moved : (n : ℕ) (l : Lexer) → n ≤ length l.rest → Moved n l (jump n l)
unfolding jump
jump-Moved n l h = record { rest_is = refl; pos_is = refl; inside = h }

jump_if-InText : (c : ℕ) (l : Lexer) → c ≢ 0 → InText l (jump_if c l)
unfolding jump_if
jump_if-InText c l h = elim (Bool-cases (char_at l.rest 0 == c)) [
  | inl e ↦
      let here = (==_iff (char_at l.rest 0) c).0 e in
      rw e (1, jump-Moved 1 l (char_at-inside l.rest 0 (λ z. h (sym here ∙ z))))
  | inr e ↦ rw e (0, Moved-refl l)
]

jump-run-InText :
    (t : ℕ → Bool) (l : Lexer) → InText l (jump (length (run t (length l.rest) l.rest)) l)
jump-run-InText t l = (_, jump-Moved _ l (length-run t (length l.rest) l.rest))

-- A file is noted, and the position stays.
file_or_new-stays :
    (l : Lexer) (path : Bytes) (found : Option ℕ)
    → ((file_or_new l path found).0.rest ≡ l.rest) × ((file_or_new l path found).0.pos ≡ l.pos)
file_or_new-stays l path none = (refl, refl)
file_or_new-stays l path (some i) = (refl, refl)

enter_file-stays :
    (l : Lexer) (path : Bytes)
    → ((enter_file l path).rest ≡ l.rest) × ((enter_file l path).pos ≡ l.pos)
enter_file-stays l [] = (refl, refl)
enter_file-stays l (c ∷ cs) =
    unfold lexer_intern_file in
    file_or_new-stays l (take 511 (c ∷ cs)) (find_file l.file_pool (take 511 (c ∷ cs)) 0)

InText-same : (l p q : Lexer) → InText l p → q.rest ≡ p.rest → q.pos ≡ p.pos → InText l q
InText-same l p q (n, m) e f =
    (n, record { rest_is = e ∙ m.rest_is; pos_is = f ∙ m.pos_is; inside = m.inside })

marker-InText :
    (l : Lexer)
    → 1 ≤ length l.rest
    → (p : Lexer) × Moved 1 l p × InText p (lexer_parse_location_marker l)
unfolding lexer_parse_location_marker
marker-InText l h =
    let l1 = jump 1 l in
    let digits = run isdigit (length l1.rest) l1.rest in
    let l1' = jump (length digits) l1 in
    let l2 = jump_if b':' l1' in
    let path = run not_newline (length l2.rest) l2.rest in
    let l2' = jump (length path) l2 in
    let l3 = jump_if b'\n' l2' in
    let l4 : Lexer = record l3 { line = line_number 0 digits; col = 1 } in
    let a = jump-run-InText isdigit l1 in
    let b = InText-trans l1 l1' l2 a (jump_if-InText b':' l1' (omega arith)) in
    let c = InText-trans l1 l2 l2' b (jump-run-InText not_newline l2) in
    let d = InText-trans l1 l2' l3 c (jump_if-InText b'\n' l2' (omega arith)) in
    let stays = enter_file-stays l4 path in
    (l1, jump-Moved 1 l h, InText-same l1 l3 _ d stays.0 stays.1)

-- A lexer in front of no white space and no marker.
pub record IsSkipped (l : Lexer) : Type 0 where
  pub no_marker : (char_at l.rest 0 == 1) ≡ false
  pub no_space : isspace (char_at l.rest 0) ≡ false

skip_from-IsSkipped :
    (fuel : ℕ) (l : Lexer)
    → length l.rest ≤ fuel
    → IsSkipped (skip_from fuel l) × InText l (skip_from fuel l)
unfolding skip_from
skip_from-IsSkipped zero l h =
    let e = char_at-end l.rest (omega arith) in
    (record { no_marker = rw e refl; no_space = rw e refl }, (0, Moved-refl l))
skip_from-IsSkipped (suc fuel) l h = elim (Bool-cases (char_at l.rest 0 == 1)) [
  | inl mark ↦
      let here = (==_iff (char_at l.rest 0) 1).0 mark in
      let (p, one, far) = marker-InText l (char_at-inside l.rest 0 (ground arith)) in
      let (n, m) = far in
      let size = ap length m.rest_is in
      let size' = ap length one.rest_is in
      let (done, more) =
        skip_from-IsSkipped fuel (lexer_parse_location_marker l)
          (omega (arith, length-drop n p.rest, length-drop 1 l.rest)) in
      rw mark (done, InText-trans l _ _ (InText-trans l p _ (1, one) far) more)
  | inr mark ↦ elim (Bool-cases (isspace (char_at l.rest 0))) [
    | inl space ↦
        let one = lexer_advance-Moved l (char_at-inside l.rest 0 (ground arith)) in
        let size = ap length one.rest_is in
        let (done, more) =
          skip_from-IsSkipped fuel (lexer_advance l) (omega (arith, length-drop 1 l.rest)) in
        rw (mark, space) (done, InText-trans l _ _ (1, one) more)
    | inr space ↦
        rw (mark, space) (record { no_marker = mark; no_space = space }, (0, Moved-refl l))
  ]
]

-- `lexer_skip_whitespace` moves within the text, to its end or to a character that is neither white space
-- nor the start of a location marker.
pub lexer_skip_whitespace-IsSkipped :
    (l : Lexer) → IsSkipped (lexer_skip_whitespace l) × InText l (lexer_skip_whitespace l)
unfolding lexer_skip_whitespace
lexer_skip_whitespace-IsSkipped l = skip_from-IsSkipped (length l.rest) l (omega arith)
