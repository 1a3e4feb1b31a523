-- ===== src/Lexer/Bounds.antt =====
-- How far a lexer moves: what is read lies inside the source text.
use claudec.Base.{
  ℕ, zero, suc, ◌+◌, ◌≤◌, ◌<◌, Bool, [], ◌∷◌, ◌==◌, Bytes, length, drop, ◌≡◌, ◌≢◌, refl, sym, ap,
  ◌∙◌, subst, arith, Bool-cases, inl, inr, length-drop, drop-add,
}
use claudec.Lexer.{Lexer, char_at, run, lexer_advance, lexer_advance_over, advance_from, advance_by}

-- A character that is not the terminator stands inside the text.
pub char_at-inside : (cs : Bytes) (i : ℕ) → char_at cs i ≢ 0 → i < length cs
char_at-inside [] i h = absurd (h refl)
char_at-inside (c ∷ cs) zero h = omega arith
char_at-inside (c ∷ cs) (suc i) h = omega (arith, char_at-inside cs i h)

pub char_at-end : (cs : Bytes) → length cs ≤ 0 → char_at cs 0 ≡ 0
char_at-end [] h = refl
char_at-end (c ∷ cs) h = absurd (omega arith)

pub length-run : (t : ℕ → Bool) (n : ℕ) (cs : Bytes) → length (run t n cs) ≤ length cs
unfolding run
length-run t zero cs = omega arith
length-run t (suc n) [] = omega arith
length-run t (suc n) (c ∷ cs) = elim (Bool-cases (t c)) [
  | inl e ↦ rw e (omega (arith, length-run t n cs))
  | inr e ↦ rw e (omega arith)
]

pub length-run_limit : (t : ℕ → Bool) (n : ℕ) (cs : Bytes) → length (run t n cs) ≤ n
unfolding run
length-run_limit t zero cs = omega arith
length-run_limit t (suc n) [] = omega arith
length-run_limit t (suc n) (c ∷ cs) = elim (Bool-cases (t c)) [
  | inl e ↦ rw e (omega (arith, length-run_limit t n cs))
  | inr e ↦ rw e (omega arith)
]

-- From one lexer to the other, n characters of the text were passed.
pub record Moved (n : ℕ) (l l' : Lexer) : Type 0 where
  pub rest_is : l'.rest ≡ drop n l.rest
  pub pos_is : l'.pos ≡ l.pos + n
  pub inside : n ≤ length l.rest

pub Moved-refl : (l : Lexer) → Moved 0 l l
Moved-refl l = record { rest_is = refl; pos_is = omega arith; inside = omega arith }

pub Moved-trans : (m n : ℕ) (k l p : Lexer) → Moved m k l → Moved n l p → Moved (m + n) k p
Moved-trans m n k l p a b =
    let i = a.inside in
    let j = b.inside in
    let e = ap length a.rest_is in
    let q = a.pos_is in
    let r = b.pos_is in
    record {
      rest_is = b.rest_is ∙ ap (drop n) a.rest_is ∙ drop-add m n k.rest;
      pos_is = omega arith;
      inside = omega (arith, length-drop m k.rest);
    }

advance_from-Moved :
    (cs : Bytes) (l : Lexer) → l.rest ≡ cs → 1 ≤ length cs → Moved 1 l (advance_from cs l)
unfolding lexer_advance_over
advance_from-Moved [] l e h = absurd (omega arith)
advance_from-Moved (c ∷ cs) l e h =
    let behind : cs ≡ drop 1 l.rest = ap (drop 1) (sym e) in
    let size = ap length e in
    elim (Bool-cases (c == b'\n')) [
      | inl t ↦ rw t (record { rest_is = behind; pos_is = refl; inside = omega arith })
      | inr f ↦ rw f (record { rest_is = behind; pos_is = refl; inside = omega arith })
    ]

pub lexer_advance-Moved : (l : Lexer) → 1 ≤ length l.rest → Moved 1 l (lexer_advance l)
unfolding lexer_advance
lexer_advance-Moved l h = advance_from-Moved l.rest l refl h

pub advance_by-Moved : (n : ℕ) (l : Lexer) → n ≤ length l.rest → Moved n l (advance_by n l)
unfolding advance_by
advance_by-Moved zero l h = Moved-refl l
advance_by-Moved (suc n) l h =
    let one = lexer_advance-Moved l (omega arith) in
    let e = ap length one.rest_is in
    let more = advance_by-Moved n (lexer_advance l) (omega (arith, length-drop 1 l.rest)) in
    let s : 1 + n ≡ suc n = omega arith in
    subst (λ k. Moved k l (advance_by n (lexer_advance l))) s (Moved-trans 1 n l _ _ one more)
