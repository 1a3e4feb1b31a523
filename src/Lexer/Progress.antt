-- ===== src/Lexer/Progress.antt =====
-- Each token takes at least a character of the text, and none behind it, so the tokens come to an end.
use claudec.Base.{
  ℕ, zero, suc, ◌+◌, ◌≤◌, Bool, true, false, Option, none, some, [], ◌∷◌, ◌==◌, Bytes, length, drop,
  ◌≡◌, refl, ap, ◌⊎◌, inl, inr, arith, length-drop, ==_iff, &&-eq-true,
}
use claudec.Memory.{
  Outcome, ok, fatal, stuck, Ensures, holds, exits, is_stuck, >>=-Ensures, Ensures-if,
}
use claudec.Lexer.{
  TokenType, Token, Lexer, char_at, run, advance_by, lexer_store_bytes, token_set_pos,
}
use claudec.Lexer.Names.{keywords, find_keyword}
use claudec.Lexer.Space.{isdigit, lexer_skip_whitespace}
use claudec.Lexer.Punct.{Punct, next_punct}
use claudec.Lexer.Number.{Number, floating, integer, Integer, finish_integer, is_suffix}
use claudec.Lexer.Next.{
  is_word_start, is_word_char, string_token, char_token, number_token, word_of, word_token, is_wide,
  other_token, punct_or_other, is_dot_number, token_here, lexer_next_token, is_eof,
}
use claudec.Lexer.Bounds.{
  char_at-inside, length-run, Moved, Moved-refl, Moved-trans, advance_by-Moved,
}
use claudec.Lexer.Skipped.{InText, InText-trans, lexer_skip_whitespace-IsSkipped}
use claudec.Lexer.Spelling.{Spells-length, NumberIsRead, read_dot_number-IsRead, read_number-IsRead}
use claudec.Lexer.Operators.{Stands, one_char, two_chars, three_chars, next_punct-Stands}
use claudec.Lexer.Literals.{read_string-fits, read_char-fits}

-- The end of the file, or at least a character and none behind the text.
abbrev pub Passed : Lexer → (Token × Lexer) → Type 0
Passed l p = ((is_eof p.0.token_type ≡ true) × InText l p.1) ⊎ ((n : ℕ) × (1 ≤ n) × Moved n l p.1)

stored-Moved :
    (n : ℕ) (l : Lexer) (s : Bytes)
    → n ≤ length l.rest
    → Moved n l (lexer_store_bytes (advance_by n l) s)
unfolding lexer_store_bytes
stored-Moved n l s h =
    let m = advance_by-Moved n l h in
    record { rest_is = m.rest_is; pos_is = m.pos_is; inside = m.inside }

number_token-Passed :
    (t : Token) (l : Lexer) (n : Number)
    → NumberIsRead l.rest n
    → Ensures (Passed l) (number_token t l n)
unfolding number_token
number_token-Passed t l (floating buf has_f) r =
    holds (inr (length buf, r.some_read, stored-Moved _ l buf (Spells-length l.rest buf r.spelled)))
number_token-Passed t l (integer buf base) r =
    let suffix = run is_suffix (length l.rest) (drop (length buf) l.rest) in
    let size = length-run is_suffix (length l.rest) (drop (length buf) l.rest) in
    let whole = Spells-length l.rest buf r.spelled in
    let first = r.some_read in
    >>=-Ensures {P = λ i. Unit {0}} (any (finish_integer buf base suffix)) (λ i _. holds (
      inr (
        length buf + length suffix,
        omega arith,
        stored-Moved _ l i.text (omega (arith, length-drop (length buf) l.rest)),
      )))
  where
    any : (o : Outcome Integer) → Ensures (λ i. Unit {0}) o
    any (ok i) = holds tt
    any (fatal m) = exits
    any stuck = is_stuck

string_token-Passed :
    (t : Token) (l : Lexer) → 1 ≤ length l.rest → Ensures (Passed l) (string_token t l)
unfolding string_token
string_token-Passed t l h = >>=-Ensures (read_string-fits (length l.rest) (drop 1 l.rest)) (λ s w.
    let a = w.inside in
    holds (
      inr
        (1 + s.width, omega arith, stored-Moved _ l s.bytes (omega (arith, length-drop 1 l.rest)))))

char_token-Passed :
    (t : Token) (l : Lexer) → 1 ≤ length l.rest → Ensures (Passed l) (char_token t l)
unfolding char_token
char_token-Passed t l h = >>=-Ensures (read_char-fits (drop 1 l.rest)) (λ e w. holds (
    inr (
      2 + e.width,
      omega arith,
      stored-Moved _ l (e.byte ∷ []) (omega (arith, length-drop 1 l.rest)),
    )))

word_of-Passed :
    (t : Token) (l : Lexer) (s : Bytes) (k : Option TokenType)
    → 1 ≤ length s
    → length s ≤ length l.rest
    → Passed l (word_of t l s k)
word_of-Passed t l s none h i = inr (length s, h, stored-Moved _ l s i)
word_of-Passed t l s (some k) h i = inr (length s, h, advance_by-Moved _ l i)

pub first_run :
    (t : ℕ → Bool) (n : ℕ) (cs : Bytes)
    → t 0 ≡ false
    → t (char_at cs 0) ≡ true
    → 1 ≤ n
    → 1 ≤ length (run t n cs)
unfolding run
first_run t zero cs z h k = absurd (omega arith)
first_run t (suc n) [] z h k = cc
first_run t (suc n) (c ∷ cs) z h k = rw h (omega arith)

word_token-Passed :
    (t : Token) (l : Lexer) → is_word_start (char_at l.rest 0) ≡ true → Passed l (word_token t l)
unfolding word_token
word_token-Passed t l h =
    let one = char_at-inside l.rest 0 (ground arith) in
    let s = run is_word_char (length l.rest) l.rest in
    word_of-Passed t l s (find_keyword keywords s)
      (first_run is_word_char (length l.rest) l.rest refl (ground arith) one)
      (length-run is_word_char (length l.rest) l.rest)

other_token-Passed :
    (t : Token) (l : Lexer) → 1 ≤ length l.rest → Ensures (Passed l) (other_token t l)
unfolding other_token
other_token-Passed t l h =
    let c = char_at l.rest 0 in
    Ensures-if (c == b'"') (λ _. string_token-Passed t l h)
      (λ _.
        Ensures-if (c == b'\'') (λ _. char_token-Passed t l h)
          (λ _.
            Ensures-if (is_wide c (char_at l.rest 1)) (λ _. exits)
              (λ _.
                Ensures-if (isdigit c)
                  (λ e.
                    >>=-Ensures (read_number-IsRead l.rest e) (λ n r. number_token-Passed t l n r))
                  (λ _.
                    Ensures-if {P = Passed l} (is_word_start c)
                      (λ e. holds (word_token-Passed t l e))
                      (λ _. holds (inr (1, omega arith, stored-Moved 1 l (c ∷ []) h)))))))

Stands-inside :
    (l : Lexer) (p : Punct)
    → Stands (char_at l.rest 0) (char_at l.rest 1) (char_at l.rest 2) p
    → (1 ≤ length p.text) × (length p.text ≤ length l.rest)
Stands-inside l p (one_char e h) =
    let i = char_at-inside l.rest 0 h in let s = ap length e in (omega arith, omega arith)
Stands-inside l p (two_chars e h) =
    let i = char_at-inside l.rest 1 h in let s = ap length e in (omega arith, omega arith)
Stands-inside l p (three_chars e h) =
    let i = char_at-inside l.rest 2 h in let s = ap length e in (omega arith, omega arith)

punct_or_other-Passed :
    (t : Token) (l : Lexer) (o : Option Punct)
    → 1 ≤ length l.rest
    → next_punct (char_at l.rest 0) (char_at l.rest 1) (char_at l.rest 2) ≡ o
    → Ensures (Passed l) (punct_or_other t l o)
punct_or_other-Passed t l none h e = other_token-Passed t l h
punct_or_other-Passed t l (some p) h e =
    let size = Stands-inside l p (next_punct-Stands _ _ _ p e) in
    holds (inr (length p.text, size.0, advance_by-Moved _ l size.1))

token_here-Passed :
    (t : Token) (l : Lexer) → is_eof t.token_type ≡ true → Ensures (Passed l) (token_here t l)
unfolding token_here
token_here-Passed t l eof_first =
    let c = char_at l.rest 0 in
    let n = char_at l.rest 1 in
    Ensures-if {P = Passed l} (c == 0) (λ _. holds (inl (eof_first, (0, Moved-refl l))))
      (λ some_char.
        Ensures-if (is_dot_number c n)
          (λ e.
            let dot = (==_iff c b'.').0 (&&-eq-true _ _ e).0 in
            >>=-Ensures (read_dot_number-IsRead l.rest dot) (λ x r. number_token-Passed t l x r))
          (λ _.
            punct_or_other-Passed t l (next_punct c n (char_at l.rest 2))
              (char_at-inside l.rest 0 (ground arith)) refl))

InText-Passed : (k l : Lexer) (p : Token × Lexer) → InText k l → Passed l p → Passed k p
InText-Passed k l p i (inl (e, j)) = inl (e, InText-trans k l p.1 i j)
InText-Passed k l p (m, i) (inr (n, h, j)) = inr (m + n, omega arith, Moved-trans m n k l p.1 i j)

-- Where `lexer_next_token` gives a token, it is the end of the file and the text was not left, or at least
-- one character of the text was passed and none behind it.
pub lexer_next_token-Passed : (l : Lexer) → Ensures (Passed l) (lexer_next_token l)
unfolding lexer_next_token token_set_pos
lexer_next_token-Passed l =
    let s = lexer_skip_whitespace l in
    let (done, i) = lexer_skip_whitespace-IsSkipped l in
    Ensures-map (InText-Passed l s) (token_here-Passed (token_set_pos s) s refl) i
  where
    Ensures-map :
        {P Q : (Token × Lexer) → Type 0} {A : Type 0}
        → ((p : Token × Lexer) → A → P p → Q p)
        → {o : Outcome (Token × Lexer)} → Ensures P o
        → A
        → Ensures Q o
    Ensures-map f (holds h) a = holds (f _ a h)
    Ensures-map f exits a = exits
    Ensures-map f is_stuck a = is_stuck
