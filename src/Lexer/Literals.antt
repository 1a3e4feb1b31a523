-- ===== src/Lexer/Literals.antt =====
-- String and character literals are read within the source text.
use claudec.Base.{
  ℕ, zero, suc, ◌+◌, ◌≤◌, Option, none, some, ◌==◌, Bytes, codes, length, drop, ◌≡◌, ◌≢◌, refl, ap,
  ◌∙◌, arith, not, length-drop,
}
use claudec.Memory.{fatal, Ensures, holds, exits, is_stuck, >>=-Ensures, Ensures-if}
use claudec.Lexer.{char_at, run}
use claudec.Lexer.Escape.{
  isxdigit, is_octal_digit, Escape, string_letter, char_letter, letter_escape, hex_escape,
  read_escape, string_escape, Literal, read_string, ends_char, close_char, read_char,
}
use claudec.Lexer.Bounds.{char_at-inside, length-run}

-- At least one character, and all of them in the text.
pub record Within (cs : Bytes) (n : ℕ) : Type 0 where
  pub some_read : 1 ≤ n
  pub inside : n ≤ length cs

abbrev EscapeFits : Bytes → Escape → Type 0
EscapeFits cs e = Within cs e.width

letter_escape-fits :
    (cs : Bytes) (msg : Bytes) (found : Option ℕ)
    → (found ≢ none → 2 ≤ length cs)
    → Ensures (EscapeFits cs) (letter_escape msg found)
letter_escape-fits cs msg none h = exits
letter_escape-fits cs msg (some b) h =
    let size = h (cc) in holds (record { some_read = omega arith; inside = omega arith })

hex_escape-fits :
    (cs : Bytes) (msg : Bytes)
    → 2 ≤ length cs
    → Ensures (EscapeFits cs) (hex_escape msg (drop 2 cs))
hex_escape-fits cs msg h =
    let digits = run isxdigit (length (drop 2 cs)) (drop 2 cs) in
    let size = length-run isxdigit (length (drop 2 cs)) (drop 2 cs) in
    Ensures-if {P = EscapeFits cs} (isxdigit (char_at (drop 2 cs) 0))
      (λ _. holds (record { some_read = omega arith; inside = omega (arith, length-drop 2 cs) }))
      (λ _. exits)

read_escape-fits :
    (letters : ℕ → Option ℕ) (m1 m2 cs : Bytes)
    → letters 0 ≡ none
    → Ensures (EscapeFits cs) (read_escape letters m1 m2 cs)
unfolding read_escape
read_escape-fits letters m1 m2 cs z =
    let next = char_at cs 1 in
    Ensures-if (next == b'x') (λ e. hex_escape-fits cs m1 (char_at-inside cs 1 (ground arith)))
      (λ _.
        Ensures-if (is_octal_digit next)
          (λ e.
            let size = length-run is_octal_digit 3 (drop 1 cs) in
            let two = char_at-inside cs 1 (ground arith) in
            holds (record { some_read = omega arith; inside = omega (arith, length-drop 1 cs) }))
          (λ _.
            letter_escape-fits cs m2 (letters next)
              (λ h. char_at-inside cs 1 (λ e. h (ap letters e ∙ z)))))

abbrev LiteralFits : Bytes → Literal → Type 0
LiteralFits cs s = Within cs s.width

pub read_string-fits : (fuel : ℕ) (cs : Bytes) → Ensures (LiteralFits cs) (read_string fuel cs)
unfolding read_string string_escape string_letter
read_string-fits zero cs = is_stuck
read_string-fits (suc fuel) cs =
    let c = char_at cs 0 in
    let one = char_at-inside cs 0 in
    Ensures-if (c == b'"')
      (λ e.
        let in_text = one (ground arith) in
        holds (record { some_read = omega arith; inside = omega arith }))
      (λ _.
        Ensures-if (c == 0) (λ _. exits)
          (λ some_char.
            Ensures-if (c == b'\n') (λ _. exits)
              (λ _.
                Ensures-if (c == b'\\')
                  (λ e. >>=-Ensures (read_escape-fits string_letter _ _ cs refl) (λ x w.
                    >>=-Ensures (read_string-fits fuel (drop x.width cs)) (λ s v.
                      let a = w.inside in
                      let b = v.inside in
                      let d = w.some_read in
                      holds (record {
                        some_read = omega arith;
                        inside = omega (arith, length-drop x.width cs);
                      }))))
                  (λ _. >>=-Ensures (read_string-fits fuel (drop 1 cs)) (λ s v.
                    let a = one (ground arith) in
                    let b = v.inside in
                    holds (record {
                      some_read = omega arith;
                      inside = omega (arith, length-drop 1 cs);
                    }))))))

-- With the closing quote.
abbrev CharFits : Bytes → Escape → Type 0
CharFits cs e = e.width + 1 ≤ length cs

pub read_char-fits : (cs : Bytes) → Ensures (CharFits cs) (read_char cs)
unfolding read_char close_char char_letter
read_char-fits cs =
    let c = char_at cs 0 in
    Ensures-if (c == 0) (λ _. exits)
      (λ some_char.
        Ensures-if (c == b'\n') (λ _. exits)
          (λ _.
            Ensures-if (c == b'\'') (λ _. exits)
              (λ _.
                >>=-Ensures
                  (Ensures-if {P = EscapeFits cs} (c == b'\\')
                    (λ _. read_escape-fits char_letter _ _ cs refl)
                    (λ _. holds (record {
                      some_read = omega arith;
                      inside = char_at-inside cs 0 (ground arith);
                    })))
                  (λ e w.
                    let after = drop e.width cs in
                    Ensures-if {P = CharFits cs} (char_at after 0 == b'\'')
                      (λ q.
                        let a = w.inside in
                        let b = char_at-inside after 0 (ground arith) in
                        holds (omega (arith, length-drop e.width cs)))
                      (λ _.
                        Ensures-if {P = CharFits cs}
                          (char_at
                              (drop (length (run (λ c. not (ends_char c)) (length after) after))
                                after)
                              0
                            == b'\'')
                          {x = fatal (codes "error: multi character constant")}
                          {y = fatal (codes "error: unterminated character literal")} (λ _. exits)
                          (λ _. exits))))))
