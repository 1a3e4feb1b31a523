-- ===== src/Preprocessor/Atoms.antt =====
-- Numbers, names and `defined` are read as the grammar says.
use mathlib.Core.List.{append_assoc}
use claudec.Base.{
  ℕ, ◌≤◌, Bool, true, false, Option, none, some, List, [], ◌∷◌, ◌++◌, ◌==◌, Bytes, codes,
  str_eq_iff, length, take, drop, ◌≡◌, refl, sym, ap, ◌∙◌, arith, Bool-cases, inl, inr,
  take-append-drop, ==_iff, &&-eq-true,
}
use claudec.Memory.{
  Outcome, ok, fatal, stuck, ◌>>=◌, Settles, settled, refused, >>=-Settles, Settles-if,
}
use claudec.Lexer.{char_at, run}
use claudec.Lexer.Space.{isdigit}
use claudec.Lexer.Escape.{isxdigit}
use claudec.Lexer.Number.{is_suffix}
use claudec.Lexer.Next.{is_word_start, is_word_char}
use claudec.Lexer.Bounds.{char_at-inside}
use claudec.Lexer.Spelling.{run-prefix}
use claudec.Lexer.Progress.{first_run}
use claudec.Preprocessor.Macros.{MacroDef, macro_find}
use claudec.Preprocessor.Condition.{
  is_blank, skip_blanks, is_defined, number_value, is_hex_prefix, after_run, name_at, cond_number,
  begins_defined, closed, defined_operand, replacement_digits, replacement_value, object_value,
  macro_value,
}
use claudec.Preprocessor.Grammar.{
  Atom, decimal, hexadecimal, name, defined_name, defined_in_parens, All,
}
use claudec.Preprocessor.Splits.{Reads, run-All, skip_blanks-Skips}

-- A text that begins with a character that was tested.
pub front : (cs : Bytes) (k : ℕ) → (char_at cs 0 == k) ≡ true → 1 ≤ k → cs ≡ k ∷ drop 1 cs
front [] k h i = absurd (ground arith)
front (c ∷ cs) k h i = ap (◌∷ cs) ((==_iff c k).0 h)

-- The value of a result is the one that comes out.
pub Settles-value :
    {A : Type 0} (o : Outcome A) → Settles (λ a. Unit {0}) o → Settles (λ a. o ≡ ok a) o
Settles-value (ok a) (settled h) = settled refl
Settles-value (fatal m) refused = refused
Settles-value stuck h = elim h [ ]

-- The name that begins here begins as the text does.
starts-name_at :
    (cs : Bytes)
    → is_word_start (char_at cs 0) ≡ true
    → is_word_start (char_at (name_at cs) 0) ≡ true
unfolding run
starts-name_at [] h = h
starts-name_at (c ∷ cs) h = elim (Bool-cases (is_word_char c)) [
  | inl e ↦ rw e h
  | inr e ↦ absurd (ground arith)
]

module _ (macros : List MacroDef) where
  decimal-Reads :
      (cs : Bytes)
      → isdigit (char_at cs 0) ≡ true
      → Reads (Atom macros) cs (
        number_value 10 0 (run isdigit (length cs) cs),
        after_run is_suffix (after_run isdigit cs),
      )
  decimal-Reads cs h =
      let ds = run isdigit (length cs) cs in
      let s = after_run isdigit cs in
      let suffix = run is_suffix (length s) s in
      record {
        used = ds ++ suffix;
        split =
            run-prefix isdigit (length cs) cs
            ∙ ap (ds ++◌) (run-prefix is_suffix (length s) s)
            ∙ sym (append_assoc ds suffix (after_run is_suffix s));
        means =
            decimal (run-All isdigit (length cs) cs)
              (first_run isdigit (length cs) cs refl h (char_at-inside cs 0 (ground arith)))
              (run-All is_suffix (length s) s);
      }

  hex-Reads :
      (cs : Bytes)
      → is_hex_prefix cs ≡ true
      → Reads (Atom macros) cs (
        number_value 16 0 (run isxdigit (length (drop 2 cs)) (drop 2 cs)),
        after_run is_suffix (after_run isxdigit (drop 2 cs)),
      )
  hex-Reads [] h = absurd (ground arith)
  hex-Reads (c ∷ []) h = absurd (ground arith)
  hex-Reads (c ∷ x ∷ cs) h =
      let ds = run isxdigit (length cs) cs in
      let s = after_run isxdigit cs in
      let suffix = run is_suffix (length s) s in
      record {
        used = c ∷ x ∷ (ds ++ suffix);
        split =
            ap (λ t. c ∷ x ∷ t)
              (run-prefix isxdigit (length cs) cs
                ∙ ap (ds ++◌) (run-prefix is_suffix (length s) s)
                ∙ sym (append_assoc ds suffix (after_run is_suffix s)));
        means =
            hexadecimal (c ∷ x ∷ []) h refl (run-All isxdigit (length cs) cs)
              (run-All is_suffix (length s) s);
      }

  pub cond_number-Reads :
      (cs : Bytes) → isdigit (char_at cs 0) ≡ true → Reads (Atom macros) cs (cond_number cs)
  unfolding cond_number
  cond_number-Reads cs h = elim (Bool-cases (is_hex_prefix cs)) [
    | inl e ↦ rw e (hex-Reads cs e)
    | inr e ↦ rw e (decimal-Reads cs h)
  ]

  replacement_digits-ends :
      (neg : Bool) (repl : Bytes) → Settles (λ v. Unit {0}) (replacement_digits neg repl)
  replacement_digits-ends neg repl =
      Settles-if {P = λ v. Unit {0}} (isdigit (char_at repl 0)) (λ _. settled tt) (λ _. refused)

  macro_value-ends : (m : Option MacroDef) → Settles (λ v. Unit {0}) (macro_value m)
  unfolding macro_value replacement_value
  macro_value-ends none = settled tt
  macro_value-ends (some m) = object m.params
    where
      object :
          (params : Option (List Bytes))
          → Settles (λ v. Unit {0}) (object_value params m.replacement)
      object (some params) = settled tt
      object none =
          Settles-if (char_at (skip_blanks m.replacement) 0 == b'-')
            (λ _. replacement_digits-ends true (skip_blanks (drop 1 (skip_blanks m.replacement))))
            (λ _. replacement_digits-ends false (skip_blanks m.replacement))

  pub name-Reads :
      (cs : Bytes)
      → is_word_start (char_at cs 0) ≡ true
      → Settles
          (Reads (Atom macros) cs)
          (macro_value (macro_find macros (name_at cs)) >>= λ v. ok (v, after_run is_word_char cs))
  name-Reads cs h =
      >>=-Settles (Settles-value _ (macro_value-ends (macro_find macros (name_at cs)))) (λ v e.
        settled (record {
          used = name_at cs;
          split = run-prefix is_word_char (length cs) cs;
          means = name (starts-name_at cs h) (run-All is_word_char (length cs) cs) e;
        }))

  defined_text : (cs : Bytes) → begins_defined cs ≡ true → cs ≡ codes "defined" ++ drop 7 cs
  defined_text cs h =
      sym (take-append-drop 7 cs)
      ∙ ap (◌++ drop 7 cs) ((str_eq_iff (take 7 cs) (codes "defined")).0 (&&-eq-true _ _ h).0)

  in_parens :
      (cs s : Bytes)
      → cs ≡ codes "defined" ++ drop 7 cs
      → (b : Bytes) → All is_blank b
      → drop 7 cs ≡ b ++ s
      → s ≡ b'(' ∷ drop 1 s
      → Settles (Reads (Atom macros) cs) (
          closed
            (is_defined (macro_find macros (name_at (skip_blanks (drop 1 s)))))
            (codes "error: expected ')' in defined(...)")
            (skip_blanks (after_run is_word_char (skip_blanks (drop 1 s)))))
  in_parens cs s word b b_all e paren =
      let b' = skip_blanks-Skips (drop 1 s) in
      let inside = skip_blanks (drop 1 s) in
      let w = name_at inside in
      let behind = after_run is_word_char inside in
      let b'' = skip_blanks-Skips behind in
      let t = skip_blanks behind in
      Settles-if {P = Reads (Atom macros) cs} (char_at t 0 == b')')
        (λ close. settled (record {
          used = codes "defined" ++ (b ++ (b'(' ∷ (b'.blanks ++ (w ++ (b''.blanks ++ b')' ∷ [])))));
          split =
              word
              ∙ ap (codes "defined" ++◌) (
                  e
                  ∙ ap (b ++◌) (
                      paren
                      ∙ ap (b'(' ∷◌) (
                          b'.split
                          ∙ ap (b'.blanks ++◌) (
                              run-prefix is_word_char (length inside) inside
                              ∙ ap (w ++◌) (
                                  b''.split
                                  ∙ ap (b''.blanks ++◌) (front t b')' close (omega arith)))))))
              ∙ simp (append_assoc);
          means =
              defined_in_parens b_all b'.all (run-All is_word_char (length inside) inside) b''.all;
        }))
        (λ _. refused)

  pub defined-Reads :
      (cs : Bytes)
      → begins_defined cs ≡ true
      → Settles (Reads (Atom macros) cs) (defined_operand macros (skip_blanks (drop 7 cs)))
  unfolding defined_operand
  defined-Reads cs h =
      let s = skip_blanks (drop 7 cs) in
      let b = skip_blanks-Skips (drop 7 cs) in
      let word = defined_text cs h in
      Settles-if (char_at s 0 == b'(')
        (λ e. in_parens cs s word b.blanks b.all b.split (front s b'(' e (omega arith)))
        (λ _.
          Settles-if {P = Reads (Atom macros) cs} (is_word_start (char_at s 0))
            (λ _. settled (record {
              used = codes "defined" ++ (b.blanks ++ name_at s);
              split =
                  word
                  ∙ ap (codes "defined" ++◌) (
                      b.split
                      ∙ ap (b.blanks ++◌) (run-prefix is_word_char (length s) s)
                      ∙ sym (append_assoc b.blanks (name_at s) (after_run is_word_char s)));
              means = defined_name b.all (run-All is_word_char (length s) s);
            }))
            (λ _. refused))
