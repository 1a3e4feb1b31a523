-- ===== src/Ast/Readable.antt =====
-- The string literals that src/ast_pretty_printer.c writes, as the scanner reads them.
use mathlib.Core.List.{append_assoc}
use claudec.Base.{
  ℕ, zero, suc, ◌+◌, ◌<◌, ◌≤◌, false, ◌&&◌, [], ◌∷◌, ◌++◌, ◌==◌, ==_iff, Bytes, some, length, ◌≡◌,
  refl, ap, ◌∙◌, arith, Bool-cases, inl, inr, length-append,
}
use claudec.Memory.{ok, ◌>>=◌}
use claudec.Lexer.{char_at, run}
use claudec.Lexer.Escape.{
  is_octal_digit, octal_value, string_letter, read_escape, string_escape, Literal, literal_after,
  read_string,
}
use claudec.Ast.Print.{escape_byte, escape_bytes}

-- No zero stands before an octal digit.
unfoldable pub Readable : Bytes → Type 0
Readable [] = Unit
Readable (b ∷ bs) = ((b == 0) && is_octal_digit (char_at bs 0) ≡ false) × Readable bs

run-none : (cs : Bytes) → is_octal_digit (char_at cs 0) ≡ false → run is_octal_digit 2 cs ≡ []
unfolding run
run-none [] h = refl
run-none (c ∷ cs) h = rw h

-- A zero is one octal digit after the backslash.
zero_step :
    (cs : Bytes) (fuel : ℕ)
    → is_octal_digit (char_at cs 0) ≡ false
    → read_string (suc fuel) (b'\\' ∷ b'0' ∷ cs)
      ≡ read_string fuel cs >>= λ s. ok (literal_after 0 2 s)
unfolding read_string string_escape read_escape octal_value run
zero_step cs fuel h = rw (run-none cs h) refl

letter_step :
    (c b : ℕ) (cs : Bytes) (fuel : ℕ)
    → string_letter c ≡ some b
    → is_octal_digit c ≡ false
    → (c == b'x') ≡ false
    → read_string (suc fuel) (b'\\' ∷ c ∷ cs)
      ≡ read_string fuel cs >>= λ s. ok (literal_after b 2 s)
unfolding read_string string_escape read_escape
letter_step c b cs fuel e o x = rw (x, o, e) refl

plain_step :
    (b : ℕ) (cs : Bytes) (fuel : ℕ)
    → (b == b'\n') ≡ false
    → (b == b'\\') ≡ false
    → (b == b'"') ≡ false
    → (b == 0) ≡ false
    → read_string (suc fuel) (b ∷ cs) ≡ read_string fuel cs >>= λ s. ok (literal_after b 1 s)
unfolding read_string
plain_step b cs fuel e₁ e₂ e₃ e₄ = rw (e₁, e₂, e₃, e₄) refl

-- A byte is read, and then what stands behind it.
escape_byte-step :
    (b : ℕ) (cs : Bytes) (fuel : ℕ)
    → (b == 0) && is_octal_digit (char_at cs 0) ≡ false
    → read_string (suc fuel) (escape_byte b ++ cs)
      ≡ read_string fuel cs >>= λ s. ok (literal_after b (length (escape_byte b)) s)
unfolding escape_byte string_letter
escape_byte-step b cs fuel h = elim (Bool-cases (b == b'\n')) [
  | inl e ↦ rw ((==_iff b 10).0 e) (letter_step b'n' 10 cs fuel refl refl refl)
  | inr e₁ ↦ elim (Bool-cases (b == b'\t')) [
    | inl e ↦ rw ((==_iff b 9).0 e) (letter_step b't' 9 cs fuel refl refl refl)
    | inr e₂ ↦ elim (Bool-cases (b == b'\r')) [
      | inl e ↦ rw ((==_iff b 13).0 e) (letter_step b'r' 13 cs fuel refl refl refl)
      | inr e₃ ↦ elim (Bool-cases (b == b'\\')) [
        | inl e ↦ rw ((==_iff b b'\\').0 e) (letter_step b'\\' b'\\' cs fuel refl refl refl)
        | inr e₄ ↦ elim (Bool-cases (b == b'"')) [
          | inl e ↦ rw ((==_iff b b'"').0 e) (letter_step b'"' b'"' cs fuel refl refl refl)
          | inr e₅ ↦ elim (Bool-cases (b == 0)) [
            | inl e ↦ rw ((==_iff b 0).0 e) (zero_step cs fuel (rw e at h))
            | inr e₆ ↦ rw (e₁, e₂, e₃, e₄, e₅, e₆) (plain_step b cs fuel e₁ e₄ e₅ e₆)
          ]
        ]
      ]
    ]
  ]
]

-- What stands first in the text of a byte is the byte, or a backslash.
first_of_escape :
    (b : ℕ) (cs : Bytes)
    → is_octal_digit b ≡ false
    → is_octal_digit (char_at (escape_byte b ++ cs) 0) ≡ false
unfolding escape_byte
first_of_escape b cs h = ground arith

first_of_text :
    (bs rest : Bytes)
    → is_octal_digit (char_at bs 0) ≡ false
    → is_octal_digit (char_at (escape_bytes bs ++ (b'"' ∷ rest)) 0) ≡ false
unfolding escape_bytes
first_of_text [] rest h = refl
first_of_text (b ∷ bs) rest h =
    rw (append_assoc (escape_byte b) (escape_bytes bs) (b'"' ∷ rest))
      (first_of_escape b (escape_bytes bs ++ (b'"' ∷ rest)) h)

abbrev pub read_again : Bytes → Literal
read_again bs = record { bytes = bs; width = length (escape_bytes bs) + 1 }

first_byte :
    (b : ℕ) (bs rest : Bytes)
    → (b == 0) && is_octal_digit (char_at bs 0) ≡ false
    → (b == 0) && is_octal_digit (char_at (escape_bytes bs ++ (b'"' ∷ rest)) 0) ≡ false
first_byte b bs rest h = elim (Bool-cases (b == 0)) [
  | inl e ↦ rw e (first_of_text bs rest (rw e at h))
  | inr e ↦ rw e refl
]

some_text : (b : ℕ) → 1 ≤ length (escape_byte b)
unfolding escape_byte
some_text b = ground arith

-- A string literal of the dump, in whose bytes no zero stands before an octal digit, is read back as its
-- bytes, up to its closing quote, with more fuel than its length.
pub read_string-escape_bytes :
    (bs rest : Bytes) (fuel : ℕ)
    → Readable bs
    → length (escape_bytes bs) < fuel
    → read_string fuel (escape_bytes bs ++ (b'"' ∷ rest)) ≡ ok (read_again bs)
unfolding escape_bytes Readable
read_string-escape_bytes bs rest zero a h = absurd (omega arith)
read_string-escape_bytes [] rest (suc fuel) a h = unfold read_string in refl
read_string-escape_bytes (b ∷ bs) rest (suc fuel) (first, a) h =
    let size = length-append (escape_byte b) (escape_bytes bs) in
    let some_char = some_text b in
    let ih = read_string-escape_bytes bs rest fuel a (omega arith) in
    ap (read_string (suc fuel)) (append_assoc (escape_byte b) (escape_bytes bs) (b'"' ∷ rest))
    ∙ escape_byte-step b (escape_bytes bs ++ (b'"' ∷ rest)) fuel (first_byte b bs rest first)
    ∙ rw ih (ap (λ n. ok (record { bytes = b ∷ bs; width = n })) (omega arith))
