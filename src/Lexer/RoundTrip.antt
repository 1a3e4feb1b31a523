-- ===== src/Lexer/RoundTrip.antt =====
-- String literals: what is written as a literal is read back.
use mathlib.Core.List.{append_assoc}
use claudec.Base.{
  ℕ, zero, suc, ◌+◌, ◌/◌, ◌%◌, ◌≤◌, ◌<◌, Bool, true, false, ◌&&◌, [], ◌∷◌, ◌++◌, leb, not, ◌==◌,
  if◌then◌else◌, Bytes, codes, length, ◌≡◌, refl, ap, ◌∙◌, arith, Bool-cases, inl, inr,
  length-append,
}
use claudec.Memory.{ok, fatal, ◌>>=◌}
use claudec.Lexer.{run}
use claudec.Lexer.Escape.{
  is_octal_digit, octal_value, read_escape, string_escape, Literal, literal_after, read_string,
}

-- The bytes that stand for themselves in a literal.
abbrev is_plain : ℕ → Bool
is_plain b = leb 32 b && leb b 126 && not (b == b'"') && not (b == b'\\')

abbrev octal_digits : ℕ → Bytes
octal_digits b = (b'0' + b / 64) ∷ (b'0' + b / 8 % 8) ∷ (b'0' + b % 8) ∷ []

abbrev quoted : ℕ → Bytes
quoted b = if is_plain b then b ∷ [] else b'\\' ∷ octal_digits b

-- The text of a literal with the given bytes: a printable character as it is, and another byte by three
-- octal digits.
unfoldable pub quote_bytes : Bytes → Bytes
quote_bytes [] = []
quote_bytes (b ∷ bs) = quoted b ++ quote_bytes bs

unfoldable pub AreBytes : Bytes → Type 0
AreBytes [] = Unit
AreBytes (b ∷ bs) = (b < 256) × AreBytes bs

octal_digit : (d : ℕ) → d < 8 → is_octal_digit (b'0' + d) ≡ true
octal_digit d h = ground arith

octal_value-digits : (b : ℕ) → b < 256 → octal_value 0 (octal_digits b) % 256 ≡ b
unfolding octal_value
octal_value-digits b h = omega arith

octal_digit_is_not_x : (d : ℕ) → d < 8 → (b'0' + d == b'x') ≡ false
octal_digit_is_not_x d h = ground arith

string_escape-digits :
    (x y z : ℕ) (cs : Bytes)
    → (x == b'x') ≡ false
    → is_octal_digit x ≡ true
    → is_octal_digit y ≡ true
    → is_octal_digit z ≡ true
    → string_escape (b'\\' ∷ x ∷ y ∷ z ∷ cs)
      ≡ ok (record { byte = octal_value 0 (x ∷ y ∷ z ∷ []) % 256; width = 4 })
unfolding string_escape read_escape run
string_escape-digits x y z cs n d d' d'' = rw (n, d, d', d'') refl

string_escape-octal :
    (b : ℕ) (cs : Bytes)
    → b < 256
    → string_escape (b'\\' ∷ (octal_digits b ++ cs)) ≡ ok (record { byte = b; width = 4 })
string_escape-octal b cs h =
    string_escape-digits _ _ _ cs (octal_digit_is_not_x (b / 64) (omega arith))
      (octal_digit (b / 64) (omega arith)) (octal_digit (b / 8 % 8) (omega arith))
      (octal_digit (b % 8) (omega arith))
    ∙ ap (λ v. ok (record { byte = v; width = 4 })) (octal_value-digits b h)

abbrev pub read_back : Bytes → Literal
read_back bs = record { bytes = bs; width = length (quote_bytes bs) + 1 }

plain_step :
    (b : ℕ) (cs : Bytes) (fuel : ℕ)
    → is_plain b ≡ true
    → read_string (suc fuel) (b ∷ cs) ≡ read_string fuel cs >>= λ s. ok (literal_after b 1 s)
unfolding read_string
plain_step b cs fuel h =
    let quote_test : (b == b'"') ≡ false = ground arith in
    let end_test : (b == 0) ≡ false = ground arith in
    let line_test : (b == b'\n') ≡ false = ground arith in
    let escape_test : (b == b'\\') ≡ false = ground arith in
    rw (quote_test, end_test, line_test, escape_test) refl

octal_step :
    (b : ℕ) (cs : Bytes) (fuel : ℕ)
    → b < 256
    → read_string (suc fuel) (b'\\' ∷ (octal_digits b ++ cs))
      ≡ read_string fuel cs >>= λ s. ok (literal_after b 4 s)
unfolding read_string
octal_step b cs fuel h = rw (string_escape-octal b cs h) refl

quoted_size : (b : ℕ) → 1 ≤ length (quoted b)
quoted_size b = elim (Bool-cases (is_plain b)) [
  | inl e ↦ rw e (omega arith)
  | inr e ↦ rw e (omega arith)
]

-- A byte is read, and then what stands behind it.
quoted_step :
    (b : ℕ) (cs : Bytes) (fuel : ℕ)
    → b < 256
    → read_string (suc fuel) (quoted b ++ cs)
      ≡ read_string fuel cs >>= λ s. ok (literal_after b (length (quoted b)) s)
quoted_step b cs fuel h = elim (Bool-cases (is_plain b)) [
  | inl e ↦ rw e (plain_step b cs fuel e)
  | inr e ↦ rw e (octal_step b cs fuel h)
]

-- A literal of any bytes below 256, in which a printable character stands for itself and any other byte
-- is three octal digits after a backslash, is read back as these bytes, up to its closing quote, with
-- more fuel than its length.
pub read_string-quote_bytes :
    (bs rest : Bytes) (fuel : ℕ)
    → AreBytes bs
    → length (quote_bytes bs) < fuel
    → read_string fuel (quote_bytes bs ++ (b'"' ∷ rest)) ≡ ok (read_back bs)
unfolding quote_bytes AreBytes
read_string-quote_bytes bs rest zero a h = absurd (omega arith)
read_string-quote_bytes [] rest (suc fuel) a h = unfold read_string in refl
read_string-quote_bytes (b ∷ bs) rest (suc fuel) (byte, a) h =
    let size = length-append (quoted b) (quote_bytes bs) in
    let some_char = quoted_size b in
    let ih = read_string-quote_bytes bs rest fuel a (omega arith) in
    ap (read_string (suc fuel)) (append_assoc (quoted b) (quote_bytes bs) (b'"' ∷ rest))
    ∙ quoted_step b _ fuel byte
    ∙ ap (λ o. o >>= λ s. ok (literal_after b (length (quoted b)) s)) ih
    ∙ ap (λ w. ok (record { bytes = b ∷ bs; width = w })) (omega arith)

fails_behind :
    (bs tail m : Bytes) (fuel : ℕ)
    → AreBytes bs
    → ((f : ℕ) → read_string (suc f) tail ≡ fatal m)
    → length (quote_bytes bs) < fuel
    → read_string fuel (quote_bytes bs ++ tail) ≡ fatal m
unfolding quote_bytes AreBytes
fails_behind bs tail m zero a k h = absurd (omega arith)
fails_behind [] tail m (suc fuel) a k h = k fuel
fails_behind (b ∷ bs) tail m (suc fuel) (byte, a) k h =
    let size = length-append (quoted b) (quote_bytes bs) in
    let some_char = quoted_size b in
    let ih = fails_behind bs tail m fuel a k (omega arith) in
    ap (read_string (suc fuel)) (append_assoc (quoted b) (quote_bytes bs) tail)
    ∙ quoted_step b _ fuel byte
    ∙ ap (λ o. o >>= λ s. ok (literal_after b (length (quoted b)) s)) ih

-- A literal in which a printable character stands for itself and any other byte is three octal digits after
-- a backslash ends, where the text ends before a closing quote, with the message about that, and where a
-- line ends first with the message about a newline, with more fuel than the length of what comes before.
pub read_string-unclosed :
    (bs rest : Bytes) (fuel : ℕ)
    → AreBytes bs
    → length (quote_bytes bs) < fuel
    → (read_string fuel (quote_bytes bs ++ []) ≡ fatal (codes "error: unterminated string literal"))
      × (read_string fuel (quote_bytes bs ++ (b'\n' ∷ rest))
          ≡ fatal (codes "error: newline in string literal"))
read_string-unclosed bs rest fuel a h = (
  fails_behind bs [] _ fuel a (λ f. unfold read_string in refl) h,
  fails_behind bs (b'\n' ∷ rest) _ fuel a (λ f. unfold read_string in refl) h,
)
