-- ===== src/Lexer/Spelling.antt =====
-- What is read of a number, a string or a character stands in the source text.
use mathlib.Core.List.{append_assoc}
use claudec.Base.{
  ℕ, zero, suc, ◌-◌, ◌≤◌, Bool, true, false, not, ◌&&◌, ◌||◌, [], ◌∷◌, ◌++◌, ◌==◌, Bytes, length,
  drop, ◌≡◌, ◌≢◌, refl, sym, ap, ◌∙◌, subst, arith, Bool-cases, inl, inr, length-append,
  drop-append, ==_iff, &&-eq-true, ltb,
}
use claudec.Memory.{ok, Ensures, holds, exits, is_stuck, >>=-Ensures, Ensures-if}
use claudec.Lexer.{char_at, run}
use claudec.Lexer.Space.{isdigit}
use claudec.Lexer.Escape.{isxdigit}
use claudec.Lexer.Number.{
  num_buf_size, put_char, put_run, here, is_e, is_f, is_sign, put_if, put_exponent, put_fraction,
  Number, floating, integer, end_floating, read_dot_number, read_decimal, is_octal_digit,
  is_bad_octal, read_octal, read_hex, read_number,
}

-- The text begins with the buffer.
abbrev pub Spells : Bytes → Bytes → Type 0
Spells cs buf = cs ≡ buf ++ drop (length buf) cs

pub Spells-append :
    (cs buf ys zs : Bytes) → Spells cs buf → drop (length buf) cs ≡ ys ++ zs → Spells cs (buf ++ ys)
Spells-append cs buf ys zs h e =
    let whole : cs ≡ (buf ++ ys) ++ zs = h ∙ ap (buf ++◌) e ∙ sym (append_assoc buf ys zs) in
    let behind : drop (length (buf ++ ys)) cs ≡ zs =
      ap (drop (length (buf ++ ys))) whole ∙ drop-append (buf ++ ys) zs in
    whole ∙ ap ((buf ++ ys) ++◌) (sym behind)

pub run-prefix : (t : ℕ → Bool) (n : ℕ) (cs : Bytes) → Spells cs (run t n cs)
unfolding run
run-prefix t zero cs = refl
run-prefix t (suc n) [] = refl
run-prefix t (suc n) (c ∷ cs) = elim (Bool-cases (t c)) [
  | inl e ↦ rw e (ap (c ∷◌) (run-prefix t n cs))
  | inr e ↦ rw e refl
]

head_first : (cs : Bytes) → char_at cs 0 ≢ 0 → cs ≡ (char_at cs 0 ∷ []) ++ drop 1 cs
head_first [] h = absurd (h refl)
head_first (c ∷ cs) h = refl

-- The text begins with the buffer, which is not empty.
pub record IsRead (cs buf : Bytes) : Type 0 where
  pub spelled : Spells cs buf
  pub some_read : 1 ≤ length buf

pub Spells-length : (cs buf : Bytes) → Spells cs buf → length buf ≤ length cs
Spells-length cs buf h = omega (arith, ap length h, length-append buf (drop (length buf) cs))

put_run-IsRead : (t : ℕ → Bool) (cs buf : Bytes) → IsRead cs buf → IsRead cs (put_run t cs buf)
unfolding put_run
put_run-IsRead t cs buf r =
    let more = run t (62 - length buf) (drop (length buf) cs) in
    let size = r.some_read in
    record {
      spelled =
          Spells-append cs buf more _ r.spelled
            (run-prefix t (62 - length buf) (drop (length buf) cs));
      some_read = omega (arith, length-append buf more);
    }

put_char-IsRead :
    (cs buf : Bytes) (c : ℕ)
    → IsRead cs buf
    → here cs buf ≡ c
    → c ≢ 0
    → Ensures (IsRead cs) (put_char buf c)
unfolding put_char
put_char-IsRead cs buf c r e h =
    Ensures-if (ltb (length buf) num_buf_size) (λ _. holds fits) (λ _. is_stuck)
  where
    fits : IsRead cs (buf ++ c ∷ [])
    fits =
        let next = head_first (drop (length buf) cs) (λ z. h (sym e ∙ z)) in
        let next' =
          subst (λ k. drop (length buf) cs ≡ (k ∷ []) ++ drop 1 (drop (length buf) cs)) e next in
        record {
          spelled = Spells-append cs buf (c ∷ []) _ r.spelled next';
          some_read = omega (arith, length-append buf (c ∷ []));
        }

put_if-IsRead :
    (t : ℕ → Bool) (cs buf : Bytes)
    → t 0 ≡ false
    → IsRead cs buf
    → Ensures (IsRead cs) (put_if t cs buf)
put_if-IsRead t cs buf z r =
    Ensures-if (t (here cs buf))
      (λ yes_here. put_char-IsRead cs buf (here cs buf) r refl (λ e. cc (ap t e))) (λ _. holds r)

abbrev FirstIsRead : Bytes → (Bytes × Bool) → Type 0
FirstIsRead cs p = IsRead cs p.0

put_exponent-IsRead :
    (cs buf : Bytes) → IsRead cs buf → Ensures (FirstIsRead cs) (put_exponent cs buf)
unfolding put_exponent
put_exponent-IsRead cs buf r =
    Ensures-if (is_e (here cs buf))
      (λ yes_here.
        >>=-Ensures (put_char-IsRead cs buf (here cs buf) r refl (λ e. cc (ap is_e e))) (λ b s.
          >>=-Ensures (put_if-IsRead is_sign cs b refl s)
            (λ b' s'. holds (put_run-IsRead isdigit cs b' s'))))
      (λ _. holds r)

put_fraction-IsRead :
    (cs buf : Bytes) → IsRead cs buf → Ensures (FirstIsRead cs) (put_fraction cs buf)
unfolding put_fraction
put_fraction-IsRead cs buf r =
    let second = char_at (drop (length buf) cs) 1 in
    Ensures-if ((here cs buf == b'.') && not (second == b'.'))
      (λ yes_here.
        let dot = (==_iff (here cs buf) b'.').0 (&&-eq-true _ _ yes_here).0 in
        >>=-Ensures (put_char-IsRead cs buf b'.' r dot (omega arith))
          (λ b s. holds (put_run-IsRead isdigit cs b s)))
      (λ _. holds r)

-- The buffer of a number.
abbrev pub buffer : Number → Bytes
buffer (floating buf has_f) = buf
buffer (integer buf base) = buf

abbrev pub NumberIsRead : Bytes → Number → Type 0
NumberIsRead cs n = IsRead cs (buffer n)

end_floating-IsRead :
    (cs buf : Bytes) → IsRead cs buf → Ensures (NumberIsRead cs) (end_floating cs buf)
unfolding end_floating
end_floating-IsRead cs buf r = >>=-Ensures (put_if-IsRead is_f cs buf refl r) (λ b s.
    >>=-Ensures
      (Ensures-if {P = IsRead cs} (ltb (length b) num_buf_size) (λ _. holds s) (λ _. is_stuck))
      (λ b' s'. holds s'))

-- The first character, if the test accepts it.
first_run-IsRead :
    (t : ℕ → Bool) (cs : Bytes)
    → t 0 ≡ false
    → t (char_at cs 0) ≡ true
    → IsRead cs (put_run t cs [])
unfolding put_run run
first_run-IsRead t [] z h = cc
first_run-IsRead t (c ∷ cs) z h = record {
  spelled = run-prefix t 62 (c ∷ cs);
  some_read = rw h (omega arith);
}

pub read_dot_number-IsRead :
    (cs : Bytes) → char_at cs 0 ≡ b'.' → Ensures (NumberIsRead cs) (read_dot_number cs)
unfolding read_dot_number
read_dot_number-IsRead [] h = absurd (omega arith)
read_dot_number-IsRead (c ∷ cs) h =
    let start : IsRead (c ∷ cs) (b'.' ∷ []) = record {
      spelled = ap (◌∷ cs) h;
      some_read = omega arith;
    } in
    >>=-Ensures (put_exponent-IsRead (c ∷ cs) _ (put_run-IsRead isdigit (c ∷ cs) (b'.' ∷ []) start))
      (λ p r. end_floating-IsRead (c ∷ cs) p.0 r)

read_decimal-IsRead :
    (cs : Bytes) → isdigit (char_at cs 0) ≡ true → Ensures (NumberIsRead cs) (read_decimal cs)
unfolding read_decimal
read_decimal-IsRead cs h =
    >>=-Ensures (put_fraction-IsRead cs _ (first_run-IsRead isdigit cs refl h)) (λ p r.
      >>=-Ensures (put_exponent-IsRead cs p.0 r) (λ q s.
        Ensures-if (p.1 || q.1) (λ _. end_floating-IsRead cs q.0 s)
          (λ _.
            >>=-Ensures
              (Ensures-if {P = IsRead cs} (ltb (length q.0) num_buf_size) (λ _. holds s)
                (λ _. is_stuck))
              (λ b u. holds u))))

read_octal-IsRead :
    (cs : Bytes) → is_octal_digit (char_at cs 0) ≡ true → Ensures (NumberIsRead cs) (read_octal cs)
unfolding read_octal
read_octal-IsRead cs h =
    let buf = put_run is_octal_digit cs [] in
    Ensures-if {P = NumberIsRead cs} (ltb (length buf) 62 && is_bad_octal (here cs buf))
      {y = ok (integer buf 8)} (λ _. exits) (λ _. holds (first_run-IsRead is_octal_digit cs refl h))

read_hex-IsRead : (cs : Bytes) → char_at cs 1 ≢ 0 → Ensures (NumberIsRead cs) (read_hex cs)
unfolding read_hex
read_hex-IsRead [] h = absurd (h refl)
read_hex-IsRead (c ∷ []) h = absurd (h refl)
read_hex-IsRead (c ∷ x ∷ cs) h =
    let start : IsRead (c ∷ x ∷ cs) (c ∷ x ∷ []) = record {
      spelled = refl;
      some_read = omega arith;
    } in
    Ensures-if {P = NumberIsRead (c ∷ x ∷ cs)} (isxdigit (char_at (c ∷ x ∷ cs) 2))
      {x = ok (integer (put_run isxdigit (c ∷ x ∷ cs) (c ∷ x ∷ [])) 16)}
      (λ _. holds (put_run-IsRead isxdigit (c ∷ x ∷ cs) (c ∷ x ∷ []) start)) (λ _. exits)

-- At a digit, what `read_number` reads of a number is a beginning of the text with at least one character.
pub read_number-IsRead :
    (cs : Bytes) → isdigit (char_at cs 0) ≡ true → Ensures (NumberIsRead cs) (read_number cs)
unfolding read_number
read_number-IsRead cs h =
    let n = char_at cs 1 in
    Ensures-if ((char_at cs 0 == b'0') && ((n == b'x') || (n == b'X')))
      (λ e. read_hex-IsRead cs (ground arith))
      (λ _.
        Ensures-if ((char_at cs 0 == b'0') && isdigit n) (λ e. read_octal-IsRead cs (ground arith))
          (λ _. read_decimal-IsRead cs h))
