-- ===== src/Lexer/Operators.antt =====
-- A punctuator is the text that stands in the source.
use claudec.Base.{
  ℕ, ◌≤◌, Bool, true, false, ◌&&◌, Option, none, some, [], ◌∷◌, ◌==◌, if◌then◌else◌, ◌≡◌, ◌≢◌, refl,
  sym, ap, subst, arith, ==_iff, &&-eq-true,
}
use claudec.Lexer.{TokenType}
use claudec.Lexer.Punct.{
  Punct, single_punct, dot_punct, arith_punct, relational_punct, bitwise_punct, ◌or_punct◌,
  next_punct,
}

-- The text of the punctuator is the next character, the next two or the next three, up to one that is
-- not the terminator.
pub data Stands (c n m : ℕ) : Punct → Type 0 where
  one_char : {p : Punct} → p.text ≡ c ∷ [] → c ≢ 0 → Stands c n m p
  two_chars : {p : Punct} → p.text ≡ c ∷ n ∷ [] → n ≢ 0 → Stands c n m p
  three_chars : {p : Punct} → p.text ≡ c ∷ n ∷ m ∷ [] → m ≢ 0 → Stands c n m p

module _ (c n m : ℕ) where
  data Fits : Option Punct → Type 0 where
    no_punct : Fits none
    a_punct : {p : Punct} → Stands c n m p → Fits (some p)

  if-Fits :
      (b : Bool) {x y : Option Punct}
      → (b ≡ true → Fits x)
      → (b ≡ false → Fits y)
      → Fits (if b then x else y)
  if-Fits true h k = h refl
  if-Fits false h k = k refl

  -- A test of a character, and one of two characters.
  on : (a k : ℕ) {x y : Option Punct} → (a ≡ k → Fits x) → Fits y → Fits (if a == k then x else y)
  on a k h o = if-Fits (a == k) (λ e. h ((==_iff a k).0 e)) (λ _. o)

  on_two :
      (a b k l : ℕ) {x y : Option Punct}
      → (a ≡ k → b ≡ l → Fits x)
      → Fits y
      → Fits (if (a == k) && (b == l) then x else y)
  on_two a b k l h o =
      if-Fits ((a == k) && (b == l))
        (λ e. let both = &&-eq-true _ _ e in h ((==_iff a k).0 both.0) ((==_iff b l).0 both.1))
        (λ _. o)

  or-Fits : (o o' : Option Punct) → Fits o → Fits o' → Fits (o or_punct o')
  or-Fits none o' h k = k
  or-Fits (some p) o' h k = h

  one :
      {t : TokenType} (k : ℕ)
      → 1 ≤ k
      → c ≡ k
      → Fits (some (record { token_type = t; text = k ∷ [] }))
  one k h e = a_punct (one_char (ap (◌∷ []) (sym e)) (omega arith))

  two :
      {t : TokenType} (k l : ℕ)
      → 1 ≤ l
      → c ≡ k
      → n ≡ l
      → Fits (some (record { token_type = t; text = k ∷ l ∷ [] }))
  two k l h e f = a_punct (two_chars (cc) (omega arith))

  three :
      {t : TokenType} (k l j : ℕ)
      → 1 ≤ j
      → c ≡ k
      → n ≡ l
      → m ≡ j
      → Fits (some (record { token_type = t; text = k ∷ l ∷ j ∷ [] }))
  three k l j h e f g = a_punct (three_chars (cc) (omega arith))

  single_punct-Fits : Fits (single_punct c)
  unfolding single_punct
  single_punct-Fits = on c b'(' (one b'(' (omega arith)) (
      on c b')' (one b')' (omega arith)) (
        on c b'{' (one b'{' (omega arith)) (
          on c b'}' (one b'}' (omega arith)) (
            on c b'[' (one b'[' (omega arith)) (
              on c b']' (one b']' (omega arith)) (
                on c b';' (one b';' (omega arith)) (
                  on c b':' (one b':' (omega arith)) (
                    on c b'?' (one b'?' (omega arith))
                      (on c b',' (one b',' (omega arith)) no_punct)))))))))

  dot_punct-Fits : c ≡ b'.' → Fits (dot_punct n m)
  unfolding dot_punct
  dot_punct-Fits e =
      on_two n m b'.' b'.' (three b'.' b'.' b'.' (omega arith) e) (one b'.' (omega arith) e)

  arith_punct-Fits : Fits (arith_punct c n)
  unfolding arith_punct
  arith_punct-Fits =
      on c b'+'
        (λ e.
          on n b'+' (two b'+' b'+' (omega arith) e)
            (on n b'=' (two b'+' b'=' (omega arith) e) (one b'+' (omega arith) e)))
        (on c b'-'
          (λ e. on n b'-' (two b'-' b'-' (omega arith) e) (
            on n b'=' (two b'-' b'=' (omega arith) e)
              (on n b'>' (two b'-' b'>' (omega arith) e) (one b'-' (omega arith) e))))
          (on c b'*' (λ e. on n b'=' (two b'*' b'=' (omega arith) e) (one b'*' (omega arith) e))
            (on c b'/' (λ e. on n b'=' (two b'/' b'=' (omega arith) e) (one b'/' (omega arith) e))
              (on c b'%' (λ e. on n b'=' (two b'%' b'=' (omega arith) e) (one b'%' (omega arith) e))
                (on c b'~' (one b'~' (omega arith)) no_punct)))))

  relational_punct-Fits : Fits (relational_punct c n m)
  unfolding relational_punct
  relational_punct-Fits = on_two c n b'=' b'=' (two b'=' b'=' (omega arith)) (
      on c b'=' (one b'=' (omega arith)) (
        on_two c n b'!' b'=' (two b'!' b'=' (omega arith)) (
          on c b'!' (one b'!' (omega arith)) (
            on_two c n b'<' b'<'
              (λ e f.
                on m b'=' (three b'<' b'<' b'=' (omega arith) e f)
                  (two b'<' b'<' (omega arith) e f))
              (on_two c n b'>' b'>'
                (λ e f.
                  on m b'=' (three b'>' b'>' b'=' (omega arith) e f)
                    (two b'>' b'>' (omega arith) e f))
                (on_two c n b'<' b'=' (two b'<' b'=' (omega arith)) (
                  on_two c n b'>' b'=' (two b'>' b'=' (omega arith)) (
                    on c b'<' (one b'<' (omega arith))
                      (on c b'>' (one b'>' (omega arith)) no_punct)))))))))

  bitwise_punct-Fits : Fits (bitwise_punct c n)
  unfolding bitwise_punct
  bitwise_punct-Fits = on_two c n b'&' b'&' (two b'&' b'&' (omega arith)) (
      on_two c n b'&' b'=' (two b'&' b'=' (omega arith)) (
        on c b'&' (one b'&' (omega arith)) (
          on_two c n b'|' b'|' (two b'|' b'|' (omega arith)) (
            on_two c n b'|' b'=' (two b'|' b'=' (omega arith)) (
              on c b'|' (one b'|' (omega arith)) (
                on_two c n b'^' b'=' (two b'^' b'=' (omega arith))
                  (on c b'^' (one b'^' (omega arith)) no_punct)))))))

  next_punct-Fits : Fits (next_punct c n m)
  unfolding next_punct
  next_punct-Fits = or-Fits _ _ single_punct-Fits (
      or-Fits _ _ (on c b'.' dot_punct-Fits no_punct)
        (or-Fits _ _ arith_punct-Fits (or-Fits _ _ relational_punct-Fits bitwise_punct-Fits)))

  some_punct : (o : Option Punct) (p : Punct) → Fits o → o ≡ some p → Stands c n m p
  some_punct o p no_punct e = cc
  some_punct o p (a_punct {p = q} s) e = subst (Stands c n m) (cc) s

-- A punctuator that `lexer_next_token` reads is spelled as the characters that stand in the source.
pub next_punct-Stands : (c n m : ℕ) (p : Punct) → next_punct c n m ≡ some p → Stands c n m p
next_punct-Stands c n m p e = some_punct c n m (next_punct c n m) p (next_punct-Fits c n m) e
