-- ===== src/Parser/Sound/Types.antt =====
-- `parse_type_specifier`, src/parser.c, gives the type of the keywords.
use claudec.Base.{true, List, ◌≡◌, refl, arith}
use claudec.CType.{CType}
use claudec.Lexer.{TokenType}
use claudec.Parser.{Parser, Parsed, is, size}
use claudec.Parser.Types.{
  type_kind, with_int, past, after_long_long, after_signed_long, long_long_sign, after_long, Signs,
  after_sign,
}
use claudec.Parser.Runs.{
  View, view, Next, Runs, returned, failed, Runs-map, Runs-if, >>=-advance, Stands,
}
use claudec.Parser.Words.{
  SignWord, signed, unsigned, Words, long, long_long, long_double, sign, sign_char, sign_short,
  sign_int, sign_long, sign_long_long, long_sign, long_sign_long,
  long_long_sign as long_long_sign_words, Passes, stop, pass, takes_int, Specifier, words,
  with_int as words_int,
}
use claudec.Parser.Sound.Initializer.{>>=-skip_if}

-- The type whose keywords begin at a view.
abbrev pub Typed : View → Parser → Parsed (CType × Parser) → Type 0
Typed v p o = Runs (λ t w. Specifier t v w) (size p) o

pub with_int-Runs :
    (v : View) (ks : List TokenType) (t : CType) (p : Parser)
    → Words ks t
    → takes_int (type_kind t) ≡ true
    → Passes ks v (view p)
    → Typed v p (with_int t p)
unfolding with_int
with_int-Runs v ks t p x e y =
    >>=-skip_if TokenType.int p _ refl (λ q d o. returned (words_int x e y o) d)

pub past-Runs :
    (v : View) (t : CType) (k : TokenType) (p : Parser)
    → Stands k
    → is k p ≡ true
    → ((w : View) → Next k (view p) w → Specifier t v w)
    → Typed v p (past t p)
unfolding past
past-Runs v t k p s e f = >>=-advance k p s e (λ q x d. returned (f (view q) x) (omega arith))

-- After a sign and `long`: one more `long` may stand here.
after_signed_long-Runs :
    (v : View) (ks : List TokenType) (once twice : CType) (p : Parser)
    → Words ks once
    → takes_int (type_kind once) ≡ true
    → Passes ks v (view p)
    → takes_int (type_kind twice) ≡ true
    → ((w : View)
        → Next TokenType.long (view p) w
        → (ls : List TokenType) × Words ls twice × Passes ls v w)
    → Typed v p (after_signed_long once twice p)
unfolding after_signed_long after_long_long
after_signed_long-Runs v ks once twice p x e y e' f =
    Runs-if (is TokenType.long p)
      (λ i. >>=-advance TokenType.long p refl i (λ q z d.
        let (ls, x', y') = f (view q) z in
        Runs-if (is TokenType.long q) (λ _. failed)
          (λ _. Runs-map (with_int-Runs v ls twice q x' e' y') (omega arith) (λ a w u. u))))
      (λ _. with_int-Runs v ks once p x e y)

-- After `long long`.
long_long_sign-Runs :
    (v v' : View) (p : Parser)
    → Next TokenType.long v v'
    → Next TokenType.long v' (view p)
    → Typed v p (long_long_sign p)
unfolding long_long_sign
long_long_sign-Runs v v' p x y =
    Runs-if (is TokenType.long p) (λ _. failed)
      (λ _.
        Runs-if (is TokenType.unsigned p)
          (λ i. >>=-advance TokenType.unsigned p refl i (λ q z d.
            Runs-map
              (with_int-Runs v _ _ q (long_long_sign_words unsigned) refl
                (pass x (pass y (pass z stop))))
              (omega arith) (λ a w u. u)))
          (λ _.
            Runs-if (is TokenType.signed p)
              (λ i. >>=-advance TokenType.signed p refl i (λ q z d.
                Runs-map
                  (with_int-Runs v _ _ q (long_long_sign_words signed) refl
                    (pass x (pass y (pass z stop))))
                  (omega arith) (λ a w u. u)))
              (λ _. with_int-Runs v _ _ p long_long refl (pass x (pass y stop)))))

-- After `long` and a sign.
long_sign-Runs :
    (v v' : View) (k : TokenType) (s : Signs) (p : Parser)
    → SignWord k s
    → takes_int (type_kind s.of_long) ≡ true
    → takes_int (type_kind s.of_long_long) ≡ true
    → Next TokenType.long v v'
    → Next k v' (view p)
    → Typed v p (after_signed_long s.of_long s.of_long_long p)
long_sign-Runs v v' k s p i e e' x y =
    after_signed_long-Runs v _ _ _ p (long_sign i) e (pass x (pass y stop)) e'
      (λ w z. (_, long_sign_long i, pass x (pass y (pass z stop))))

pub after_long-Runs :
    (v : View) (p : Parser) → Next TokenType.long v (view p) → Typed v p (after_long p)
unfolding after_long
after_long-Runs v p x =
    Runs-if (is TokenType.unsigned p)
      (λ i. >>=-advance TokenType.unsigned p refl i (λ q y d.
        Runs-map (long_sign-Runs v (view p) _ _ q unsigned refl refl x y) (omega arith)
          (λ a w u. u)))
      (λ _.
        Runs-if (is TokenType.signed p)
          (λ i. >>=-advance TokenType.signed p refl i (λ q y d.
            Runs-map (long_sign-Runs v (view p) _ _ q signed refl refl x y) (omega arith)
              (λ a w u. u)))
          (λ _.
            Runs-if (is TokenType.long p)
              (λ i. >>=-advance TokenType.long p refl i (λ q y d.
                Runs-map (long_long_sign-Runs v (view p) q x y) (omega arith) (λ a w u. u)))
              (λ _.
                Runs-if (is TokenType.double p)
                  (λ i. past-Runs v _ _ p refl i (λ w y. words long_double (pass x (pass y stop))))
                  (λ _. with_int-Runs v _ _ p long refl (pass x stop)))))

pub after_sign-Runs :
    (v : View) (other k : TokenType) (s : Signs) (p : Parser)
    → SignWord k s
    → takes_int (type_kind s.of_short) ≡ true
    → takes_int (type_kind s.of_long) ≡ true
    → takes_int (type_kind s.of_long_long) ≡ true
    → Next k v (view p)
    → Typed v p (after_sign other s p)
unfolding after_sign
after_sign-Runs v other k s p i e₁ e₂ e₃ x =
    Runs-if (is other p) (λ _. failed)
      (λ _.
        Runs-if (is TokenType.bool p) (λ _. failed)
          (λ _.
            Runs-if (is TokenType.char p)
              (λ c. past-Runs v _ _ p refl c (λ w y. words (sign_char i) (pass x (pass y stop))))
              (λ _.
                Runs-if (is TokenType.short p)
                  (λ c. >>=-advance TokenType.short p refl c (λ q y d.
                    Runs-map (with_int-Runs v _ _ q (sign_short i) e₁ (pass x (pass y stop)))
                      (omega arith) (λ a w u. u)))
                  (λ _.
                    Runs-if (is TokenType.int p)
                      (λ c.
                        past-Runs v _ _ p refl c (λ w y. words (sign_int i) (pass x (pass y stop))))
                      (λ _.
                        Runs-if (is TokenType.long p)
                          (λ c. >>=-advance TokenType.long p refl c (λ q y d.
                            Runs-map
                              (after_signed_long-Runs v _ _ _ q (sign_long i) e₂
                                (pass x (pass y stop)) e₃
                                (λ w z. (_, sign_long_long i, pass x (pass y (pass z stop)))))
                              (omega arith) (λ a w u. u)))
                          (λ _. returned (words (sign i) (pass x stop)) (omega arith)))))))
