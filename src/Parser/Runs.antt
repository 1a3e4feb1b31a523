-- ===== src/Parser/Runs.antt =====
-- How a parser ends, where it leaves the text, and the rules for the steps of src/parser.c.
use claudec.Base.{
  ℕ, suc, ◌≤◌, ◌<◌, Bool, true, false, List, [], ◌∷◌, ◌==◌, if◌then◌else◌, Bytes, length, ◌≡◌, refl,
  subst, ap, ◌∙◌, arith, inl, inr, ==_iff, length-drop, codes, Bool-cases,
}
use claudec.Memory.{Outcome, ok, fatal, stuck, Ensures-ok}
use claudec.Lexer.{TokenType, Token, Lexer}
use claudec.Lexer.Codes.{token_code, token_eq}
use claudec.Lexer.Next.{lexer_next_token, is_eof}
use claudec.Lexer.Progress.{Passed, lexer_next_token-Passed}
use claudec.Parser.{
  Parser, Parsed, done, error, broken, beyond, ◌>>=◌, lexed, Parse, is, is_one_of, advance,
  parser_expect, restore, size,
}
use claudec.Parser.Names.{Names, names_of}

-- Where a parser stands: at a token, with the text behind it and with what the names mean.
abbrev pub View : Type 0
View = Token × (Bytes × Names)

abbrev pub view : Parser → View
view p = (p.current, (p.lexer.rest, names_of p))

-- What the names mean there.
abbrev pub names : View → Names
names v = v.1.1

-- The scanner passes a token of the type.
pub data Next (k : TokenType) : View → View → Type 0 where
  next :
      {t t' : Token} {e : Names} (l l' : Lexer)
      → token_eq t.token_type k ≡ true
      → lexer_next_token l ≡ ok (t', l')
      → Next k (t, (l.rest, e)) (t', (l'.rest, e))

-- The run ends: with a result that has the property and at most n left to read, with a message, in a token
-- that is too long for the buffer of the lexer, or at the body of a struct or a union.
pub data Runs {A : Type 0} (P : A → View → Type 0) (n : ℕ) : Parsed (A × Parser) → Type 0 where
  returned : {a : A} {q : Parser} → P a (view q) → size q ≤ n → Runs P n (done (a, q))
  failed : {m : Bytes} → Runs P n (error m)
  broke : Runs P n broken
  outside : Runs P n beyond

pub data Advances (k : TokenType) (p : Parser) : Parsed Parser → Type 0 where
  moved : {q : Parser} → Next k (view p) (view q) → size q < size p → Advances k p (done q)
  failed : {m : Bytes} → Advances k p (error m)
  broke : Advances k p broken

-- The phrases of a kind that begin at a parser.
abbrev pub Reads : {A : Type 0} → (View → View → A → Type 0) → Parser → Parsed (A × Parser) → Type 0
Reads D p o = Runs (λ a w. D (view p) w a) (size p) o

abbrev pub Parses : {A : Type 0} → (View → View → A → Type 0) → ℕ → Parse A → Type 0
Parses D n f = (p : Parser) → size p < n → Reads D p (f p)

pub >>=-Runs :
    {A B : Type 0} {P : A → View → Type 0} {Q : B → View → Type 0} {n m : ℕ}
    {o : Parsed (A × Parser)} {f : (A × Parser) → Parsed (B × Parser)}
    → Runs P n o
    → ((r : A × Parser) → P r.0 (view r.1) → size r.1 ≤ n → Runs Q m (f r))
    → Runs Q m (o >>= f)
>>=-Runs (returned {a} {q} x h) k = k (a, q) x h
>>=-Runs failed k = failed
>>=-Runs broke k = broke
>>=-Runs outside k = outside

pub Runs-map :
    {A : Type 0} {P Q : A → View → Type 0} {n m : ℕ} {o : Parsed (A × Parser)}
    → Runs P n o
    → n ≤ m
    → ((a : A) (w : View) → P a w → Q a w)
    → Runs Q m o
Runs-map (returned {a} {q} x h) le f = returned (f a (view q) x) (omega arith)
Runs-map failed le f = failed
Runs-map broke le f = broke
Runs-map outside le f = outside

pub Runs-if :
    {A : Type 0} {P : A → View → Type 0} {n : ℕ} (b : Bool) {x y : Parsed (A × Parser)}
    → (b ≡ true → Runs P n x)
    → (b ≡ false → Runs P n y)
    → Runs P n (if b then x else y)
Runs-if true h k = h refl
Runs-if false h k = k refl

-- A token that is not the end of the file.
abbrev pub Stands : TokenType → Type 0
Stands k = (token_code k == 0) ≡ false

eof-code : (k : TokenType) → is_eof k ≡ (token_code k == 0)
eof-code TokenType.eof = refl
eof-code _ = refl

pub size_before :
    (k : TokenType) (p : Parser) → Stands k → is k p ≡ true → size p ≡ suc (length p.lexer.rest)
unfolding size
size_before k p s h =
    let same = (==_iff (token_code p.current.token_type) (token_code k)).0 h in
    rw (eof-code p.current.token_type, same, s)

size_of_rest :
    (p : Parser) (t : Token) (l : Lexer)
    → length l.rest < length p.lexer.rest
    → size (record p { lexer = l; current = t }) ≤ length p.lexer.rest
unfolding size
size_of_rest p t l h = ground arith

size_after :
    (p : Parser) (t : Token) (l : Lexer)
    → Passed p.lexer (t, l)
    → size (record p { lexer = l; current = t }) ≤ length p.lexer.rest
unfolding size
size_after p t l (inl (e, i)) = rw e (omega arith)
size_after p t l (inr (n, h, m)) =
    let i = m.inside in
    let e = ap length m.rest_is ∙ length-drop n p.lexer.rest in size_of_rest p t l (omega arith)

pub advance-Advances :
    (k : TokenType) (p : Parser) → Stands k → is k p ≡ true → Advances k p (advance p)
unfolding advance
advance-Advances k p s h = by_token (lexer_next_token p.lexer) refl
  where
    by_token :
        (o : Outcome (Token × Lexer))
        → lexer_next_token p.lexer ≡ o
        → Advances k p (lexed o >>= λ (t, l). done (record p { lexer = l; current = t }))
    by_token (ok (t, l)) e =
        let fewer = size_after p t l (Ensures-ok (lexer_next_token-Passed p.lexer) e) in
        let before = size_before k p s h in moved (next p.lexer l h e) (omega arith)
    by_token (fatal m) e = failed
    by_token stuck e = broke

-- A step over a token that was looked at.
pub >>=-advance :
    {B : Type 0} {Q : B → View → Type 0} {m : ℕ} {f : Parser → Parsed (B × Parser)} (k : TokenType)
    (p : Parser)
    → Stands k
    → is k p ≡ true
    → ((q : Parser) → Next k (view p) (view q) → size q < size p → Runs Q m (f q))
    → Runs Q m (advance p >>= f)
>>=-advance {B} {Q} {m} {f} k p s h c = by_end (advance-Advances k p s h)
  where
    by_end : {o : Parsed Parser} → Advances k p o → Runs Q m (o >>= f)
    by_end (moved {q} n d) = c q n d
    by_end failed = failed
    by_end broke = broke

-- A token that has to stand here.
pub >>=-expect :
    {B : Type 0} {Q : B → View → Type 0} {m : ℕ} (k : TokenType) (p : Parser)
    → Stands k
    → (f : (Token × Parser) → Parsed (B × Parser))
    → ((q : Parser) → Next k (view p) (view q) → size q < size p → Runs Q m (f (p.current, q)))
    → Runs Q m (parser_expect k p >>= f)
unfolding parser_expect
>>=-expect {B} {Q} {m} k p s f c = by_test (is k p) refl
  where
    by_test :
        (b : Bool)
        → is k p ≡ b
        → Runs Q m (
            (if b
              then (advance p >>= λ p'. done (p.current, p'))
              else error (codes "error: expected %s, got %s ('%s')"))
            >>= f)
    by_test true e = by_end (advance-Advances k p s e)
      where
        by_end :
            {o : Parsed Parser}
            → Advances k p o
            → Runs Q m ((o >>= λ p'. done (p.current, p')) >>= f)
        by_end (moved {q} n d) = c q n d
        by_end failed = failed
        by_end broke = broke
    by_test false e = failed

-- A property of every token of a list.
abbrev pub AllOf : (TokenType → Type 0) → List TokenType → Type 0
AllOf P [] = Unit {0}
AllOf P (k ∷ ks) = P k × AllOf P ks

-- One of the tokens stands here, and has the property.
pub one_of :
    {P : TokenType → Type 0} (ks : List TokenType) (p : Parser)
    → AllOf P ks
    → is_one_of ks p ≡ true
    → (k : TokenType) × P k × (is k p ≡ true)
one_of [] p all h = absurd (cc)
one_of (k ∷ ks) p (x, all) h = elim (Bool-cases (is k p)) [
  | inl e ↦ (k, x, e)
  | inr e ↦ one_of ks p all (rw e at h)
]

pub Next-names : {k : TokenType} {v w : View} → Next k v w → names w ≡ names v
Next-names (next l l' e h) = refl

-- From where the text was left for a lookahead that declared nothing.
pub restored-Runs :
    {A : Type 0} (D : View → View → A → Type 0) {m : ℕ} (p q : Parser) {o : Parsed (A × Parser)}
    → names_of q ≡ names_of p
    → Runs (λ a w. D (view (restore p q)) w a) m o
    → Runs (λ a w. D (view p) w a) m o
unfolding restore
restored-Runs D {m} p q {o} e x =
    subst (λ ns. Runs (λ a w. D (p.current, (p.lexer.rest, ns)) w a) m o) e x
