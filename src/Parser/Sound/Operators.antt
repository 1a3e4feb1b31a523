-- ===== src/Parser/Sound/Operators.antt =====
-- The operators of constants, src/parser.c: how they end, and the loop of one level.
use claudec.Base.{
  ℕ, zero, suc, ◌<◌, Bool, true, false, ◌==◌, List, [], ◌∷◌, Bytes, ◌≡◌, refl, sym, ◌∙◌, arith,
  if◌then◌else◌, ==_iff,
}
use claudec.Long.{div_long, rem_long}
use claudec.Preprocessor.Operator.{traps}
use claudec.Lexer.{TokenType}
use claudec.Lexer.Codes.{token_code}
use claudec.Parser.{
  Parser, Parsed, done, error, broken, beyond, no_fuel, ◌>>=◌, Parse, is_one_of, size,
}
use claudec.Parser.Binary.{term_ops, additive_ops, shift_ops, relational_ops, equality_ops}
use claudec.Parser.Constant.{
  Apply, const_rest, const_level, const_divide, multiplicative, additive, shifted, relational,
  equality,
}
use claudec.Parser.Runs.{
  View, view, Runs, returned, failed, Parses, >>=-Runs, Runs-map, Runs-if, >>=-advance, AllOf,
  one_of, Stands,
}
use claudec.Parser.Symbols.{Infix}
use claudec.Parser.Values.{operation}
use claudec.Parser.Grammar.{Value, lift_value, binary_value}

-- A value or a message.
pub data Ends : Parsed ℕ → Type 0 where
  value : {n : ℕ} → Ends (done n)
  message : {m : Bytes} → Ends (error m)

const_divide-Ends : (f : ℕ → ℕ → ℕ) (a b : ℕ) → Ends (const_divide f a b)
const_divide-Ends f a b = by_tests (b == 0) (traps a b) _ _ _
  where
    by_tests :
        (z t : Bool) (m m' : Bytes) (n : ℕ)
        → Ends (if z then error m else if t then error m' else done n)
    by_tests true t m m' n = message
    by_tests false true m m' n = message
    by_tests false false m m' n = value

operation-Ends : (k : TokenType) (a b : ℕ) → Ends (operation k a b)
unfolding operation
operation-Ends TokenType.slash a b = const_divide-Ends div_long a b
operation-Ends TokenType.percent a b = const_divide-Ends rem_long a b
operation-Ends _ a b = value

>>=-Ends :
    {B : Type 0} {Q : B → View → Type 0} {m : ℕ} (o : Parsed ℕ) (f : ℕ → Parsed (B × Parser))
    → Ends o
    → ((v : ℕ) → o ≡ done v → Runs Q m (f v))
    → Runs Q m (o >>= f)
>>=-Ends (done v) f x k = k v refl
>>=-Ends (error m) f x k = failed
>>=-Ends broken f x k = elim x [ ]
>>=-Ends beyond f x k = elim x [ ]
>>=-Ends no_fuel f x k = elim x [ ]

-- What a level does at an operator is what the operator does.
abbrev Applies : Apply → TokenType → Type 0
Applies apply k =
    (op : TokenType) (a b : ℕ) → token_code op ≡ token_code k → apply op a b ≡ operation k a b

abbrev Operators : ℕ → Apply → List TokenType → Type 0
Operators l apply ks = AllOf (λ k. Infix (suc l) k × Stands k × Applies apply k) ks

module _ (l n : ℕ) (ks : List TokenType) (apply : Apply) (ops : Operators l apply ks)
    (operand : Parse ℕ) (reads : Parses (Value l) n operand) where
  const_rest-Runs :
      (fuel : ℕ) (v : View) (a : ℕ) (p : Parser)
      → size p < fuel
      → size p < n
      → Value (suc l) v (view p) a
      → Runs (λ m w. Value (suc l) v w m) (size p) (const_rest fuel ks apply operand a p)
  unfolding const_rest
  const_rest-Runs zero v a p f h x = absurd (omega arith)
  const_rest-Runs (suc fuel) v a p f h x =
      Runs-if (is_one_of ks p)
        (λ e.
          let (k, (i, s, applies), j) = one_of ks p ops e in
          let op = p.current.token_type in
          let same = (==_iff (token_code op) (token_code k)).0 j in
          >>=-advance k p s j (λ q y d. >>=-Runs (reads q (omega arith)) (λ r z le.
            >>=-Ends (apply op a r.0) _ (rw (applies op a r.0 same) (operation-Ends k a r.0))
              (λ m t.
                Runs-map
                  (const_rest-Runs fuel v m r.1 (omega arith) (omega arith)
                    (binary_value i x y z (sym (applies op a r.0 same) ∙ t)))
                  (omega arith) (λ c w u. u)))))
        (λ _. returned x (omega arith))

  pub const_level-Parses : Parses (Value (suc l)) n (const_level ks apply operand)
  unfolding const_level
  const_level-Parses p h = >>=-Runs (reads p h) (λ r x le.
      Runs-map
        (const_rest-Runs (suc (size r.1)) (view p) r.0 r.1 (omega arith) (omega arith)
          (lift_value x))
        le (λ a w y. y))

pub multiplicative-Operators : Operators 3 multiplicative term_ops
unfolding operation
multiplicative-Operators = (
  (Infix.times, refl, λ op a b e. rw e),
  ((Infix.over, refl, λ op a b e. rw e), ((Infix.remainder, refl, λ op a b e. rw e), tt)),
)

pub additive-Operators : Operators 4 additive additive_ops
unfolding operation
additive-Operators =
    ((Infix.plus, refl, λ op a b e. rw e), ((Infix.minus, refl, λ op a b e. rw e), tt))

pub shifted-Operators : Operators 5 shifted shift_ops
unfolding operation
shifted-Operators =
    ((Infix.left, refl, λ op a b e. rw e), ((Infix.right, refl, λ op a b e. rw e), tt))

pub relational-Operators : Operators 6 relational relational_ops
unfolding operation
relational-Operators = (
  (Infix.below, refl, λ op a b e. rw e),
  (
    (Infix.at_most, refl, λ op a b e. rw e),
    ((Infix.above, refl, λ op a b e. rw e), ((Infix.at_least, refl, λ op a b e. rw e), tt)),
  ),
)

pub equality-Operators : Operators 7 equality equality_ops
unfolding operation
equality-Operators =
    ((Infix.equal, refl, λ op a b e. rw e), ((Infix.unequal, refl, λ op a b e. rw e), tt))

-- A level with one operator, which is applied whatever the token.
pub single :
    (l : ℕ) (k : TokenType) (f : ℕ → ℕ → Parsed ℕ)
    → Infix (suc l) k
    → Stands k
    → ((a b : ℕ) → f a b ≡ operation k a b)
    → Operators l (λ op. f) (k ∷ [])
single l k f i s e = ((i, s, λ op a b h. e a b), tt)
