-- ===== src/Preprocessor/Levels.antt =====
-- The operators of each level, and the loop that reads them from left to right.

use claudec.Base.{
  ℕ, ◌≤◌, Bool, true, false, not, ◌&&◌, Option, none, some, [], ◌∷◌, ◌++◌, ◌==◌, if◌then◌else◌,
  Bytes, length, drop, ◌≡◌, refl, arith, ==_iff, &&-eq-true,
}
use claudec.Memory.{Outcome}
use claudec.Lexer.{char_at}
use claudec.Preprocessor.Operator.{
  Operator, multiplicative_operator, additive_operator, shift_operator, relational_operator,
  equality_operator, and_operator, xor_operator, or_operator, logical_and_operator,
  logical_or_operator,
}
use claudec.Preprocessor.Grammar.{
  Infix, times, over, remainder, plus, minus, left, right, at_most, at_least, below, above, equal,
  unequal, both_bits, one_bit, any_bit, both, either,
}
use claudec.Preprocessor.Atoms.{front}

-- No operator of the level, or one that the text begins with.
pub data OperatorAt (l : ℕ) (cs : Bytes) : Option Operator → Type 0 where
  none_here : OperatorAt l cs none
  here :
      {o : Operator}
      → Infix l o.symbol o.apply
      → cs ≡ o.symbol ++ drop (length o.symbol) cs
      → 1 ≤ length o.symbol
      → OperatorAt l cs (some o)

front_two :
    (cs : Bytes) (k j : ℕ)
    → (char_at cs 0 == k) ≡ true
    → (char_at cs 1 == j) ≡ true
    → 1 ≤ k
    → 1 ≤ j
    → cs ≡ k ∷ j ∷ drop 2 cs
front_two [] k j h h' i i' = absurd (ground arith)
front_two (c ∷ cs) k j h h' i i' = cc (front cs j h' i', (==_iff c k).0 h)

module _ (l : ℕ) (cs : Bytes) where
  if-At :
      (b : Bool) {x y : Option Operator}
      → (b ≡ true → OperatorAt l cs x)
      → (b ≡ false → OperatorAt l cs y)
      → OperatorAt l cs (if b then x else y)
  if-At true h k = h refl
  if-At false h k = k refl

  -- An operator of one character, and one of two, with the tests of the source.
  one :
      (k : ℕ) {f : ℕ → ℕ → Outcome ℕ}
      → Infix l (k ∷ []) f
      → 1 ≤ k
      → (char_at cs 0 == k) ≡ true
      → OperatorAt l cs (some (record { symbol = k ∷ []; apply = f }))
  one k i h e = here i (front cs k e h) (omega arith)

  alone :
      (k j : ℕ) {f : ℕ → ℕ → Outcome ℕ}
      → Infix l (k ∷ []) f
      → 1 ≤ k
      → ((char_at cs 0 == k) && not (char_at cs 1 == j)) ≡ true
      → OperatorAt l cs (some (record { symbol = k ∷ []; apply = f }))
  alone k j i h e = one k i h (&&-eq-true _ _ e).0

  two :
      (k j : ℕ) {f : ℕ → ℕ → Outcome ℕ}
      → Infix l (k ∷ j ∷ []) f
      → 1 ≤ k
      → 1 ≤ j
      → ((char_at cs 0 == k) && (char_at cs 1 == j)) ≡ true
      → OperatorAt l cs (some (record { symbol = k ∷ j ∷ []; apply = f }))
  two k j i h h' e =
      let both = &&-eq-true _ _ e in here i (front_two cs k j both.0 both.1 h h') (omega arith)

pub multiplicative-At : (cs : Bytes) → OperatorAt 2 cs (multiplicative_operator cs)
unfolding multiplicative_operator
multiplicative-At cs = if-At 2 cs (char_at cs 0 == b'*') (one 2 cs b'*' times (omega arith)) (λ _.
    if-At 2 cs (char_at cs 0 == b'/') (one 2 cs b'/' over (omega arith)) (λ _.
      if-At 2 cs (char_at cs 0 == b'%') (one 2 cs b'%' remainder (omega arith)) (λ _. none_here)))

pub additive-At : (cs : Bytes) → OperatorAt 3 cs (additive_operator cs)
unfolding additive_operator
additive-At cs =
    if-At 3 cs (char_at cs 0 == b'+') (one 3 cs b'+' plus (omega arith))
      (λ _. if-At 3 cs (char_at cs 0 == b'-') (one 3 cs b'-' minus (omega arith)) (λ _. none_here))

pub shift-At : (cs : Bytes) → OperatorAt 4 cs (shift_operator cs)
unfolding shift_operator
shift-At cs =
    if-At 4 cs ((char_at cs 0 == b'<') && (char_at cs 1 == b'<'))
      (two 4 cs b'<' b'<' left (omega arith) (omega arith))
      (λ _.
        if-At 4 cs ((char_at cs 0 == b'>') && (char_at cs 1 == b'>'))
          (two 4 cs b'>' b'>' right (omega arith) (omega arith)) (λ _. none_here))

pub relational-At : (cs : Bytes) → OperatorAt 5 cs (relational_operator cs)
unfolding relational_operator
relational-At cs =
    if-At 5 cs ((char_at cs 0 == b'<') && (char_at cs 1 == b'='))
      (two 5 cs b'<' b'=' at_most (omega arith) (omega arith))
      (λ _.
        if-At 5 cs ((char_at cs 0 == b'>') && (char_at cs 1 == b'='))
          (two 5 cs b'>' b'=' at_least (omega arith) (omega arith))
          (λ _.
            if-At 5 cs ((char_at cs 0 == b'<') && not (char_at cs 1 == b'<'))
              (alone 5 cs b'<' b'<' below (omega arith))
              (λ _.
                if-At 5 cs ((char_at cs 0 == b'>') && not (char_at cs 1 == b'>'))
                  (alone 5 cs b'>' b'>' above (omega arith)) (λ _. none_here))))

pub equality-At : (cs : Bytes) → OperatorAt 6 cs (equality_operator cs)
unfolding equality_operator
equality-At cs =
    if-At 6 cs ((char_at cs 0 == b'=') && (char_at cs 1 == b'='))
      (two 6 cs b'=' b'=' equal (omega arith) (omega arith))
      (λ _.
        if-At 6 cs ((char_at cs 0 == b'!') && (char_at cs 1 == b'='))
          (two 6 cs b'!' b'=' unequal (omega arith) (omega arith)) (λ _. none_here))

pub and-At : (cs : Bytes) → OperatorAt 7 cs (and_operator cs)
unfolding and_operator
and-At cs =
    if-At 7 cs ((char_at cs 0 == b'&') && not (char_at cs 1 == b'&'))
      (alone 7 cs b'&' b'&' both_bits (omega arith)) (λ _. none_here)

pub xor-At : (cs : Bytes) → OperatorAt 8 cs (xor_operator cs)
unfolding xor_operator
xor-At cs = if-At 8 cs (char_at cs 0 == b'^') (one 8 cs b'^' one_bit (omega arith)) (λ _. none_here)

pub or-At : (cs : Bytes) → OperatorAt 9 cs (or_operator cs)
unfolding or_operator
or-At cs =
    if-At 9 cs ((char_at cs 0 == b'|') && not (char_at cs 1 == b'|'))
      (alone 9 cs b'|' b'|' any_bit (omega arith)) (λ _. none_here)

pub logical_and-At : (cs : Bytes) → OperatorAt 10 cs (logical_and_operator cs)
unfolding logical_and_operator
logical_and-At cs =
    if-At 10 cs ((char_at cs 0 == b'&') && (char_at cs 1 == b'&'))
      (two 10 cs b'&' b'&' both (omega arith) (omega arith)) (λ _. none_here)

pub logical_or-At : (cs : Bytes) → OperatorAt 11 cs (logical_or_operator cs)
unfolding logical_or_operator
logical_or-At cs =
    if-At 11 cs ((char_at cs 0 == b'|') && (char_at cs 1 == b'|'))
      (two 11 cs b'|' b'|' either (omega arith) (omega arith)) (λ _. none_here)
