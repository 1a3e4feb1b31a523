-- ===== src/Preprocessor/Grammar.antt =====
-- What the conditions of #if and #elif mean: the grammar of C for them, with the value of each phrase.
use claudec.Base.{
  ℕ, suc, Bool, true, not, ◌&&◌, ◌||◌, List, [], ◌∷◌, ◌++◌, ◌==◌, if◌then◌else◌, Bytes, codes, ◌≡◌,
  ◌≤◌, length, bit_and, bit_or, bit_xor,
}
use claudec.Long.{add_long, sub_long, mul_long, shl_long, shr_long, lt_long}
use claudec.Memory.{Outcome, ok}
use claudec.Preprocessor.Operator.{total, test, divide, modulo, is_true, is_unary, apply_unary}
use claudec.Lexer.Space.{isdigit}
use claudec.Lexer.Escape.{isxdigit}
use claudec.Lexer.Number.{is_suffix}
use claudec.Lexer.{char_at}
use claudec.Lexer.Next.{is_word_start, is_word_char}
use claudec.Preprocessor.Macros.{MacroDef, macro_find}
use claudec.Preprocessor.Condition.{is_blank, is_hex_prefix, number_value, is_defined, macro_value}

-- The operators with two operands, by their level. A higher level binds less.
pub data Infix : ℕ → Bytes → (ℕ → ℕ → Outcome ℕ) → Type 0 where
  times : Infix 2 (codes "*") (total mul_long)
  over : Infix 2 (codes "/") divide
  remainder : Infix 2 (codes "%") modulo
  plus : Infix 3 (codes "+") (total add_long)
  minus : Infix 3 (codes "-") (total sub_long)
  left : Infix 4 (codes "<<") (total shl_long)
  right : Infix 4 (codes ">>") (total shr_long)
  at_most : Infix 5 (codes "<=") (test (λ a b. not (lt_long b a)))
  at_least : Infix 5 (codes ">=") (test (λ a b. not (lt_long a b)))
  below : Infix 5 (codes "<") (test lt_long)
  above : Infix 5 (codes ">") (test (λ a b. lt_long b a))
  equal : Infix 6 (codes "==") (test (λ a b. a == b))
  unequal : Infix 6 (codes "!=") (test (λ a b. not (a == b)))
  both_bits : Infix 7 (codes "&") (total bit_and)
  one_bit : Infix 8 (codes "^") (total bit_xor)
  any_bit : Infix 9 (codes "|") (total bit_or)
  both : Infix 10 (codes "&&") (test (λ a b. is_true a && is_true b))
  either : Infix 11 (codes "||") (test (λ a b. is_true a || is_true b))

-- Phrases of the grammar with the text and the value, over the phrases that have no operator. Level 0
-- are those and the parentheses, level 1 the operators with one operand, and level 12 is the whole.
pub data Phrase (Atom : Bytes → ℕ → Type 0) : ℕ → Bytes → ℕ → Type 0 where
  atom : {t : Bytes} {v : ℕ} → Atom t v → Phrase Atom 0 t v
  parens : {t : Bytes} {v : ℕ} → Phrase Atom 12 t v → Phrase Atom 0 (b'(' ∷ (t ++ b')' ∷ [])) v
  blank_before :
      {l c v : ℕ} {t : Bytes} → is_blank c ≡ true → Phrase Atom l t v → Phrase Atom l (c ∷ t) v
  blank_after :
      (c : ℕ) {l v : ℕ} {t : Bytes}
      → is_blank c ≡ true
      → Phrase Atom l t v
      → Phrase Atom l (t ++ c ∷ []) v
  lift : {l v : ℕ} {t : Bytes} → Phrase Atom l t v → Phrase Atom (suc l) t v
  unary_of :
      (c : ℕ) {v : ℕ} {t : Bytes}
      → is_unary c ≡ true
      → Phrase Atom 1 t v
      → Phrase Atom 1 (c ∷ t) (apply_unary c v)
  binary_of :
      {l a b v : ℕ} {f : ℕ → ℕ → Outcome ℕ} {t s u : Bytes}
      → Infix (suc l) s f
      → Phrase Atom (suc l) t a
      → Phrase Atom l u b
      → f a b ≡ ok v
      → Phrase Atom (suc l) (t ++ (s ++ u)) v
  choice :
      (a b c : ℕ) {t u w : Bytes}
      → Phrase Atom 11 t c
      → Phrase Atom 12 u a
      → Phrase Atom 12 w b
      → Phrase Atom 12 (t ++ (b'?' ∷ (u ++ (b':' ∷ w)))) (if c == 0 then b else a)

pub data All (t : ℕ → Bool) : Bytes → Type 0 where
  nothing : All t []
  one_more : {c : ℕ} {cs : Bytes} → t c ≡ true → All t cs → All t (c ∷ cs)

-- The phrases without an operator: numbers with a suffix, names and the tests of names.
pub data Atom (macros : List MacroDef) : Bytes → ℕ → Type 0 where
  decimal :
      {ds suffix : Bytes}
      → All isdigit ds
      → 1 ≤ length ds
      → All is_suffix suffix
      → Atom macros (ds ++ suffix) (number_value 10 0 ds)
  hexadecimal :
      (zero_x : Bytes) {ds suffix : Bytes}
      → is_hex_prefix zero_x ≡ true
      → length zero_x ≡ 2
      → All isxdigit ds
      → All is_suffix suffix
      → Atom macros (zero_x ++ (ds ++ suffix)) (number_value 16 0 ds)
  name :
      {w : Bytes} {v : ℕ}
      → is_word_start (char_at w 0) ≡ true
      → All is_word_char w
      → macro_value (macro_find macros w) ≡ ok v
      → Atom macros w v
  defined_name :
      {w b : Bytes}
      → All is_blank b
      → All is_word_char w
      → Atom macros (codes "defined" ++ (b ++ w)) (is_defined (macro_find macros w))
  defined_in_parens :
      {w b b' b'' : Bytes}
      → All is_blank b
      → All is_blank b'
      → All is_word_char w
      → All is_blank b''
      → Atom macros
          (codes "defined" ++ (b ++ (b'(' ∷ (b' ++ (w ++ (b'' ++ b')' ∷ []))))))
          (is_defined (macro_find macros w))
