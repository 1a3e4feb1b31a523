-- ===== src/Preprocessor/Condition.antt =====
-- The evaluator of the conditions of #if and #elif, src/preprocessor.c. The text is the list of its
-- bytes from the position on, and a result comes with the text behind it. The buffers that are freed
-- before an exit are left out.
use claudec.Base.{
  ℕ, zero, suc, ◌+◌, ◌*◌, ◌%◌, Bool, true, false, not, ◌&&◌, ◌||◌, Option, none, some, List, [],
  ◌∷◌, ◌==◌, if◌then◌else◌, Bytes, codes, str_eq, length, take, drop,
}
use claudec.Long.{neg_long, long_mod}
use claudec.Memory.{Outcome, ok, fatal, stuck, ◌>>=◌}
use claudec.Lexer.{char_at, run}
use claudec.Lexer.Space.{isdigit}
use claudec.Lexer.Escape.{isxdigit, hex_digit}
use claudec.Lexer.Number.{is_suffix}
use claudec.Lexer.Next.{is_word_start, is_word_char}
use claudec.Preprocessor.Macros.{MacroDef, macro_find}
use claudec.Preprocessor.Operator.{
  Operator, multiplicative_operator, additive_operator, shift_operator, relational_operator,
  equality_operator, and_operator, xor_operator, or_operator, logical_and_operator,
  logical_or_operator, is_unary, apply_unary,
}

abbrev pub is_blank : ℕ → Bool
is_blank c = (c == b' ') || (c == b'\t')

-- `while (s[*in] == ' ' || s[*in] == '\t') (*in)++;`
unfoldable pub skip_blanks : Bytes → Bytes
skip_blanks [] = []
skip_blanks (c ∷ cs) = if is_blank c then skip_blanks cs else c ∷ cs

abbrev pub Evaluator : Type 0
Evaluator = Bytes → Outcome (ℕ × Bytes)

abbrev pub is_defined : Option MacroDef → ℕ
is_defined none = 0
is_defined (some m) = 1

-- `value = value * base + digit` on `long`, for the digits that are passed over.
unfoldable pub number_value : ℕ → ℕ → Bytes → ℕ
number_value base value [] = value
number_value base value (d ∷ ds) = number_value base ((value * base + hex_digit d) % long_mod) ds

abbrev pub is_hex_prefix : Bytes → Bool
is_hex_prefix cs = (char_at cs 0 == b'0') && ((char_at cs 1 == b'x') || (char_at cs 1 == b'X'))

abbrev pub after_run : (ℕ → Bool) → Bytes → Bytes
after_run t cs = drop (length (run t (length cs) cs)) cs

abbrev pub name_at : Bytes → Bytes
name_at cs = run is_word_char (length cs) cs

-- An integer literal with its suffix.
unfoldable pub cond_number : Bytes → ℕ × Bytes
cond_number cs =
    let hex = drop 2 cs in
    if is_hex_prefix cs
    then (
      number_value 16 0 (run isxdigit (length hex) hex),
      after_run is_suffix (after_run isxdigit hex),
    )
    else (
      number_value 10 0 (run isdigit (length cs) cs),
      after_run is_suffix (after_run isdigit cs),
    )

abbrev pub begins_defined : Bytes → Bool
begins_defined cs = str_eq (take 7 cs) (codes "defined") && not (is_word_char (char_at cs 7))

abbrev pub closed : ℕ → Bytes → Bytes → Outcome (ℕ × Bytes)
closed value msg cs = if char_at cs 0 == b')' then ok (value, drop 1 cs) else fatal msg

-- After `defined` and its blanks.
unfoldable pub defined_operand : List MacroDef → Bytes → Outcome (ℕ × Bytes)
defined_operand macros cs =
    let inside = skip_blanks (drop 1 cs) in
    if char_at cs 0 == b'('
    then closed (is_defined (macro_find macros (name_at inside)))
        (codes "error: expected ')' in defined(...)") (skip_blanks (after_run is_word_char inside))
    else if is_word_start (char_at cs 0)
    then ok (is_defined (macro_find macros (name_at cs)), after_run is_word_char cs)
    else fatal (codes "error: expected identifier after defined")

-- The digits of a replacement, after its sign.
abbrev pub replacement_digits : Bool → Bytes → Outcome ℕ
replacement_digits neg repl =
    let value = number_value 10 0 (run isdigit (length repl) repl) in
    if isdigit (char_at repl 0)
    then ok (if neg then neg_long value else value)
    else fatal (codes "error: macro in #if does not expand to an integer")

unfoldable pub replacement_value : Bytes → Outcome ℕ
replacement_value text =
    let repl = skip_blanks text in
    if char_at repl 0 == b'-'
    then replacement_digits true (skip_blanks (drop 1 repl))
    else replacement_digits false repl

abbrev pub object_value : Option (List Bytes) → Bytes → Outcome ℕ
object_value (some params) text = ok 0
object_value none text = replacement_value text

unfoldable pub macro_value : Option MacroDef → Outcome ℕ
macro_value none = ok 0
macro_value (some m) = object_value m.params m.replacement

-- From a character that is not blank. The evaluator is for what stands in parentheses.
unfoldable pub primary_at : List MacroDef → Evaluator → Bytes → Outcome (ℕ × Bytes)
primary_at macros inner cs =
    if begins_defined cs
    then defined_operand macros (skip_blanks (drop 7 cs))
    else if isdigit (char_at cs 0)
    then ok (cond_number cs)
    else if is_word_start (char_at cs 0)
    then (do v ← macro_value (macro_find macros (name_at cs)); ok (v, after_run is_word_char cs))
    else if char_at cs 0 == b'('
    then (do
      (v, r) ← inner (skip_blanks (drop 1 cs))
      closed v (codes "error: expected ')' in preprocessor expression") (skip_blanks r))
    else fatal (codes "error: #if requires an integer constant or defined(...)")

unfoldable pub eval_cond_primary : List MacroDef → Evaluator → Evaluator
eval_cond_primary macros inner cs = primary_at macros inner (skip_blanks cs)

-- The operators before an operand, the blanks after each passed over, and the text behind them.
unfoldable pub unary_run : Bool → Bytes → Bytes × Bytes
unary_run after [] = ([], [])
unary_run after (c ∷ cs) =
    let (ops, r) = unary_run true cs in
    if is_unary c then (c ∷ ops, r) else if after && is_blank c then (ops, r) else ([], c ∷ cs)

-- From the last to the first.
unfoldable pub apply_run : Bytes → ℕ → ℕ
apply_run [] value = value
apply_run (c ∷ ops) value = apply_unary c (apply_run ops value)

unfoldable pub eval_cond_unary : List MacroDef → Evaluator → Evaluator
eval_cond_unary macros inner cs = do
  let (ops, s) = unary_run false cs
  (v, r) ← eval_cond_primary macros inner s
  ok (apply_run ops v, r)

-- A round of the loop of a level, at a character that is not blank, with what is done after it.
unfoldable pub chain_round :
    Evaluator → (ℕ → Evaluator) → ℕ → Bytes → Option Operator → Outcome (ℕ × Bytes)
chain_round operand next value cs none = ok (value, cs)
chain_round operand next value cs (some o) = do
  (rhs, r) ← operand (skip_blanks (drop (length o.symbol) cs))
  v ← o.apply value rhs
  next v r

-- The loop, with fuel: each round passes an operator.
unfoldable pub chain : ℕ → (Bytes → Option Operator) → Evaluator → ℕ → Evaluator
chain zero op operand value cs = stuck
chain (suc fuel) op operand value cs =
    chain_round operand (λ v r. chain fuel op operand v r) value (skip_blanks cs)
      (op (skip_blanks cs))

-- `long value = operand; for (;;) ...`
unfoldable pub left_assoc : (Bytes → Option Operator) → Evaluator → Evaluator
left_assoc op operand cs = do (v, r) ← operand cs; chain (suc (length r)) op operand v r

module _ (macros : List MacroDef) (inner : Evaluator) where
  unfoldable pub eval_cond_multiplicative : Evaluator
  eval_cond_multiplicative cs = left_assoc multiplicative_operator (eval_cond_unary macros inner) cs

  unfoldable pub eval_cond_additive : Evaluator
  eval_cond_additive cs = left_assoc additive_operator eval_cond_multiplicative cs

  unfoldable pub eval_cond_shift : Evaluator
  eval_cond_shift cs = left_assoc shift_operator eval_cond_additive cs

  unfoldable pub eval_cond_relational : Evaluator
  eval_cond_relational cs = left_assoc relational_operator eval_cond_shift cs

  unfoldable pub eval_cond_equality : Evaluator
  eval_cond_equality cs = left_assoc equality_operator eval_cond_relational cs

  unfoldable pub eval_cond_bitwise_and : Evaluator
  eval_cond_bitwise_and cs = left_assoc and_operator eval_cond_equality cs

  unfoldable pub eval_cond_bitwise_xor : Evaluator
  eval_cond_bitwise_xor cs = left_assoc xor_operator eval_cond_bitwise_and cs

  unfoldable pub eval_cond_bitwise_or : Evaluator
  eval_cond_bitwise_or cs = left_assoc or_operator eval_cond_bitwise_xor cs

  unfoldable pub eval_cond_logical_and : Evaluator
  eval_cond_logical_and cs = left_assoc logical_and_operator eval_cond_bitwise_or cs

  unfoldable pub eval_cond_logical_or : Evaluator
  eval_cond_logical_or cs = left_assoc logical_or_operator eval_cond_logical_and cs

-- After the second operand.
unfoldable pub ternary_else : Evaluator → ℕ → ℕ → Bytes → Outcome (ℕ × Bytes)
ternary_else branch cond then_val cs =
    if char_at cs 0 == b':'
    then (do
      (else_val, r) ← branch (skip_blanks (drop 1 cs))
      ok (if cond == 0 then else_val else then_val, r))
    else fatal (codes "error: expected ':' in ternary preprocessor expression")

-- After the condition: both branches are read, and one value is taken.
unfoldable pub ternary_rest : Evaluator → ℕ → Bytes → Outcome (ℕ × Bytes)
ternary_rest branch cond cs =
    if char_at cs 0 == b'?'
    then (do
      (then_val, r) ← branch (skip_blanks (drop 1 cs))
      ternary_else branch cond then_val (skip_blanks r))
    else ok (cond, cs)

-- With fuel: a condition inside of a condition is shorter.
unfoldable pub eval_cond_ternary : ℕ → List MacroDef → Evaluator
eval_cond_ternary zero macros cs = stuck
eval_cond_ternary (suc fuel) macros cs = do
  (v, r) ← eval_cond_logical_or macros (λ s. eval_cond_ternary fuel macros s) cs
  ternary_rest (λ s. eval_cond_ternary fuel macros s) v (skip_blanks r)

unfoldable pub eval_cond_expr : List MacroDef → Evaluator
eval_cond_expr macros cs = eval_cond_ternary (suc (length cs)) macros cs
