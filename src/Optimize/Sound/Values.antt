-- ===== src/Optimize/Sound/Values.antt =====
-- Facts about the meaning of expressions that the proofs about the blocks share.
use claudec.Base.{
  >>=-eq-some, ◌>>=◌, ℕ, Bool, false, Option, none, some, ◌≡◌, refl, ap, arith, ◌==◌, if◌then◌else◌,
  Bool-cases, inl, inr, Bytes, codes,
}
use claudec.CType.{TypeKind, bool, char}
use claudec.Ast.{
  int_literal, var_ref, unary_op, binary_op, conditional_expr, cast, Attrs, Ast, node, nil, cons,
}
use claudec.Long.{IsLong, of_bool}
use claudec.Long.Bits.{bit_and-lt, bit_or-lt, bit_xor-lt}
use claudec.Long.Laws.{
  add_long-IsLong, sub_long-IsLong, mul_long-IsLong, div_long-IsLong, rem_long-IsLong,
  shl_long-IsLong, shr_long-IsLong, neg_long-IsLong, not_long-IsLong,
}
use claudec.Long.Text.{
  skip_space, read_prefixed, read_digits, strtol, strtol-print_long, strtol-IsLong,
}
use claudec.Optimize.{
  BinOp, add, sub, mul, div, rem, and_bits, or_bits, xor_bits, shl, shr, ne, and_then, or_else,
  UnOp, minus, plus, logical_not, complement, binary_op_of, unary_op_of, new_literal, literal_text,
  one_literal, text, is_value,
}
use claudec.Optimize.Eval.{
  Env, binary_value, binary_meaning, unary_value, truth, convert, signed_only, variable,
  right_operand, eval,
}

-- Every variable that has a value has a `long`.
abbrev pub EnvFits : Env → Type 0
EnvFits env = (x : Bytes) (v : ℕ) → env x ≡ some v → IsLong v

-- Wherever the first expression has a meaning, the second has the same.
abbrev pub Refines : Env → Ast → Ast → Type 0
Refines env e e' = (v : ℕ) → eval env e ≡ some v → eval env e' ≡ some v

pub signed_only-eq-some :
    (a : Attrs) (o : Option ℕ) {v : ℕ}
    → signed_only a o ≡ some v
    → (a.is_unsigned ≡ false) × (o ≡ some v)
signed_only-eq-some a o h = ground arith

-- The meaning of a literal that a block makes.
pub eval-new_literal :
    (env : Env) (v : ℕ) (k : TypeKind) → IsLong v → eval env (new_literal v k false) ≡ some v
unfolding eval
eval-new_literal env v k h = ap some (strtol-print_long v h)

pub eval-zero_text :
    (env : Env) (k : TypeKind) → eval env (literal_text (codes "0") k false) ≡ some 0
unfolding eval strtol skip_space read_prefixed read_digits
eval-zero_text env k = refl

pub eval-one_literal : (env : Env) → eval env one_literal ≡ some 1
unfolding eval strtol skip_space read_prefixed read_digits
eval-one_literal env = refl

module _ (env : Env) (n : Attrs) where
  pub binary_eval :
      (l r : Ast) (v : ℕ)
      → eval env (node binary_op n (cons l (cons r nil))) ≡ some v
      → (n.is_unsigned ≡ false)
        × (binary_meaning
              (binary_op_of n.value)
              (eval env l)
              (right_operand (binary_op_of n.value) r (eval env r))
            ≡ some v)
  unfolding eval
  binary_eval l r v h = signed_only-eq-some n _ h

  pub unary_eval :
      (x : Ast) (v : ℕ)
      → eval env (node unary_op n (cons x nil)) ≡ some v
      → (eval env x >>= unary_value (unary_op_of n.value)) ≡ some v
  unfolding eval
  unary_eval x v h = (signed_only-eq-some n _ h).1

  pub conditional_eval :
      (c t f : Ast) (v : ℕ)
      → eval env (node conditional_expr n (cons c (cons t (cons f nil)))) ≡ some v
      → (eval env c >>= λ b. if b == 0 then eval env f else eval env t) ≡ some v
  unfolding eval
  conditional_eval c t f v h = (signed_only-eq-some n _ h).1

  pub cast_eval :
      (x : Ast) (v : ℕ)
      → eval env (node cast n (cons x nil)) ≡ some v
      → (n.is_unsigned ≡ false) × ((eval env x >>= convert n.decl_type) ≡ some v)
  unfolding eval
  cast_eval x v h = signed_only-eq-some n _ h

of_bool-IsLong : (b : Bool) → IsLong (of_bool b)
of_bool-IsLong b = ground arith

pub binary_value-IsLong :
    (op : BinOp) (a b : ℕ) {v : ℕ} → IsLong a → IsLong b → binary_value op a b ≡ some v → IsLong v
unfolding binary_value
binary_value-IsLong add a b p q h = ground (arith, add_long-IsLong a b)
binary_value-IsLong sub a b p q h = ground (arith, sub_long-IsLong a b)
binary_value-IsLong mul a b p q h = ground (arith, mul_long-IsLong a b)
binary_value-IsLong div a b p q h = ground (arith, div_long-IsLong a b)
binary_value-IsLong rem a b p q h = ground (arith, rem_long-IsLong a b)
binary_value-IsLong and_bits a b p q h = ground (arith, bit_and-lt 64 a b)
binary_value-IsLong or_bits a b p q h = ground (arith, bit_or-lt 64 a b)
binary_value-IsLong xor_bits a b p q h = ground (arith, bit_xor-lt 64 a b)
binary_value-IsLong shl a b p q h = ground (arith, shl_long-IsLong a b)
binary_value-IsLong shr a b p q h = ground (arith, shr_long-IsLong a b)
binary_value-IsLong _ a b p q h = ground arith

abbrev pub AllLong : Option ℕ → Type 0
AllLong o = (v : ℕ) → o ≡ some v → IsLong v

truth-IsLong : (o : Option ℕ) → AllLong (o >>= truth)
truth-IsLong none v h = cc
truth-IsLong (some a) v h = ground arith

binary_meaning-IsLong :
    (op : BinOp) (l r : Option ℕ) → AllLong l → AllLong r → AllLong (binary_meaning op l r)
unfolding binary_meaning
binary_meaning-IsLong and_then l r p q v h =
    let (a, e, t) = >>=-eq-some l _ h in ground (arith, truth-IsLong r v)
binary_meaning-IsLong or_else l r p q v h =
    let (a, e, t) = >>=-eq-some l _ h in ground (arith, truth-IsLong r v)
binary_meaning-IsLong op l r p q v h =
    let (a, e, t) = >>=-eq-some l _ h in
    let (b, e', t') = >>=-eq-some r _ t in binary_value-IsLong op a b (p a e) (q b e') t'

right_operand-IsLong :
    (op : BinOp) (r : Ast) (o : Option ℕ) → AllLong o → AllLong (right_operand op r o)
right_operand-IsLong ne r o p = elim (Bool-cases (is_value 0 r)) [
  | inl t ↦ rw t (λ v h. ground arith)
  | inr f ↦ rw f p
]
right_operand-IsLong _ r o p = p

unary_value-IsLong : (op : UnOp) (a : ℕ) → IsLong a → AllLong (unary_value op a)
unfolding unary_value
unary_value-IsLong minus a p v h = ground (arith, neg_long-IsLong a)
unary_value-IsLong plus a p v h = ground arith
unary_value-IsLong logical_not a p v h = ground arith
unary_value-IsLong complement a p v h = ground (arith, not_long-IsLong a)
unary_value-IsLong UnOp.other a p v h = cc

convert-IsLong : (k : TypeKind) (a : ℕ) → IsLong a → AllLong (convert k a)
unfolding convert
convert-IsLong bool a p v h = ground arith
convert-IsLong char a p v h = ground arith
convert-IsLong _ a p v h = ground arith

module _ (env : Env) (fits : EnvFits env) where
  variable-IsLong : (x : Option Bytes) → AllLong (variable env x)
  variable-IsLong none v h = cc
  variable-IsLong (some x) v h = fits x v h

  -- The meaning of an expression is a `long`.
  pub eval-IsLong : (e : Ast) → AllLong (eval env e)
  unfolding eval
  eval-IsLong (node int_literal a cs) v h =
      let (u, e) = signed_only-eq-some a _ h in ground (arith, strtol-IsLong (text a.value))
  eval-IsLong (node var_ref a cs) v h =
      let (u, e) = signed_only-eq-some a _ h in variable-IsLong a.value v e
  eval-IsLong (node unary_op a (cons x nil)) v h =
      let (u, e) = signed_only-eq-some a _ h in
      let (b, p, q) = >>=-eq-some (eval env x) _ e in
      unary_value-IsLong (unary_op_of a.value) b (eval-IsLong x b p) v q
  eval-IsLong (node binary_op a (cons l (cons r nil))) v h =
      let (u, e) = signed_only-eq-some a _ h in
      binary_meaning-IsLong (binary_op_of a.value) _ _ (eval-IsLong l)
        (right_operand-IsLong (binary_op_of a.value) r _ (eval-IsLong r)) v e
  eval-IsLong (node conditional_expr a (cons c (cons t (cons f nil)))) v h =
      let (u, e) = signed_only-eq-some a _ h in
      let (b, p, q) = >>=-eq-some (eval env c) _ e in
      ground (arith, eval-IsLong t v, eval-IsLong f v)
  eval-IsLong (node cast a (cons x nil)) v h =
      let (u, e) = signed_only-eq-some a _ h in
      let (b, p, q) = >>=-eq-some (eval env x) _ e in
      convert-IsLong a.decl_type b (eval-IsLong x b p) v q
  eval-IsLong _ v h = cc
