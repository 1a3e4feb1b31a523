-- ===== src/Optimize/Sound/Algebra.antt =====
-- The block of algebraic identities keeps the meaning of an expression.
use claudec.Base.{
  >>=-eq-some, ◌>>=◌, ℕ, bit_and, bit_or, bit_xor, Bool, true, false, Option, none, some, ◌≡◌, refl,
  arith, if◌then◌else◌, Bytes, str_eq, str_eq_iff,
}
use claudec.Ast.{
  int_literal, var_ref, unary_op, binary_op, conditional_expr, cast, Ast, node, nil, cons,
}
use claudec.Long.{IsLong, all_ones, add_long, sub_long, mul_long, div_long}
use claudec.Long.Bits.{
  bit_and-zero, zero-bit_and, bit_or-zero, zero-bit_or, bit_xor_self, bit_and_mask, mask_bit_and,
}
use claudec.Long.Laws.{add_long-zero, sub_long-zero, mul_long-units, div_long-one, zero-div_long}
use claudec.Optimize.{
  BinOp, add, sub, mul, div, and_bits, or_bits, xor_bits, ne, and_then, or_else, binary_op_of,
  is_value, text,
}
use claudec.Optimize.Identities.{
  type_of, unsigned_of, zero_like, same_var, identity, algebraic_identities,
}
use claudec.Optimize.Eval.{
  Env, guarded, binary_value, binary_meaning, variable, right_operand, eval,
}
use claudec.Optimize.Sound.Values.{
  EnvFits, Refines, signed_only-eq-some, eval-IsLong, eval-zero_text, binary_eval,
}

pub eval-signed : (env : Env) (e : Ast) (v : ℕ) → eval env e ≡ some v → unsigned_of e ≡ false
unfolding eval
eval-signed env (node int_literal a cs) v h = (signed_only-eq-some a _ h).0
eval-signed env (node var_ref a cs) v h = (signed_only-eq-some a _ h).0
eval-signed env (node unary_op a (cons x nil)) v h = (signed_only-eq-some a _ h).0
eval-signed env (node binary_op a (cons l (cons r nil))) v h = (signed_only-eq-some a _ h).0
eval-signed env (node conditional_expr a (cons c (cons t (cons f nil)))) v h =
    (signed_only-eq-some a _ h).0
eval-signed env (node cast a (cons x nil)) v h = (signed_only-eq-some a _ h).0
eval-signed env _ v h = cc

eval-zero_like :
    (env : Env) (e : Ast) (v : ℕ) → eval env e ≡ some v → eval env (zero_like e) ≡ some 0
eval-zero_like env e v h = rw (eval-signed env e v h) (eval-zero_text env (type_of e))

pub is_value-eval :
    (env : Env) (c : ℕ) (e : Ast) (v : ℕ) → is_value c e ≡ true → eval env e ≡ some v → v ≡ c
unfolding eval
is_value-eval env c (node int_literal a cs) v h m = ground arith
is_value-eval env c _ v h m = cc

same_text :
    (env : Env) (x y : Option Bytes) (a b : ℕ)
    → str_eq (text x) (text y) ≡ true
    → variable env x ≡ some a
    → variable env y ≡ some b
    → a ≡ b
same_text env none y a b h p q = cc
same_text env (some x) none a b h p q = cc
same_text env (some x) (some y) a b h p q = ground (arith, str_eq_iff x y)

same_var-eval :
    (env : Env) (l r : Ast) (a b : ℕ)
    → same_var l r ≡ true
    → eval env l ≡ some a
    → eval env r ≡ some b
    → a ≡ b
unfolding eval
same_var-eval env (node var_ref m cs) (node var_ref n ds) a b h p q =
    same_text env m.value n.value a b h (signed_only-eq-some m _ p).1 (signed_only-eq-some n _ q).1
same_var-eval env _ _ a b h p q = cc

pub guarded-eq : (t : Bool) (x v : ℕ) → guarded t x ≡ some v → x ≡ v
guarded-eq true x v h = cc
guarded-eq false x v h = cc

-- The values of two operands, and what an identity needs to know of them.
module _ (env : Env) (l r e : Ast) (a b v : ℕ) (p : eval env l ≡ some a) (q : eval env r ≡ some b)
    (la : IsLong a) (lb : IsLong b) where
  -- One test of the chain.
  rule :
      (t : Bool) (x : Ast) (o : Option Ast)
      → (t ≡ true → eval env x ≡ some v)
      → (o ≡ some e → eval env e ≡ some v)
      → (if t then some x else o) ≡ some e
      → eval env e ≡ some v
  rule true x o f g h = cc (f refl)
  rule false x o f g h = g h

  left_is : (c : ℕ) → is_value c l ≡ true → a ≡ c
  left_is c t = is_value-eval env c l a t p

  right_is : (c : ℕ) → is_value c r ≡ true → b ≡ c
  right_is c t = is_value-eval env c r b t q

  zero_left : 0 ≡ v → eval env (zero_like l) ≡ some v
  zero_left z = cc (eval-zero_like env l a p)

  zero_right : 0 ≡ v → eval env (zero_like r) ≡ some v
  zero_right z = cc (eval-zero_like env r b q)

  no_rule : none ≡ some e → eval env e ≡ some v
  no_rule h = cc

  identity_add : identity add l r ≡ some e → add_long a b ≡ v → eval env e ≡ some v
  unfolding identity
  identity_add h m =
      rule (is_value 0 r) l _ (λ t. cc (right_is 0 t, (add_long-zero a la).0))
        (rule (is_value 0 l) r _ (λ t. cc (left_is 0 t, (add_long-zero b lb).1)) no_rule) h

  identity_sub : identity sub l r ≡ some e → sub_long a b ≡ v → eval env e ≡ some v
  unfolding identity
  identity_sub h m =
      rule (is_value 0 r) l _ (λ t. cc (right_is 0 t, (sub_long-zero a la).0))
        (rule (same_var l r) (zero_like l) _
          (λ t. zero_left (cc (same_var-eval env l r a b t p q, (sub_long-zero a la).1))) no_rule)
        h

  identity_mul : identity mul l r ≡ some e → mul_long a b ≡ v → eval env e ≡ some v
  unfolding identity
  identity_mul h m =
      let (a1, a1_left, a0, a0_left) = mul_long-units a la in
      let (b1, b1_left, b0, b0_left) = mul_long-units b lb in
      rule (is_value 1 r) l _ (λ t. cc (right_is 1 t, a1))
        (rule (is_value 1 l) r _ (λ t. cc (left_is 1 t, b1_left))
          (rule (is_value 0 r) (zero_like l) _ (λ t. zero_left (cc (right_is 0 t, a0)))
            (rule (is_value 0 l) (zero_like r) _ (λ t. zero_right (cc (left_is 0 t, b0_left)))
              no_rule)))
        h

  identity_div : identity div l r ≡ some e → div_long a b ≡ v → eval env e ≡ some v
  unfolding identity
  identity_div h m =
      rule (is_value 1 r) l _ (λ t. cc (right_is 1 t, div_long-one a la))
        (rule (is_value 0 l) (zero_like r) _
          (λ t. zero_right (cc (left_is 0 t, zero-div_long b lb))) no_rule)
        h

  identity_or : identity or_bits l r ≡ some e → bit_or a b ≡ v → eval env e ≡ some v
  unfolding identity
  identity_or h m =
      rule (is_value 0 r) l _ (λ t. cc (right_is 0 t, bit_or-zero a))
        (rule (is_value 0 l) r _ (λ t. cc (left_is 0 t, zero-bit_or b)) no_rule) h

  identity_and : identity and_bits l r ≡ some e → bit_and a b ≡ v → eval env e ≡ some v
  unfolding identity
  identity_and h m =
      rule (is_value all_ones r) l _ (λ t. cc (right_is all_ones t, bit_and_mask 64 a la))
        (rule (is_value all_ones l) r _ (λ t. cc (left_is all_ones t, mask_bit_and 64 b lb))
          (rule (is_value 0 r) (zero_like l) _ (λ t. zero_left (cc (right_is 0 t, bit_and-zero a)))
            (rule (is_value 0 l) (zero_like r) _
              (λ t. zero_right (cc (left_is 0 t, zero-bit_and b))) no_rule)))
        h

  identity_xor : identity xor_bits l r ≡ some e → bit_xor a b ≡ v → eval env e ≡ some v
  unfolding identity
  identity_xor h m =
      rule (same_var l r) (zero_like l) _
        (λ t. zero_left (cc (same_var-eval env l r a b t p q, bit_xor_self a))) no_rule h

  identity_value :
      (op : BinOp) → identity op l r ≡ some e → binary_value op a b ≡ some v → eval env e ≡ some v
  unfolding binary_value
  identity_value add h m = identity_add h (cc)
  identity_value sub h m = identity_sub h (cc)
  identity_value mul h m = identity_mul h (cc)
  identity_value div h m = identity_div h (guarded-eq _ _ v m)
  identity_value or_bits h m = identity_or h (cc)
  identity_value and_bits h m = identity_and h (cc)
  identity_value xor_bits h m = identity_xor h (cc)
  identity_value _ h m = unfold identity in cc

-- Only operators that evaluate both operands have an identity.
evaluates_both :
    (op : BinOp) (l r e : Ast) (x y : Option ℕ) (v : ℕ)
    → identity op l r ≡ some e
    → binary_meaning op x (right_operand op r y) ≡ some v
    → (x >>= λ a. y >>= λ b. binary_value op a b) ≡ some v
unfolding identity binary_meaning
evaluates_both and_then l r e x y v h m = cc
evaluates_both or_else l r e x y v h m = cc
evaluates_both ne l r e x y v h m = cc
evaluates_both _ l r e x y v h m = m

module _ (env : Env) (fits : EnvFits env) where
  pub algebraic_identities_sound :
      (e e' : Ast) → algebraic_identities e ≡ some e' → Refines env e e'
  unfolding algebraic_identities
  algebraic_identities_sound (node binary_op n (cons l (cons r nil))) e' h v m =
      let op = binary_op_of n.value in
      let both =
        evaluates_both op l r e' (eval env l) (eval env r) v h (binary_eval env n l r v m).1 in
      let (a, p, t) = >>=-eq-some (eval env l) _ both in
      let (b, q, w) = >>=-eq-some (eval env r) _ t in
      identity_value env l r e' a b v p q (eval-IsLong env fits l a p) (eval-IsLong env fits r b q)
        op h w
  algebraic_identities_sound _ e' h v m = cc
