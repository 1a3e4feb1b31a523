-- ===== src/Optimize/Sound/Logic.antt =====
-- The blocks on doubled operators, on `&&` and `||`, and on `?:` keep the meaning of an expression.
use claudec.Base.{
  >>=-eq-some, ◌>>=◌, ℕ, Bool, true, false, not, Option, none, some, ◌≡◌, ◌⊎◌, refl, ap, ◌∙◌, arith,
  ◌==◌, if◌then◌else◌, Bool-cases, inl, inr, str_eq,
}
use claudec.CType.{int}
use claudec.Ast.{
  int_literal, unary_op, binary_op, conditional_expr, Attrs, Ast, Children, node, nil, cons,
  no_attrs,
}
use claudec.Long.{IsLong, of_bool}
use claudec.Long.Laws.{neg_long-neg_long}
use claudec.Long.Text.{strtol, skip_space, read_prefixed, read_digits}
use claudec.Optimize.{
  BinOp, and_then, or_else, UnOp, minus, logical_not, binary_op_of, unary_op_of, literal, long_of,
  is_value, zero_literal, one_literal,
}
use claudec.Optimize.Identities.{
  unary_operand, differs_from_zero, without_doubles, double_operators, as_test, simplify_logical,
  logical_simplification, choose_branch, conditional_folding,
}
use claudec.Optimize.Eval.{
  Env, binary_value, binary_meaning, unary_value, truth, signed_only, right_operand, eval,
}
use claudec.Optimize.Sound.Values.{
  EnvFits, Refines, signed_only-eq-some, eval-IsLong, eval-zero_text, eval-one_literal, binary_eval,
  unary_eval, conditional_eval,
}
use claudec.Optimize.Sound.Literals.{eval-literal}

without_doubles_inv :
    (op : UnOp) (o : Option (UnOp × Ast)) (e : Ast)
    → without_doubles op o ≡ some e
    → (x : Ast) × (o ≡ some (op, x))
      × (((op ≡ logical_not) × (e ≡ differs_from_zero x)) ⊎ ((op ≡ minus) × (e ≡ x)))
without_doubles_inv logical_not (some (logical_not, x)) e h = (x, refl, ground arith)
without_doubles_inv minus (some (minus, x)) e h = (x, refl, ground arith)
without_doubles_inv _ _ e h = cc

unary_operand_inv :
    (e x : Ast) (op : UnOp)
    → unary_operand e ≡ some (op, x)
    → (n : Attrs) × (e ≡ node unary_op n (cons x nil)) × (unary_op_of n.value ≡ op)
unary_operand_inv (node unary_op n (cons y nil)) x op h = (n, cc, cc)
unary_operand_inv _ x op h = cc

-- A test against a literal zero.
eval-as_test :
    (env : Env) (n : Attrs) (x z : Ast) (a : ℕ)
    → n.is_unsigned ≡ false
    → eval env x ≡ some a
    → is_value 0 z ≡ true
    → eval env (node binary_op (as_test n) (cons x (cons z nil))) ≡ some (of_bool (not (a == 0)))
unfolding eval binary_op_of binary_meaning binary_value str_eq
eval-as_test env n x z a u p q = rw (u, p, q)

zero_literal_zero : is_value 0 zero_literal ≡ true
unfolding strtol skip_space read_prefixed read_digits
zero_literal_zero = refl

twice :
    (op : UnOp) (a b v : ℕ)
    → IsLong a
    → unary_value op a ≡ some b
    → unary_value op b ≡ some v
    → ((op ≡ logical_not) → v ≡ of_bool (not (a == 0))) × ((op ≡ minus) → v ≡ a)
unfolding unary_value
twice logical_not a b v la p q = ground arith
twice minus a b v la p q = ground (arith, neg_long-neg_long a la)
twice _ a b v la p q = ground arith

chosen :
    (env : Env) (c t f e : Ast) (v : ℕ)
    → choose_branch (literal c) t f ≡ some e
    → (eval env c >>= λ b. if b == 0 then eval env f else eval env t) ≡ some v
    → eval env e ≡ some v
unfolding eval
chosen env (node int_literal a cs) t f e v h m =
    let (b, p, q) = >>=-eq-some (signed_only a (some (long_of a))) _ m in
    let same : long_of a ≡ b = cc (signed_only-eq-some a (some (long_of a)) p).1 in
    let q' : (if long_of a == 0 then eval env f else eval env t) ≡ some v = rw same q in
    elim (Bool-cases (long_of a == 0)) [
      | inl z ↦ cc (rw z at h, rw z at q')
      | inr z ↦ cc (rw z at h, rw z at q')
    ]
chosen env _ t f e v h m = cc

right_truth_at :
    (env : Env) (b : Attrs) (cs : Children) (w : ℕ)
    → (eval env (node int_literal b cs) >>= truth) ≡ some w
    → w ≡ of_bool (not (long_of b == 0))
right_truth_at env b cs w h =
    let (c, p, q) = >>=-eq-some (eval env (node int_literal b cs)) truth h in
    let p' = rw (eval-literal env (node int_literal b cs) b refl) at p in
    cc (signed_only-eq-some b (some (long_of b)) p').1

and_value :
    (t : Bool) (c v : ℕ) (o : Option ℕ)
    → (if t then some 0 else o) ≡ some v
    → ((w : ℕ) → o ≡ some w → w ≡ c)
    → v ≡ (if t then 0 else c)
and_value true c v o h k = cc
and_value false c v o h k = k v h

or_value :
    (t : Bool) (c v : ℕ) (o : Option ℕ)
    → (if t then o else some 1) ≡ some v
    → ((w : ℕ) → o ≡ some w → w ≡ c)
    → v ≡ (if t then c else 1)
or_value true c v o h k = k v h
or_value false c v o h k = cc

simplified :
    (env : Env) (op : BinOp) (n : Attrs) (l r e : Ast) (v : ℕ)
    → n.is_unsigned ≡ false
    → simplify_logical op n l r (literal r) ≡ some e
    → binary_meaning op (eval env l) (right_operand op r (eval env r)) ≡ some v
    → eval env e ≡ some v
unfolding binary_meaning
simplified env and_then n l (node int_literal b cs) e v u h m =
    let (a, p, t) = >>=-eq-some (eval env l) _ m in
    let w = and_value (a == 0) _ v _ t (right_truth_at env b cs) in
    elim (Bool-cases (long_of b == 0)) [
      | inl z ↦
          let e' : zero_literal ≡ e = cc (rw z at h) in
          rw (← e') (eval-zero_text env int ∙ ap some (ground (arith, w)))
      | inr z ↦
          let e' : node binary_op (as_test n) (cons l (cons zero_literal nil)) ≡ e =
            cc (rw z at h) in
          rw (← e') (
            eval-as_test env n l zero_literal a u p zero_literal_zero ∙ ap some (ground (arith, w)))
    ]
simplified env or_else n l (node int_literal b cs) e v u h m =
    let (a, p, t) = >>=-eq-some (eval env l) _ m in
    let w = or_value (a == 0) _ v _ t (right_truth_at env b cs) in
    elim (Bool-cases (long_of b == 0)) [
      | inl z ↦
          let e' : node binary_op (as_test n) (cons l (cons (node int_literal b cs) nil)) ≡ e =
            cc (rw z at h) in
          rw (← e')
            (eval-as_test env n l (node int_literal b cs) a u p z ∙ ap some (ground (arith, w)))
      | inr z ↦
          let e' : one_literal ≡ e = cc (rw z at h) in
          rw (← e') (eval-one_literal env ∙ ap some (ground (arith, w)))
    ]
simplified env _ n l r e v u h m = cc

module _ (env : Env) (fits : EnvFits env) where
  pub double_operators_sound : (e e' : Ast) → double_operators e ≡ some e' → Refines env e e'
  unfolding double_operators
  double_operators_sound (node unary_op n (cons inner nil)) e' h v m =
      let op = unary_op_of n.value in
      let (x, o, how) = without_doubles_inv op (unary_operand inner) e' h in
      let (k, shape, same_op) = unary_operand_inv inner x op o in
      let (b, p, q) = >>=-eq-some (eval env inner) _ (unary_eval env n inner v m) in
      let (a, p', r) = >>=-eq-some (eval env x) _ (unary_eval env k x b (rw shape at p)) in
      let (as_not, as_minus) = twice op a b v (eval-IsLong env fits x a p') (rw same_op at r) q in
      elim how [
        | inl (is_not, e) ↦
            rw (e, as_not is_not)
              (eval-as_test env (no_attrs none) x zero_literal a refl p' zero_literal_zero)
        | inr (is_minus, e) ↦ rw (e, as_minus is_minus) p'
      ]
  double_operators_sound _ e' h v m = cc

  pub logical_simplification_sound :
      (e e' : Ast) → logical_simplification e ≡ some e' → Refines env e e'
  unfolding logical_simplification
  logical_simplification_sound (node binary_op n (cons l (cons r nil))) e' h v m =
      let (u, q) = binary_eval env n l r v m in
      simplified env (binary_op_of n.value) n l r e' v u h q
  logical_simplification_sound _ e' h v m = cc

  pub conditional_folding_sound : (e e' : Ast) → conditional_folding e ≡ some e' → Refines env e e'
  unfolding conditional_folding
  conditional_folding_sound (node conditional_expr n (cons c (cons t (cons f nil)))) e' h v m =
      chosen env c t f e' v h (conditional_eval env n c t f v m)
  conditional_folding_sound _ e' h v m = cc
