-- ===== src/Optimize/Sound/Literals.antt =====
-- The blocks on literal operands keep the meaning of an expression.
use claudec.Base.{
  >>=-eq-some, ◌>>=◌, ℕ, Bool, true, false, Option, none, some, ◌≡◌, refl, ap, ◌∙◌, arith,
  Bool-cases, ◌⊎◌, inl, inr,
}
use claudec.CType.{TypeKind, int}
use claudec.Ast.{int_literal, unary_op, binary_op, Attrs, Ast, node, nil, cons}
use claudec.Optimize.{
  BinOp, add, sub, ne, and_then, or_else, UnOp, minus, binary_op_of, unary_op_of, literal, long_of,
  new_literal, is_value,
}
use claudec.Optimize.Fold.{
  fold_binary, typed_result, fold_literals, binary_folding, decide_right, short_circuit,
  logical_folding, fold_unary, fold_operand, unary_folding,
}
use claudec.Optimize.Eval.{
  Env, binary_value, binary_meaning, unary_value, truth, signed_only, right_operand, eval,
}
use claudec.Optimize.Sound.Values.{
  EnvFits, Refines, signed_only-eq-some, eval-new_literal, eval-IsLong, eval-zero_text,
  eval-one_literal, binary_eval, unary_eval,
}

-- A literal means its value, unless it is unsigned.
pub eval-literal :
    (env : Env) (e : Ast) (a : Attrs)
    → literal e ≡ some a
    → eval env e ≡ signed_only a (some (long_of a))
unfolding eval
eval-literal env (node int_literal b cs) a h = ground arith
eval-literal env _ a h = cc

fold_literals_inv :
    (op : BinOp) (x y : Option Attrs) {e : Ast}
    → fold_literals op x y ≡ some e
    → (a : Attrs) × (b : Attrs) × (x ≡ some a)
      × (y ≡ some b)
      × (typed_result a (fold_binary op (long_of a) (long_of b)) ≡ some e)
fold_literals_inv op none y h = cc
fold_literals_inv op (some a) none h = cc
fold_literals_inv op (some a) (some b) h = (a, b, refl, refl, h)

typed_result_inv :
    (a : Attrs) (o : Option (ℕ × Bool)) {e : Ast}
    → a.is_unsigned ≡ false
    → typed_result a o ≡ some e
    → (v : ℕ) × (t : Bool) × (k : TypeKind) × (o ≡ some (v, t)) × (e ≡ new_literal v k false)
typed_result_inv a none u h = cc
typed_result_inv a (some (v, true)) u h = (v, true, int, refl, cc)
typed_result_inv a (some (v, false)) u h = (v, false, a.decl_type, refl, ground arith)

-- Where the operation is defined, folding computes its value.
fold_binary-binary_meaning :
    (op : BinOp) (a b v w : ℕ) (t : Bool)
    → fold_binary op a b ≡ some (v, t)
    → binary_meaning op (some a) (some b) ≡ some w
    → v ≡ w
unfolding fold_binary binary_meaning binary_value
fold_binary-binary_meaning add a b v w t h m = ground arith
fold_binary-binary_meaning sub a b v w t h m = ground arith
fold_binary-binary_meaning _ a b v w t h m = ground arith

fold_unary-unary_value :
    (op : UnOp) (a v w : ℕ) (t : Bool)
    → fold_unary op a ≡ some (v, t)
    → unary_value op a ≡ some w
    → v ≡ w
unfolding fold_unary unary_value
fold_unary-unary_value minus a v w t h m = ground arith
fold_unary-unary_value _ a v w t h m = ground arith

binary_meaning-none_left : (op : BinOp) (r : Option ℕ) → binary_meaning op none r ≡ none
unfolding binary_meaning
binary_meaning-none_left and_then r = refl
binary_meaning-none_left _ r = refl

binary_meaning-none_right :
    (op : BinOp) (a b : ℕ) (v : ℕ × Bool)
    → fold_binary op a b ≡ some v
    → binary_meaning op (some a) none ≡ none
unfolding binary_meaning fold_binary
binary_meaning-none_right and_then a b v h = cc
binary_meaning-none_right or_else a b v h = cc
binary_meaning-none_right _ a b v h = refl

-- A literal operand has its value or none.
abbrev HasValue : Option ℕ → ℕ → Type 0
HasValue o v = (o ≡ none) ⊎ (o ≡ some v)

right_operand-HasValue :
    (env : Env) (op : BinOp) (r : Ast) (b : Attrs)
    → literal r ≡ some b
    → HasValue (right_operand op r (eval env r)) (long_of b)
right_operand-HasValue env ne r b h = elim (Bool-cases (is_value 0 r)) [
  | inl t ↦ rw t (inr (ground arith))
  | inr f ↦ rw f (rw (eval-literal env r b h) (ground arith))
]
right_operand-HasValue env _ r b h = rw (eval-literal env r b h) (ground arith)

-- The folded operation is a literal with the meaning of the operation.
fold_meaning :
    (op : BinOp) (a b : Attrs) (y : Option ℕ) (e : Ast) (v : ℕ)
    → typed_result a (fold_binary op (long_of a) (long_of b)) ≡ some e
    → HasValue y (long_of b)
    → binary_meaning op (signed_only a (some (long_of a))) y ≡ some v
    → (k : TypeKind) × (e ≡ new_literal v k false)
fold_meaning op a b y e v h y_cases m = elim (Bool-cases a.is_unsigned) [
  | inl u ↦ absurd (none_left _ (rw u at m))
  | inr s ↦
      let (w, t, k, f, g) = typed_result_inv a _ s h in
      let m' : binary_meaning op (some (long_of a)) y ≡ some v = rw s at m in
      elim y_cases [
        | inl u ↦ absurd (none_right (w, t) f (rw u at m'))
        | inr s' ↦
            let m'' : binary_meaning op (some (long_of a)) (some (long_of b)) ≡ some v =
              rw s' at m' in
            (k, g ∙ ap (λ x. new_literal x k false) (fold_binary-binary_meaning op _ _ w v t f m''))
      ]
]
  where
    none_left : (r : Option ℕ) → binary_meaning op none r ≡ some v → ⊥
    none_left r p = cc (binary_meaning-none_left op r)

    none_right :
        (x : ℕ × Bool)
        → fold_binary op (long_of a) (long_of b) ≡ some x
        → binary_meaning op (some (long_of a)) none ≡ some v
        → ⊥
    none_right x f p = cc (binary_meaning-none_right op (long_of a) (long_of b) x f)

decide_right-eval :
    (env : Env) (r e : Ast) (v : ℕ)
    → decide_right (literal r) ≡ some e
    → (eval env r >>= truth) ≡ some v
    → eval env e ≡ some v
unfolding eval
decide_right-eval env (node int_literal b cs) e v h m =
    ground (arith, eval-zero_text env int, eval-one_literal env)
decide_right-eval env _ e v h m = cc

short_circuit-eval :
    (env : Env) (op : BinOp) (l r e : Ast) (v : ℕ)
    → short_circuit op (literal l) (literal r) ≡ some e
    → binary_meaning op (eval env l) (right_operand op r (eval env r)) ≡ some v
    → eval env e ≡ some v
unfolding eval binary_meaning
short_circuit-eval env and_then (node int_literal a cs) r e v h m =
    ground (arith, decide_right-eval env r e v, eval-zero_text env int)
short_circuit-eval env or_else (node int_literal a cs) r e v h m =
    ground (arith, decide_right-eval env r e v, eval-one_literal env)
short_circuit-eval env _ l r e v h m = cc

fold_operand_inv :
    (op : UnOp) (x : Option Attrs) {e : Ast}
    → fold_operand op x ≡ some e
    → (a : Attrs) × (x ≡ some a) × (typed_result a (fold_unary op (long_of a)) ≡ some e)
fold_operand_inv op none h = cc
fold_operand_inv op (some a) h = (a, refl, h)

operand_meaning :
    (op : UnOp) (a : Attrs) (e : Ast) (v : ℕ)
    → typed_result a (fold_unary op (long_of a)) ≡ some e
    → (signed_only a (some (long_of a)) >>= unary_value op) ≡ some v
    → (k : TypeKind) × (e ≡ new_literal v k false)
operand_meaning op a e v h m =
    let (b, s, p) = >>=-eq-some (signed_only a (some (long_of a))) (unary_value op) m in
    let (u, q) = signed_only-eq-some a (some (long_of a)) s in
    let (w, t, k, f, g) = typed_result_inv a (fold_unary op (long_of a)) u h in
    let same : long_of a ≡ b = cc q in
    let p' : unary_value op (long_of a) ≡ some v = rw same p in
    (k, g ∙ ap (λ x. new_literal x k false) (fold_unary-unary_value op (long_of a) w v t f p'))

module _ (env : Env) (fits : EnvFits env) where
  pub binary_folding_sound : (e e' : Ast) → binary_folding e ≡ some e' → Refines env e e'
  unfolding binary_folding
  binary_folding_sound (node binary_op n (cons l (cons r nil))) e' h v m =
      let q = (binary_eval env n l r v m).1 in
      let (a, b, la, lb, t) = fold_literals_inv (binary_op_of n.value) (literal l) (literal r) h in
      let q' = rw (eval-literal env l a la) at q in
      let y_cases = right_operand-HasValue env (binary_op_of n.value) r b lb in
      let (k, p) = fold_meaning (binary_op_of n.value) a b _ e' v t y_cases q' in
      rw p (eval-new_literal env v k (eval-IsLong env fits _ v m))
  binary_folding_sound _ e' h v m = cc

  pub logical_folding_sound : (e e' : Ast) → logical_folding e ≡ some e' → Refines env e e'
  unfolding logical_folding
  logical_folding_sound (node binary_op n (cons l (cons r nil))) e' h v m =
      short_circuit-eval env (binary_op_of n.value) l r e' v h (binary_eval env n l r v m).1
  logical_folding_sound _ e' h v m = cc

  pub unary_folding_sound : (e e' : Ast) → unary_folding e ≡ some e' → Refines env e e'
  unfolding unary_folding
  unary_folding_sound (node unary_op n (cons x nil)) e' h v m =
      let q = unary_eval env n x v m in
      let (a, la, t) = fold_operand_inv (unary_op_of n.value) (literal x) h in
      let q' = rw (eval-literal env x a la) at q in
      let (k, p) = operand_meaning (unary_op_of n.value) a e' v t q' in
      rw p (eval-new_literal env v k (eval-IsLong env fits _ v m))
  unary_folding_sound _ e' h v m = cc
