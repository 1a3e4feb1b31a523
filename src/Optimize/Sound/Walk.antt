-- ===== src/Optimize/Sound/Walk.antt =====
-- The whole of `optimize_expr` keeps the meaning of an expression.
use claudec.Base.{ℕ, true, Option, none, some, ◌≡◌, ap, sym, ◌==◌, inl, inr, Option-cases}
use claudec.Ast.{
  int_literal, var_ref, unary_op, binary_op, conditional_expr, cast, sizeof_type, sizeof_expr,
  Attrs, Ast, node, nil, cons,
}
use claudec.Optimize.{◌or_try◌, binary_op_of, is_value}
use claudec.Optimize.Types.{
  Table, sizeof_type_folding, sizeof_expr_folding, cast_folding, const_propagation,
}
use claudec.Optimize.Fold.{binary_folding, logical_folding, unary_folding}
use claudec.Optimize.Identities.{
  double_operators, algebraic_identities, logical_simplification, conditional_folding,
}
use claudec.Optimize.Strength.{strength_reduction}
use claudec.Optimize.Expr.{first_block, rewrite_node, optimize_expr, optimize_children}
use claudec.Optimize.Eval.{Env, eval}
use claudec.Optimize.Sound.Values.{EnvFits, Refines}
use claudec.Optimize.Sound.Literals.{
  binary_folding_sound, logical_folding_sound, unary_folding_sound,
}
use claudec.Optimize.Sound.Algebra.{algebraic_identities_sound, is_value-eval}
use claudec.Optimize.Sound.Logic.{
  double_operators_sound, logical_simplification_sound, conditional_folding_sound,
}
use claudec.Optimize.Sound.Shifts.{strength_reduction_sound}
use claudec.Optimize.Sound.Casts.{Agrees, cast_folding_sound, const_propagation_sound}
use claudec.Optimize.Sound.Keeps.{
  >>=-Keeps, Keeps-refl, signed_only-Keeps, if-Keeps, binary_meaning-Keeps, right_operand-Keeps,
}

or_try_sound :
    (P : Ast → Type 0) (o p : Option Ast)
    → ((e : Ast) → o ≡ some e → P e)
    → ((e : Ast) → p ≡ some e → P e)
    → (e : Ast) → (o or_try p) ≡ some e
    → P e
or_try_sound P none p f g e h = g e h
or_try_sound P (some x) p f g e h = f e h

sizeof_type_folding_sound :
    (env : Env) (e e' : Ast) → sizeof_type_folding e ≡ some e' → Refines env e e'
unfolding sizeof_type_folding eval
sizeof_type_folding_sound env (node sizeof_type n cs) e' h v m = cc
sizeof_type_folding_sound env _ e' h v m = cc

sizeof_expr_folding_sound :
    (env : Env) (e e' : Ast) → sizeof_expr_folding e ≡ some e' → Refines env e e'
unfolding sizeof_expr_folding eval
sizeof_expr_folding_sound env (node sizeof_expr n cs) e' h v m = cc
sizeof_expr_folding_sound env _ e' h v m = cc

module _ (env : Env) (fits : EnvFits env) (t : Table) (agree : Agrees env t) where
  first_block_sound : (e e' : Ast) → first_block t e ≡ some e' → Refines env e e'
  unfolding first_block
  first_block_sound e =
      let or = or_try_sound (Refines env e) in
      or _ _ (binary_folding_sound env fits e) (
        or _ _ (logical_folding_sound env fits e) (
          or _ _ (unary_folding_sound env fits e) (
            or _ _ (double_operators_sound env fits e) (
              or _ _ (algebraic_identities_sound env fits e) (
                or _ _ (strength_reduction_sound env e) (
                  or _ _ (logical_simplification_sound env fits e) (
                    or _ _ (conditional_folding_sound env fits e) (
                      or _ _ (sizeof_type_folding_sound env e) (
                        or _ _ (sizeof_expr_folding_sound env e) (
                          or _ _ (cast_folding_sound env fits e)
                            (const_propagation_sound env fits t agree e)))))))))))

  rewrite_node_sound : (e : Ast) → Refines env e (rewrite_node t e)
  unfolding rewrite_node
  rewrite_node_sound e v h = elim (Option-cases (first_block t e)) [
    | inl n ↦ rw n h
    | inr (e', s) ↦ rw s (first_block_sound e e' s v h)
  ]

-- A literal is left alone.
literal_stays :
    (t : Table) (c : ℕ) (e : Ast) → is_value c e ≡ true → is_value c (optimize_expr t e) ≡ true
unfolding optimize_expr rewrite_node first_block binary_folding logical_folding unary_folding
    double_operators algebraic_identities strength_reduction logical_simplification
    conditional_folding sizeof_type_folding sizeof_expr_folding cast_folding const_propagation
literal_stays t c (node int_literal a cs) h = h
literal_stays t c _ h = cc

module _ (env : Env) where
  -- The node with new operands.
  unary_parts :
      (n : Attrs) (x x' : Ast)
      → Refines env x x'
      → Refines env (node unary_op n (cons x nil)) (node unary_op n (cons x' nil))
  unfolding eval
  unary_parts n x x' k =
      signed_only-Keeps n _ _ (>>=-Keeps (eval env x) (eval env x') _ _ k (λ a. Keeps-refl _))

  cast_parts :
      (n : Attrs) (x x' : Ast)
      → Refines env x x'
      → Refines env (node cast n (cons x nil)) (node cast n (cons x' nil))
  unfolding eval
  cast_parts n x x' k =
      signed_only-Keeps n _ _ (>>=-Keeps (eval env x) (eval env x') _ _ k (λ a. Keeps-refl _))

  binary_parts :
      (n : Attrs) (l l' r r' : Ast)
      → (is_value 0 r ≡ true → is_value 0 r' ≡ true)
      → Refines env l l'
      → Refines env r r'
      → Refines env
          (node binary_op n (cons l (cons r nil)))
          (node binary_op n (cons l' (cons r' nil)))
  unfolding eval
  binary_parts n l l' r r' z k m =
      let op = binary_op_of n.value in
      signed_only-Keeps n _ _ (
        binary_meaning-Keeps op _ _ _ _ k (
          right_operand-Keeps op r r' _ _ z (λ s v h. ap some (sym (is_value-eval env 0 r' v s h)))
            m))

  conditional_parts :
      (n : Attrs) (c c' x x' y y' : Ast)
      → Refines env c c'
      → Refines env x x'
      → Refines env y y'
      → Refines env
          (node conditional_expr n (cons c (cons x (cons y nil))))
          (node conditional_expr n (cons c' (cons x' (cons y' nil))))
  unfolding eval
  conditional_parts n c c' x x' y y' k l m =
      signed_only-Keeps n _ _
        (>>=-Keeps (eval env c) (eval env c') _ _ k (λ a. if-Keeps (a == 0) _ _ _ _ m l))

-- Where every variable is a `long` and the constants in the table are the values of signed variables,
-- an expression that has a value has the same value after `optimize_expr`.
pub optimize_expr_sound :
    (env : Env) (t : Table)
    → EnvFits env
    → Agrees env t
    → (e : Ast) (v : ℕ) → eval env e ≡ some v
    → eval env (optimize_expr t e) ≡ some v
unfolding optimize_expr optimize_children eval
optimize_expr_sound env t fits agree (node unary_op n (cons x nil)) v h =
    let x' = optimize_expr t x in
    rewrite_node_sound env fits t agree (node unary_op n (cons x' nil)) v
      (unary_parts env n x x' (optimize_expr_sound env t fits agree x) v h)
optimize_expr_sound env t fits agree (node cast n (cons x nil)) v h =
    let x' = optimize_expr t x in
    rewrite_node_sound env fits t agree (node cast n (cons x' nil)) v
      (cast_parts env n x x' (optimize_expr_sound env t fits agree x) v h)
optimize_expr_sound env t fits agree (node binary_op n (cons l (cons r nil))) v h =
    let l' = optimize_expr t l in
    let r' = optimize_expr t r in
    rewrite_node_sound env fits t agree (node binary_op n (cons l' (cons r' nil))) v (
      binary_parts env n l l' r r' (literal_stays t 0 r) (optimize_expr_sound env t fits agree l)
        (optimize_expr_sound env t fits agree r) v h)
optimize_expr_sound env t fits agree (node conditional_expr n (cons c (cons x (cons y nil)))) v h =
    let c' = optimize_expr t c in
    let x' = optimize_expr t x in
    let y' = optimize_expr t y in
    rewrite_node_sound env fits t agree (node conditional_expr n (cons c' (cons x' (cons y' nil))))
      v
      (conditional_parts env n c c' x x' y y' (optimize_expr_sound env t fits agree c)
        (optimize_expr_sound env t fits agree x) (optimize_expr_sound env t fits agree y) v h)
optimize_expr_sound env t fits agree (node int_literal n cs) v h =
    rewrite_node_sound env fits t agree (node int_literal n (optimize_children t cs)) v h
optimize_expr_sound env t fits agree (node var_ref n cs) v h =
    rewrite_node_sound env fits t agree (node var_ref n (optimize_children t cs)) v h
optimize_expr_sound env t fits agree _ v h = cc
