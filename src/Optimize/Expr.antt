-- ===== src/Optimize/Expr.antt =====
-- `optimize_expr`: the children first, then the first block that fires.
use claudec.Base.{Option, none, some}
use claudec.Ast.{Ast, Children, null, node, nil, cons}
use claudec.Optimize.{◌or_try◌}
use claudec.Optimize.Fold.{binary_folding, logical_folding, unary_folding}
use claudec.Optimize.Identities.{
  double_operators, algebraic_identities, logical_simplification, conditional_folding,
}
use claudec.Optimize.Strength.{strength_reduction}
use claudec.Optimize.Types.{
  Table, sizeof_type_folding, sizeof_expr_folding, cast_folding, const_propagation,
}

-- The blocks in the order of the source.
unfoldable pub first_block : Table → Ast → Option Ast
first_block t e =
    binary_folding e
    or_try logical_folding e
    or_try unary_folding e
    or_try double_operators e
    or_try algebraic_identities e
    or_try strength_reduction e
    or_try logical_simplification e
    or_try conditional_folding e
    or_try sizeof_type_folding e
    or_try sizeof_expr_folding e
    or_try cast_folding e
    or_try const_propagation t e

-- `return node;` after the last block.
abbrev rewritten : Ast → Option Ast → Ast
rewritten e none = e
rewritten e (some e') = e'

unfoldable pub rewrite_node : Table → Ast → Ast
rewrite_node t e = rewritten e (first_block t e)

unfoldable mutual
  pub optimize_expr : Table → Ast → Ast
  optimize_expr t null = null
  optimize_expr t (node k a cs) = rewrite_node t (node k a (optimize_children t cs))

  pub optimize_children : Table → Children → Children
  optimize_children t nil = nil
  optimize_children t (cons c cs) = cons (optimize_expr t c) (optimize_children t cs)
