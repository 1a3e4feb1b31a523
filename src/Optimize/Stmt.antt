-- ===== src/Optimize/Stmt.antt =====
-- `optimize_stmt` and `optimize_translation_unit`. The global table is passed along and returned.
-- A node with fewer children than the parser gives its kind falls to the last clause.
pub mod Dead
pub mod Scope
use claudec.Base.{
  ℕ, Bool, true, false, not, ◌&&◌, none, some, [], ◌∷◌, ◌++◌, ltb, ◌==◌, if◌then◌else◌, length,
  take,
}
use claudec.Ast.{
  function_decl, return_statement, if_statement, while_statement, do_while_statement, for_statement,
  switch_statement, default_section, case_section, break_statement, continue_statement,
  goto_statement, label_statement, block, expression_stmt, declaration, decl_list, Attrs, Ast,
  Children, null, node, nil, cons, ast_new, no_attrs,
}
use claudec.Optimize.{literal, long_of, is_literal, text}
use claudec.Optimize.Types.{Table, ConstEntry, const_prop_max, is_scalar_int_type}
use claudec.Optimize.Expr.{optimize_expr, optimize_children}

abbrev pub is_terminal_stmt : Ast → Bool
is_terminal_stmt (node return_statement _ _) = true
is_terminal_stmt (node break_statement _ _) = true
is_terminal_stmt (node continue_statement _ _) = true
is_terminal_stmt (node goto_statement _ _) = true
is_terminal_stmt _ = false

-- The statements at which dead code ends.
abbrev pub is_label : Ast → Bool
is_label (node label_statement _ _) = true
is_label (node case_section _ _) = true
is_label (node default_section _ _) = true
is_label _ = false

abbrev pub empty_block : Ast
empty_block = ast_new block none

-- By the value of a condition that is a literal.
abbrev pub decided : Ast → Ast → Ast → Ast → Ast
decided c taken skipped whole = elim (literal c) [
  | none ↦ whole
  | some b ↦ if long_of b == 0 then skipped else taken
]

-- What is left of a loop that is never entered.
abbrev pub kept_init : Ast → Ast
kept_init null = empty_block
kept_init (node declaration a cs) = node declaration a cs
kept_init (node decl_list a cs) = node decl_list a cs
kept_init e = node expression_stmt (no_attrs none) (cons e nil)

abbrev pub entry_of : Attrs → Ast → ConstEntry
entry_of a e = record {
  name = text a.value;
  value = elim (literal e) [ none ↦ 0 | some b ↦ long_of b ];
  decl_type = a.decl_type;
  is_unsigned = a.is_unsigned;
}

unfoldable pub record_const : Table → Attrs → Ast → Table
record_const t a e =
    if a.is_const && is_scalar_int_type a.decl_type && is_literal e && ltb (length t) const_prop_max
    then t ++ entry_of a e ∷ []
    else t

-- `g_const_count = saved_count`
abbrev pub restore : Table → Table → Table
restore saved t = take (length saved) t

unfoldable mutual
  pub optimize_stmt : Table → Ast → Ast × Table
  optimize_stmt t null = (null, t)
  optimize_stmt t (node block a cs) =
      let (cs', t') = optimize_block t false cs in (node block a cs', restore t t')
  optimize_stmt t (node if_statement a (cons c (cons th nil))) =
      let c' = optimize_expr t c in
      let (th', t') = optimize_stmt t th in
      (decided c' th' empty_block (node if_statement a (cons c' (cons th' nil))), t')
  optimize_stmt t (node if_statement a (cons c (cons th (cons el rest)))) =
      let c' = optimize_expr t c in
      let (th', t') = optimize_stmt t th in
      let (el', t'') = optimize_stmt t' el in
      (decided c' th' el' (node if_statement a (cons c' (cons th' (cons el' rest)))), t'')
  optimize_stmt t (node while_statement a (cons c (cons body rest))) =
      let c' = optimize_expr t c in
      let (body', t') = optimize_stmt t body in
      let whole = node while_statement a (cons c' (cons body' rest)) in
      (decided c' whole empty_block whole, t')
  optimize_stmt t (node do_while_statement a (cons body (cons c rest))) =
      let (body', t') = optimize_stmt t body in
      (node do_while_statement a (cons body' (cons (optimize_expr t' c) rest)), t')
  optimize_stmt t (node for_statement a (cons init (cons c (cons update (cons body rest))))) =
      let (init', t') = optimize_stmt t init in
      let c' = optimize_expr t' c in
      let update' = optimize_expr t' update in
      let (body', t'') = optimize_stmt t' body in
      let whole = node for_statement a (cons init' (cons c' (cons update' (cons body' rest)))) in
      (decided c' whole (kept_init init') whole, t'')
  optimize_stmt t (node switch_statement a (cons c (cons body rest))) =
      let c' = optimize_expr t c in
      let (body', t') = optimize_stmt t body in
      (node switch_statement a (cons c' (cons body' rest)), t')
  optimize_stmt t (node return_statement a (cons e rest)) =
      (node return_statement a (cons (optimize_expr t e) rest), t)
  optimize_stmt t (node expression_stmt a (cons e rest)) =
      (node expression_stmt a (cons (optimize_expr t e) rest), t)
  optimize_stmt t (node declaration a (cons e rest)) =
      let e' = optimize_expr t e in (node declaration a (cons e' rest), record_const t a e')
  optimize_stmt t (node label_statement a cs) =
      let (cs', t') = optimize_stmts t cs in (node label_statement a cs', t')
  optimize_stmt t (node case_section a cs) =
      let (cs', t') = optimize_stmts t cs in (node case_section a cs', t')
  optimize_stmt t (node default_section a cs) =
      let (cs', t') = optimize_stmts t cs in (node default_section a cs', t')
  optimize_stmt t (node break_statement a cs) = (node break_statement a cs, t)
  optimize_stmt t (node continue_statement a cs) = (node continue_statement a cs, t)
  optimize_stmt t (node goto_statement a cs) = (node goto_statement a cs, t)
  optimize_stmt t (node k a cs) = (node k a (optimize_children t cs), t)

  pub optimize_stmts : Table → Children → Children × Table
  optimize_stmts t nil = (nil, t)
  optimize_stmts t (cons c cs) =
      let (c', t') = optimize_stmt t c in
      let (cs', t'') = optimize_stmts t' cs in (cons c' cs', t'')

  -- The loop over a block. `dead` is set from a terminal statement to the next label, and what
  -- stands between is dropped with no visit.
  pub optimize_block : Table → Bool → Children → Children × Table
  optimize_block t dead nil = (nil, t)
  optimize_block t dead (cons c cs) = elim (dead && not (is_label c)) [
    | true ↦ optimize_block t true cs
    | false ↦
        let (c', t') = optimize_stmt t c in
        let (cs', t'') = optimize_block t' (is_terminal_stmt c') cs in (cons c' cs', t'')
  ]

-- The body of a definition is a block. A prototype has none.
unfoldable pub optimize_body : Ast → Ast
optimize_body (node block a cs) = (optimize_stmt [] (node block a cs)).0
optimize_body e = e

unfoldable pub optimize_last : Children → Children
optimize_last nil = nil
optimize_last (cons c nil) = cons (optimize_body c) nil
optimize_last (cons c (cons d ds)) = cons c (optimize_last (cons d ds))

unfoldable pub optimize_top : Ast → Ast
optimize_top (node function_decl a cs) = node function_decl a (optimize_last cs)
optimize_top e = e

unfoldable pub optimize_tops : Children → Children
optimize_tops nil = nil
optimize_tops (cons c cs) = cons (optimize_top c) (optimize_tops cs)

-- The root is an AST_TRANSLATION_UNIT, not NULL.
unfoldable pub optimize_translation_unit : Ast → ℕ → Ast
optimize_translation_unit null opt_level = null
optimize_translation_unit (node k a cs) opt_level =
    if opt_level == 0 then node k a cs else node k a (optimize_tops cs)
