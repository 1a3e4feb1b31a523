-- ===== src/Optimize/Stmt/Dead.antt =====
-- What is left of the blocks: no statement that control cannot reach from the one before it.
use claudec.Base.{
  ℕ, ◌+◌, ◌≤◌, Bool, true, false, not, ◌&&◌, Option, none, some, ◌≡◌, refl, arith, ◌==◌,
  if◌then◌else◌, Bool-cases, inl, inr, subst, sym, &&-eq-true,
}
use claudec.Ast.{
  return_statement, if_statement, while_statement, do_while_statement, for_statement,
  switch_statement, default_section, case_section, label_statement, block, expression_stmt,
  declaration, decl_list, Attrs, Ast, Children, null, node, nil, cons,
}
use claudec.Optimize.{literal, long_of}
use claudec.Optimize.Types.{Table}
use claudec.Optimize.Expr.{optimize_expr, optimize_children}
use claudec.Optimize.Stmt.{
  is_terminal_stmt, is_label, empty_block, decided, kept_init, optimize_stmt, optimize_stmts,
  optimize_block,
}

-- In every block that the statements of a tree make up, only a label follows a terminal statement.
mutual
  pub IsTidy : Ast → Type 0
  IsTidy null = Unit
  IsTidy (node block a cs) = IsTidyBlock false cs
  IsTidy (node if_statement a (cons c (cons th nil))) = IsTidy th
  IsTidy (node if_statement a (cons c (cons th (cons el cs)))) = IsTidy th × IsTidy el
  IsTidy (node while_statement a (cons c (cons body cs))) = IsTidy body
  IsTidy (node do_while_statement a (cons body (cons c cs))) = IsTidy body
  IsTidy (node for_statement a (cons init (cons c (cons u (cons body cs))))) =
      IsTidy init × IsTidy body
  IsTidy (node switch_statement a (cons c (cons body cs))) = IsTidy body
  IsTidy (node label_statement a cs) = AreTidy cs
  IsTidy (node case_section a cs) = AreTidy cs
  IsTidy (node default_section a cs) = AreTidy cs
  IsTidy (node _ a cs) = Unit

  pub AreTidy : Children → Type 0
  AreTidy nil = Unit
  AreTidy (cons c cs) = IsTidy c × AreTidy cs

  pub IsTidyBlock : Bool → Children → Type 0
  IsTidyBlock dead nil = Unit
  IsTidyBlock dead (cons c cs) =
      ((dead && not (is_label c)) ≡ false) × IsTidy c × IsTidyBlock (is_terminal_stmt c) cs

decided-IsTidy :
    (c taken skipped whole : Ast)
    → IsTidy taken
    → IsTidy skipped
    → IsTidy whole
    → IsTidy (decided c taken skipped whole)
decided-IsTidy c taken skipped whole p q r = by_literal (literal c)
  where
    by_literal :
        (o : Option Attrs)
        → IsTidy (elim o [ none ↦ whole | some b ↦ if long_of b == 0 then skipped else taken ])
    by_literal none = r
    by_literal (some b) = elim (Bool-cases (long_of b == 0)) [ inl e ↦ rw e q | inr e ↦ rw e p ]

kept_init-IsTidy : (e : Ast) → IsTidy e → IsTidy (kept_init e)
unfolding IsTidy
kept_init-IsTidy null h = tt
kept_init-IsTidy (node declaration a cs) h = h
kept_init-IsTidy (node decl_list a cs) h = h
kept_init-IsTidy (node _ a cs) h = tt

-- A label is kept and stays a label.
is_label-optimize_stmt :
    (t : Table) (c : Ast) → is_label c ≡ true → is_label (optimize_stmt t c).0 ≡ true
unfolding optimize_stmt
is_label-optimize_stmt t (node label_statement a cs) h = refl
is_label-optimize_stmt t (node case_section a cs) h = refl
is_label-optimize_stmt t (node default_section a cs) h = refl
is_label-optimize_stmt t _ h = cc

still_reached :
    (dead : Bool) (t : Table) (c : Ast)
    → (dead && not (is_label c)) ≡ false
    → (dead && not (is_label (optimize_stmt t c).0)) ≡ false
still_reached false t c h = refl
still_reached true t c h = rw (is_label-optimize_stmt t c (ground arith))

mutual
  unfolding optimize_stmt optimize_stmts optimize_block optimize_children IsTidy AreTidy IsTidyBlock

  IsTidy-stmt : (t : Table) (s : Ast) → IsTidy (optimize_stmt t s).0
  IsTidy-stmt t null = tt
  IsTidy-stmt t (node block a cs) = IsTidyBlock-block t false cs
  IsTidy-stmt t (node if_statement a (cons c (cons th nil))) =
      decided-IsTidy (optimize_expr t c) _ empty_block _ (IsTidy-stmt t th) tt (IsTidy-stmt t th)
  IsTidy-stmt t (node if_statement a (cons c (cons th (cons el rest)))) =
      let p = IsTidy-stmt t th in
      let q = IsTidy-stmt (optimize_stmt t th).1 el in
      decided-IsTidy (optimize_expr t c) _ _ _ p q (p, q)
  IsTidy-stmt t (node while_statement a (cons c (cons body rest))) =
      let p = IsTidy-stmt t body in decided-IsTidy (optimize_expr t c) _ empty_block _ p tt p
  IsTidy-stmt t (node do_while_statement a (cons body (cons c rest))) = IsTidy-stmt t body
  IsTidy-stmt t (node for_statement a (cons init (cons c (cons update (cons body rest))))) =
      let p = IsTidy-stmt t init in
      let q = IsTidy-stmt (optimize_stmt t init).1 body in
      decided-IsTidy (optimize_expr (optimize_stmt t init).1 c) _ _ _ (p, q) (kept_init-IsTidy _ p)
        (p, q)
  IsTidy-stmt t (node switch_statement a (cons c (cons body rest))) = IsTidy-stmt t body
  IsTidy-stmt t (node return_statement a (cons e rest)) = tt
  IsTidy-stmt t (node expression_stmt a (cons e rest)) = tt
  IsTidy-stmt t (node declaration a (cons e rest)) = tt
  IsTidy-stmt t (node label_statement a cs) = AreTidy-stmts t cs
  IsTidy-stmt t (node case_section a cs) = AreTidy-stmts t cs
  IsTidy-stmt t (node default_section a cs) = AreTidy-stmts t cs
  IsTidy-stmt t (node _ a cs) = tt

  AreTidy-stmts : (t : Table) (cs : Children) → AreTidy (optimize_stmts t cs).0
  AreTidy-stmts t nil = tt
  AreTidy-stmts t (cons c cs) = (IsTidy-stmt t c, AreTidy-stmts (optimize_stmt t c).1 cs)

  IsTidyBlock-block :
      (t : Table) (dead : Bool) (cs : Children) → IsTidyBlock dead (optimize_block t dead cs).0
  IsTidyBlock-block t dead nil = tt
  IsTidyBlock-block t dead (cons c cs) = elim (Bool-cases (dead && not (is_label c))) [
    | inl e ↦
        rw (e, optimize_block)
          (subst (λ d. IsTidyBlock d (optimize_block t true cs).0) (sym (&&-eq-true dead _ e).0)
            (IsTidyBlock-block t true cs))
    | inr e ↦
        rw (e, optimize_block)
          (
            still_reached dead t c e,
            IsTidy-stmt t c,
            IsTidyBlock-block (optimize_stmt t c).1 (is_terminal_stmt (optimize_stmt t c).0) cs,
          )
  ]

-- After `optimize_stmt`, in every block that is reached from the statement through statements, the
-- statement after a `return`, `break`, `continue` or `goto` is a label.
pub optimize_stmt-IsTidy : (t : Table) (s : Ast) → IsTidy (optimize_stmt t s).0
optimize_stmt-IsTidy t s = IsTidy-stmt t s

-- The labels among the statements of a block.
abbrev pub labels : Children → ℕ
labels nil = 0
labels (cons c cs) = (if is_label c then 1 else 0) + labels cs

-- After the walk over a block, as many of its own statements are labels as before, or more.
labels-optimize_block :
    (t : Table) (dead : Bool) (cs : Children) → labels cs ≤ labels (optimize_block t dead cs).0
unfolding optimize_block
labels-optimize_block t dead nil = omega arith
labels-optimize_block t dead (cons c cs) = elim (Bool-cases (dead && not (is_label c))) [
  | inl e ↦ rw (e, optimize_block) (ground (arith, labels-optimize_block t true cs))
  | inr e ↦
      let rest =
        labels-optimize_block (optimize_stmt t c).1 (is_terminal_stmt (optimize_stmt t c).0) cs in
      rw (e, optimize_block) (ground (arith, is_label-optimize_stmt t c))
]
