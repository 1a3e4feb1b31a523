-- ===== src/Optimize/Stmt/Scope.antt =====
-- The table of constants follows the scopes: statements only add to it, a block takes back what it
-- added, and it never outgrows its array.
use claudec.Base.{
  ◌≤◌, Bool, true, false, not, ◌&&◌, List, [], ◌∷◌, ◌++◌, ◌≡◌, refl, sym, ap, ◌∙◌, arith, ltb,
  ltb→lt, length, take, length-append, Bool-cases, inl, inr,
}
use mathlib.Core.List.{append-nil, append_assoc}
use claudec.Ast.{
  return_statement, if_statement, while_statement, do_while_statement, for_statement,
  switch_statement, default_section, case_section, label_statement, block, expression_stmt,
  declaration, Attrs, Ast, Children, null, node, nil, cons,
}
use claudec.Optimize.{is_literal}
use claudec.Optimize.Types.{Table, ConstEntry, const_prop_max, is_scalar_int_type}
use claudec.Optimize.Expr.{optimize_expr}
use claudec.Optimize.Stmt.{
  is_terminal_stmt, is_label, entry_of, record_const, restore, optimize_stmt, optimize_stmts,
  optimize_block,
}

-- `t'` has the entries of `t` first, and no more than the array holds.
record Grows (t t' : Table) : Type 0 where
  added : List ConstEntry
  extends : t' ≡ t ++ added
  fits : length t ≤ const_prop_max → length t' ≤ const_prop_max

Grows-refl : (t : Table) → Grows t t
Grows-refl t = record { added = []; extends = sym (append-nil t); fits = λ h. h }

Grows-trans : (t u v : Table) → Grows t u → Grows u v → Grows t v
Grows-trans t u v g h = record {
  added = g.added ++ h.added;
  extends = h.extends ∙ ap (λ w. w ++ h.added) g.extends ∙ append_assoc t g.added h.added;
  fits = λ p. h.fits (g.fits p);
}

take-append : (t u : Table) → take (length t) (t ++ u) ≡ t
take-append [] u = refl
take-append (e ∷ t) u = ap (◌∷◌ e) (take-append t u)

restored : (t t' : Table) → Grows t t' → restore t t' ≡ t
restored t t' g = rw g.extends (take-append t g.added)

Grows-record_const : (t : Table) (a : Attrs) (e : Ast) → Grows t (record_const t a e)
unfolding record_const
Grows-record_const t a e =
    elim (Bool-cases (
      a.is_const
      && is_scalar_int_type a.decl_type
      && is_literal e
      && ltb (length t) const_prop_max)) [
        | inl p ↦ rw p (record {
          added = entry_of a e ∷ [];
          extends = refl;
          fits = λ h. omega (
            arith,
            length-append t (entry_of a e ∷ []),
            ltb→lt (length t) const_prop_max (ground arith),
          );
        })
        | inr p ↦ rw p (Grows-refl t)
      ]

mutual
  unfolding optimize_stmt optimize_stmts optimize_block

  stmt-Grows : (t : Table) (s : Ast) → Grows t (optimize_stmt t s).1
  stmt-Grows t null = Grows-refl t
  stmt-Grows t (node block a cs) = rw (restored t _ (block-Grows t false cs)) (Grows-refl t)
  stmt-Grows t (node if_statement a (cons c (cons th nil))) = stmt-Grows t th
  stmt-Grows t (node if_statement a (cons c (cons th (cons el rest)))) =
      Grows-trans t _ _ (stmt-Grows t th) (stmt-Grows (optimize_stmt t th).1 el)
  stmt-Grows t (node while_statement a (cons c (cons body rest))) = stmt-Grows t body
  stmt-Grows t (node do_while_statement a (cons body (cons c rest))) = stmt-Grows t body
  stmt-Grows t (node for_statement a (cons init (cons c (cons update (cons body rest))))) =
      Grows-trans t _ _ (stmt-Grows t init) (stmt-Grows (optimize_stmt t init).1 body)
  stmt-Grows t (node switch_statement a (cons c (cons body rest))) = stmt-Grows t body
  stmt-Grows t (node return_statement a (cons e rest)) = Grows-refl t
  stmt-Grows t (node expression_stmt a (cons e rest)) = Grows-refl t
  stmt-Grows t (node declaration a (cons e rest)) = Grows-record_const t a (optimize_expr t e)
  stmt-Grows t (node label_statement a cs) = stmts-Grows t cs
  stmt-Grows t (node case_section a cs) = stmts-Grows t cs
  stmt-Grows t (node default_section a cs) = stmts-Grows t cs
  stmt-Grows t (node _ a cs) = Grows-refl t

  stmts-Grows : (t : Table) (cs : Children) → Grows t (optimize_stmts t cs).1
  stmts-Grows t nil = Grows-refl t
  stmts-Grows t (cons c cs) =
      Grows-trans t _ _ (stmt-Grows t c) (stmts-Grows (optimize_stmt t c).1 cs)

  block-Grows : (t : Table) (dead : Bool) (cs : Children) → Grows t (optimize_block t dead cs).1
  block-Grows t dead nil = Grows-refl t
  block-Grows t dead (cons c cs) = elim (Bool-cases (dead && not (is_label c))) [
    | inl e ↦ rw (e, optimize_block) (block-Grows t true cs)
    | inr e ↦
        rw (e, optimize_block)
          (Grows-trans t _ _ (stmt-Grows t c)
            (block-Grows (optimize_stmt t c).1 (is_terminal_stmt (optimize_stmt t c).0) cs))
  ]

-- From a table within its 64 entries, a statement only appends to the table of constants, and the
-- result is within 64 entries.
pub optimize_stmt-appends :
    (t : Table) (s : Ast)
    → length t ≤ const_prop_max
    → (added : List ConstEntry) × ((optimize_stmt t s).1 ≡ t ++ added)
      × (length (optimize_stmt t s).1 ≤ const_prop_max)
optimize_stmt-appends t s h = let g = stmt-Grows t s in (g.added, g.extends, g.fits h)

-- After a block the table of constants is what it was before the block.
pub optimize_stmt-block_scope :
    (t : Table) (a : Attrs) (cs : Children) → (optimize_stmt t (node block a cs)).1 ≡ t
unfolding optimize_stmt
optimize_stmt-block_scope t a cs = restored t _ (block-Grows t false cs)
