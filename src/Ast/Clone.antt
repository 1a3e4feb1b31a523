-- ===== src/Ast/Clone.antt =====
-- `ast_clone` of src/ast.c gives the nodes of the original.
use claudec.Base.{false, ◌≡◌, refl, sym, ap, ap₂, ◌∙◌, arith}
use claudec.Ast.{
  Attrs, Ast, Children, null, node, nil, cons, append, cloned_attrs, ast_clone, clone_onto,
}

append-nil : (cs : Children) → append cs nil ≡ cs
append-nil nil = refl
append-nil (cons c cs) = ap (cons c) (append-nil cs)

append_assoc : (cs ds es : Children) → append (append cs ds) es ≡ append cs (append ds es)
append_assoc nil ds es = refl
append_assoc (cons c cs) ds es = ap (cons c) (append_assoc cs ds es)

-- No node declares a function without a prototype.
unfoldable mutual
  pub HasPrototypes : Ast → Type 0
  HasPrototypes null = Unit
  HasPrototypes (node t a cs) = (a.is_no_prototype ≡ false) × AllHavePrototypes cs

  pub AllHavePrototypes : Children → Type 0
  AllHavePrototypes nil = Unit
  AllHavePrototypes (cons c cs) = HasPrototypes c × AllHavePrototypes cs

cloned_attrs_same : (a : Attrs) → a.is_no_prototype ≡ false → cloned_attrs a ≡ a
cloned_attrs_same a h = ground arith

mutual
  unfolding ast_clone clone_onto HasPrototypes AllHavePrototypes

  clone_same : (e : Ast) → HasPrototypes e → ast_clone e ≡ e
  clone_same null h = refl
  clone_same (node t a cs) h = ap₂ (node t) (cloned_attrs_same a h.0) (clone_onto_same nil cs h.1)

  clone_onto_same :
      (done cs : Children) → AllHavePrototypes cs → clone_onto done cs ≡ append done cs
  clone_onto_same done nil h = sym (append-nil done)
  clone_onto_same done (cons c cs) h =
      clone_onto_same (append done (cons (ast_clone c) nil)) cs h.1
      ∙ append_assoc done (cons (ast_clone c) nil) cs
      ∙ ap (λ d. append done (cons d cs)) (clone_same c h.0)

-- A clone of a tree is an equal tree, if no node in it has the flag `is_no_prototype`.
pub ast_clone_same : (e : Ast) → HasPrototypes e → ast_clone e ≡ e
ast_clone_same e h = clone_same e h
