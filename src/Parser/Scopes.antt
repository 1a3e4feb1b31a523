-- ===== src/Parser/Scopes.antt =====
-- The scopes of typedef names: `parser_register_typedef`, `parser_find_typedef` and
-- `parser_leave_scope`, src/parser.c.
use mathlib.Core.List.{append_assoc, append-nil}
use claudec.Base.{
  ℕ, ◌+◌, ◌≤◌, Bool, true, false, none, some, List, [], ◌∷◌, ◌++◌, Bytes, ltb, str_eq, ◌≡◌, refl,
  sym, ap, ap₂, subst, ◌∙◌, arith, if◌then◌else◌,
}
use claudec.CType.{TypeKind, CType}
use claudec.Parser.{TypedefEntry, Parser, done, error}
use claudec.Parser.Tables.{
  last_typedef, parser_find_typedef, is_taken, parser_register_typedef, entries_below,
  parser_leave_scope, enter_scope,
}

abbrev pub entry : Bytes → TypeKind → CType → ℕ → TypedefEntry
entry name kind t depth = record { name = name; kind = kind; full_type = t; scope_depth = depth }

-- No entry is of a scope that is not open.
abbrev pub AtMost : ℕ → List TypedefEntry → Type 0
AtMost d [] = Unit {0}
AtMost d (e ∷ es) = (e.scope_depth ≤ d) × AtMost d es

-- Calls of `parser_register_typedef` that succeed, one after the other, and blocks that are entered and
-- left between them.
pub data Scoped : Parser → Parser → Type 0 where
  nothing : {p : Parser} → Scoped p p
  registers :
      (name : Bytes) (kind : TypeKind) (t : CType) {p q r : Parser}
      → parser_register_typedef name kind t p ≡ done q
      → Scoped q r
      → Scoped p r
  block : {p q r : Parser} → Scoped (enter_scope p) q → Scoped (parser_leave_scope q) r → Scoped p r

-- Entries of one scope.
abbrev Exactly : ℕ → List TypedefEntry → Type 0
Exactly d [] = Unit {0}
Exactly d (e ∷ es) = (e.scope_depth ≡ d) × Exactly d es

-- The second parser has entries of its scope behind those of the first.
record Adds (p q : Parser) : Type 0 where
  added : List TypedefEntry
  table : q.typedefs ≡ p.typedefs ++ added
  depth : q.scope_depth ≡ p.scope_depth
  own : Exactly p.scope_depth added

Exactly-append :
    (d : ℕ) (es fs : List TypedefEntry) → Exactly d es → Exactly d fs → Exactly d (es ++ fs)
Exactly-append d [] fs x y = y
Exactly-append d (e ∷ es) fs (h, x) y = (h, Exactly-append d es fs x y)

entries_below-append :
    (d : ℕ) (es fs : List TypedefEntry)
    → AtMost d es
    → Exactly (d + 1) fs
    → entries_below (d + 1) (es ++ fs) ≡ es
unfolding entries_below
entries_below-append d [] [] x y = refl
entries_below-append d [] (f ∷ fs) x (h, y) =
    let drops : ltb f.scope_depth (d + 1) ≡ false = ground arith in
    rw drops (entries_below-append d [] fs x y)
entries_below-append d (e ∷ es) fs (h, x) y =
    let keeps : ltb e.scope_depth (d + 1) ≡ true = ground arith in
    rw keeps (ap (e ∷◌) (entries_below-append d es fs x y))

-- A block that is left gives the table back.
block_leaves :
    (p q : Parser)
    → AtMost p.scope_depth p.typedefs
    → Adds (enter_scope p) q
    → ((parser_leave_scope q).typedefs ≡ p.typedefs)
      × ((parser_leave_scope q).scope_depth ≡ p.scope_depth)
unfolding parser_leave_scope
block_leaves p q x a = (
  ap₂ entries_below a.depth a.table ∙ entries_below-append p.scope_depth p.typedefs a.added x a.own,
  omega (arith, a.depth),
)

-- What is registered is an entry of the scope.
register-Adds :
    (name : Bytes) (kind : TypeKind) (t : CType) (p q : Parser)
    → parser_register_typedef name kind t p ≡ done q
    → Adds p q
unfolding parser_register_typedef
register-Adds name kind t p q h = by_test (is_taken p.typedefs p.scope_depth name) _ h
  where
    new : TypedefEntry
    new = entry name kind t p.scope_depth

    by_test :
        (b : Bool) (m : Bytes)
        → (if b then error m else done (record p { typedefs = p.typedefs ++ new ∷ [] })) ≡ done q
        → Adds p q
    by_test true m e = cc
    by_test false m e =
        let same : record p { typedefs = p.typedefs ++ new ∷ [] } ≡ q = cc in
        record {
          added = new ∷ [];
          table = ap (λ (r : Parser). r.typedefs) (sym same);
          depth = ap (λ (r : Parser). r.scope_depth) (sym same);
          own = (refl, tt);
        }

AtMost-append :
    (d : ℕ) (es fs : List TypedefEntry) → AtMost d es → Exactly d fs → AtMost d (es ++ fs)
AtMost-append d [] [] x y = tt
AtMost-append d [] (f ∷ fs) x (h, y) = (omega arith, AtMost-append d [] fs x y)
AtMost-append d (e ∷ es) fs (h, x) y = (h, AtMost-append d es fs x y)

AtMost-weaken : (d : ℕ) (es : List TypedefEntry) → AtMost d es → AtMost (d + 1) es
AtMost-weaken d [] x = tt
AtMost-weaken d (e ∷ es) (h, x) = (omega arith, AtMost-weaken d es x)

Adds-AtMost :
    (p q : Parser) → AtMost p.scope_depth p.typedefs → Adds p q → AtMost q.scope_depth q.typedefs
Adds-AtMost p q x a = rw (a.depth, a.table) (AtMost-append p.scope_depth p.typedefs a.added x a.own)

Adds-trans : (p q r : Parser) → Adds p q → Adds q r → Adds p r
Adds-trans p q r a b = record {
  added = a.added ++ b.added;
  table = b.table ∙ ap (◌++ b.added) a.table ∙ append_assoc p.typedefs a.added b.added;
  depth = b.depth ∙ a.depth;
  own =
      Exactly-append p.scope_depth a.added b.added a.own
        (subst (λ d. Exactly d b.added) a.depth b.own);
}

Scoped-Adds : {p r : Parser} → AtMost p.scope_depth p.typedefs → Scoped p r → Adds p r
Scoped-Adds {p} x nothing = record {
  added = [];
  table = sym (append-nil p.typedefs);
  depth = refl;
  own = tt;
}
Scoped-Adds {p} {r} x (registers name kind t {q = q} e s) =
    let a = register-Adds name kind t p q e in
    Adds-trans p q r a (Scoped-Adds (Adds-AtMost p q x a) s)
Scoped-Adds {p} {r} x (block {q = q} s s') =
    let inner = Scoped-Adds (AtMost-weaken p.scope_depth p.typedefs x) s in
    let (same, depth) = block_leaves p q x inner in
    let a : Adds p (parser_leave_scope q) = record {
      added = [];
      table = same ∙ sym (append-nil p.typedefs);
      depth = depth;
      own = tt;
    } in
    Adds-trans p (parser_leave_scope q) r a
      (Scoped-Adds (Adds-AtMost p (parser_leave_scope q) x a) s')

-- From a table in which no entry is deeper than the current scope: after a block has been entered, has
-- registered typedefs and entered and left blocks inside of it, leaving it gives back the table of
-- typedefs and the depth from before it was entered.
pub parser_leave_scope-restores :
    (p q : Parser)
    → AtMost p.scope_depth p.typedefs
    → Scoped (enter_scope p) q
    → ((parser_leave_scope q).typedefs ≡ p.typedefs)
      × ((parser_leave_scope q).scope_depth ≡ p.scope_depth)
parser_leave_scope-restores p q x s =
    block_leaves p q x (Scoped-Adds (AtMost-weaken p.scope_depth p.typedefs x) s)

last_typedef-append :
    (es : List TypedefEntry) (e : TypedefEntry) (name : Bytes)
    → last_typedef (es ++ e ∷ []) name
      ≡ (if str_eq e.name name then some e else last_typedef es name)
unfolding last_typedef
last_typedef-append [] e name = refl
last_typedef-append (f ∷ fs) e name =
    rw (last_typedef-append fs e name) (by_test (str_eq e.name name))
  where
    by_test :
        (b : Bool)
        → (elim (if b then some e else last_typedef fs name) [
          | some later ↦ some later
          | none ↦ if str_eq f.name name then some f else none
        ])
          ≡ (if b then some e else last_typedef (f ∷ fs) name)
    by_test true = refl
    by_test false = refl

-- Where a typedef is registered, its name is then found with its kind, its type and the current depth,
-- whatever it was before, and every other name is found as before.
pub parser_find_typedef-register :
    (name other : Bytes) (kind : TypeKind) (t : CType) (p q : Parser)
    → parser_register_typedef name kind t p ≡ done q
    → parser_find_typedef q other ≡ (
        if str_eq name other
        then some (entry name kind t p.scope_depth)
        else parser_find_typedef p other)
unfolding parser_find_typedef parser_register_typedef
parser_find_typedef-register name other kind t p q h =
    by_test (is_taken p.typedefs p.scope_depth name) _ h
  where
    new : TypedefEntry
    new = entry name kind t p.scope_depth

    by_test :
        (b : Bool) (m : Bytes)
        → (if b then error m else done (record p { typedefs = p.typedefs ++ new ∷ [] })) ≡ done q
        → last_typedef q.typedefs other
          ≡ (if str_eq name other then some new else last_typedef p.typedefs other)
    by_test true m e = cc
    by_test false m e =
        let same : record p { typedefs = p.typedefs ++ new ∷ [] } ≡ q = cc in
        ap (λ (r : Parser). last_typedef r.typedefs other) (sym same)
        ∙ last_typedef-append p.typedefs new other
