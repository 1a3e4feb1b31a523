-- ===== src/Optimize/Sound/Casts.antt =====
-- The blocks on casts and constant locals, and what `cast_value_safe` decides.
use claudec.Base.{
  >>=-eq-some, ℕ, ◌%◌, ◌^◌, Bool, true, false, not, Option, none, some, ◌≡◌, ◌↔◌, refl, ap, ◌∙◌,
  arith, ◌==◌, if◌then◌else◌, Bytes,
}
use claudec.CType.{TypeKind, bool, char, short, int, long, long_long}
use claudec.Ast.{var_ref, cast, Attrs, Ast, node, nil, cons}
use claudec.Long.{IsLong, lt_long, of_bool}
use claudec.Optimize.{literal, long_of, new_literal}
use claudec.Optimize.Types.{
  Table, ConstEntry, const_prop_lookup, cast_value_safe, cast_literal, cast_folding, entry_literal,
  propagate, const_propagation,
}
use claudec.Optimize.Eval.{Env, sign_extend, convert, variable, eval}
use claudec.Optimize.Sound.Values.{
  EnvFits, Refines, signed_only-eq-some, eval-new_literal, eval-IsLong, cast_eval,
}
use claudec.Optimize.Sound.Literals.{eval-literal}

-- A `long` after a conversion to an integer type below 64 bits, read back as a `long`.
abbrev pub narrowed : TypeKind → Bool → ℕ → ℕ
narrowed bool u v = of_bool (not (v == 0))
narrowed char u v = if u then v % 2 ^ 8 else sign_extend (2 ^ 7) (2 ^ 8) v
narrowed short u v = if u then v % 2 ^ 16 else sign_extend (2 ^ 15) (2 ^ 16) v
narrowed int u v = if u then v % 2 ^ 32 else sign_extend (2 ^ 31) (2 ^ 32) v
narrowed _ u v = v

abbrev pub is_narrow : TypeKind → Bool
is_narrow bool = true
is_narrow char = true
is_narrow short = true
is_narrow int = true
is_narrow _ = false

-- For a `long` and a type below 64 bits, `cast_value_safe` is true exactly when the conversion to the
-- type keeps the value.
pub cast_value_safe_iff :
    (k : TypeKind) (u : Bool) (v : ℕ)
    → IsLong v
    → is_narrow k ≡ true
    → (cast_value_safe v k u ≡ true) ↔ (narrowed k u v ≡ v)
unfolding cast_value_safe lt_long
cast_value_safe_iff bool u v h n = ground arith
cast_value_safe_iff char u v h n = ground arith
cast_value_safe_iff short u v h n = ground arith
cast_value_safe_iff int u v h n = ground arith
cast_value_safe_iff _ u v h n = cc

-- The constants of the table are the values of signed variables.
abbrev pub Agrees : Env → Table → Type 0
Agrees env t =
    (x : Bytes) (e : ConstEntry)
    → const_prop_lookup x t ≡ some e
    → (e.is_unsigned ≡ false) × (env x ≡ some e.value)

convert-narrowed :
    (k : TypeKind) (v w : ℕ)
    → IsLong v
    → cast_value_safe v k false ≡ true
    → convert k v ≡ some w
    → v ≡ w
unfolding convert
convert-narrowed bool v w p h m = ground (arith, cast_value_safe_iff bool false v)
convert-narrowed char v w p h m = ground (arith, cast_value_safe_iff char false v)
convert-narrowed short v w p h m = ground (arith, cast_value_safe_iff short false v)
convert-narrowed int v w p h m = ground (arith, cast_value_safe_iff int false v)
convert-narrowed long v w p h m = cc
convert-narrowed long_long v w p h m = cc
convert-narrowed _ v w p h m = cc

cast_literal_inv :
    (n : Attrs) (x : Option Attrs) (e : Ast)
    → cast_literal n x ≡ some e
    → (a : Attrs) × (x ≡ some a)
      × (cast_value_safe (long_of a) n.decl_type n.is_unsigned ≡ true)
      × (e ≡ new_literal (long_of a) n.decl_type n.is_unsigned)
cast_literal_inv n none e h = cc
cast_literal_inv n (some a) e h = (a, refl, ground arith, ground arith)

propagate_inv :
    (t : Table) (x : Option Bytes) (e : Ast)
    → propagate t x ≡ some e
    → (y : Bytes) × (c : ConstEntry) × (x ≡ some y)
      × (const_prop_lookup y t ≡ some c)
      × (e ≡ new_literal c.value c.decl_type c.is_unsigned)
propagate_inv t none e h = cc
propagate_inv t (some y) e h = found (const_prop_lookup y t) refl h
  where
    found :
        (o : Option ConstEntry)
        → const_prop_lookup y t ≡ o
        → entry_literal o ≡ some e
        → (y' : Bytes) × (c : ConstEntry) × (some y ≡ some y')
          × (const_prop_lookup y' t ≡ some c)
          × (e ≡ new_literal c.value c.decl_type c.is_unsigned)
    found none p q = cc
    found (some c) p q = (y, c, refl, p, cc)

module _ (env : Env) (fits : EnvFits env) where
  pub cast_folding_sound : (e e' : Ast) → cast_folding e ≡ some e' → Refines env e e'
  unfolding cast_folding
  cast_folding_sound (node cast n (cons x nil)) e' h v m =
      let (u, q) = cast_eval env n x v m in
      let (a, la, safe, p) = cast_literal_inv n (literal x) e' h in
      let (b, r, c) = >>=-eq-some (eval env x) (convert n.decl_type) q in
      let (s, w) = signed_only-eq-some a (some (long_of a)) (rw (eval-literal env x a la) at r) in
      let same : b ≡ long_of a = cc w in
      let kept : long_of a ≡ v =
        convert-narrowed n.decl_type (long_of a) v (rw same at (eval-IsLong env fits x b r))
          (rw u at safe) (rw same at c) in
      rw (p, u, kept) (eval-new_literal env v n.decl_type (eval-IsLong env fits _ v m))
  cast_folding_sound _ e' h v m = cc

  pub const_propagation_sound :
      (t : Table) → Agrees env t → (e e' : Ast) → const_propagation t e ≡ some e' → Refines env e e'
  unfolding const_propagation eval
  const_propagation_sound t agree (node var_ref n cs) e' h v m =
      let (y, c, x, l, p) = propagate_inv t n.value e' h in
      let (s, q) = signed_only-eq-some n (variable env n.value) m in
      let (u, w) = agree y c l in
      let kept : c.value ≡ v = cc (rw x at q, w) in
      rw (p, u, kept) (eval-new_literal env v c.decl_type (fits y v (w ∙ ap some kept)))
  const_propagation_sound t agree _ e' h v m = cc
