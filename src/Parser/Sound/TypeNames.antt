-- ===== src/Parser/Sound/TypeNames.antt =====
-- `parse_type_name`, src/parser.c, reads the names of types.
use claudec.Base.{
  ℕ, zero, suc, ◌+◌, ◌<◌, ◌≤◌, ◌==◌, ◌||◌, ◌&&◌, List, [], ◌∷◌, Bytes, ltb, refl, arith, inl, inr,
  Bool-cases, &&-eq-true, ltb→lt,
}
use claudec.CType.{CType, type_pointer}
use claudec.Long.{is_negative}
use claudec.Lexer.{TokenType}
use claudec.Parser.{Parser, Parsed, done, error, broken, ◌>>=◌, Parse, is, is_one_of, size}
use claudec.Parser.TypeNames.{
  skip_qualifiers, abstract_pointers, max_array_dims, array_dim, array_dims, base_qualifier,
  parse_type_name,
}
use claudec.Parser.Runs.{
  View, view, Next, Runs, returned, failed, broke, Reads, Parses, >>=-Runs, Runs-map, Runs-if,
  >>=-advance, >>=-expect, one_of, Stands, Advances, moved, advance-Advances,
}
use claudec.Parser.Words.{
  build_array_type_from_dims-ArrayOf, Qualifier, const, volatile, restrict, Qualifiers,
  no_qualifier, qualifier, Stars, no_star, star, Qualified, plain, constant, changing,
}
use claudec.Parser.Grammar.{Value, Dims, no_dim, open_dim, dim, TypeName, type_name}
use claudec.Parser.Sound.Specifiers.{parse_type_specifier-Reads}

-- Qualifiers that are passed.
data Skips (p : Parser) : Parsed Parser → Type 0 where
  skipped : {q : Parser} → Qualifiers (view p) (view q) → size q ≤ size p → Skips p (done q)
  not_skipped : {m : Bytes} → Skips p (error m)
  skip_broke : Skips p broken

skip_qualifiers-Skips : (fuel : ℕ) (p : Parser) → size p < fuel → Skips p (skip_qualifiers fuel p)
unfolding skip_qualifiers
skip_qualifiers-Skips zero p h = absurd (omega arith)
skip_qualifiers-Skips (suc fuel) p h =
    let ks = TokenType.const ∷ (TokenType.volatile ∷ (TokenType.restrict ∷ [])) in
    elim (Bool-cases (is_one_of ks p)) [
      | inl e ↦
          let (k, (i, s), j) =
            one_of {P = λ k. Qualifier k × Stands k} ks p
              ((const, refl), ((volatile, refl), ((restrict, refl), tt))) e in
          rw e (
            by_token k i (advance-Advances k p s j)
              (λ q d. skip_qualifiers-Skips fuel q (omega arith)))
      | inr e ↦ rw e (skipped no_qualifier (omega arith))
    ]
  where
    then_skipped :
        {k : TokenType} {q : Parser} {o : Parsed Parser}
        → Qualifier k
        → Next k (view p) (view q)
        → size q < size p
        → Skips q o
        → Skips p o
    then_skipped i x d (skipped y le) = skipped (qualifier i x y) (omega arith)
    then_skipped i x d not_skipped = not_skipped
    then_skipped i x d skip_broke = skip_broke

    by_token :
        (k : TokenType)
        → Qualifier k
        → {o : Parsed Parser} → Advances k p o
        → ((q : Parser) → size q < size p → Skips q (skip_qualifiers fuel q))
        → Skips p (o >>= λ p'. skip_qualifiers fuel p')
    by_token k i (moved {q} x d) rest = then_skipped i x d (rest q d)
    by_token k i Advances.failed rest = not_skipped
    by_token k i Advances.broke rest = skip_broke

>>=-skip :
    {B : Type 0} {Q : B → View → Type 0} {m : ℕ} (p : Parser) {o : Parsed Parser}
    (f : Parser → Parsed (B × Parser))
    → Skips p o
    → ((q : Parser) → Qualifiers (view p) (view q) → size q ≤ size p → Runs Q m (f q))
    → Runs Q m (o >>= f)
>>=-skip p f (skipped {q} x d) c = c q x d
>>=-skip p f not_skipped c = failed
>>=-skip p f skip_broke c = broke

abstract_pointers-Runs :
    (fuel : ℕ) (t : CType) (p : Parser)
    → size p < fuel
    → Runs (λ u w. Stars t (view p) w u) (size p) (abstract_pointers fuel t p)
unfolding abstract_pointers
abstract_pointers-Runs zero t p h = absurd (omega arith)
abstract_pointers-Runs (suc fuel) t p h =
    Runs-if (is TokenType.star p)
      (λ e. >>=-advance TokenType.star p refl e (λ q x d.
        >>=-skip q _ (skip_qualifiers-Skips (suc (size q)) q (omega arith)) (λ r y d'.
          Runs-map (abstract_pointers-Runs fuel (type_pointer t) r (omega arith)) (omega arith)
            (λ u w z. star x y z))))
      (λ _. returned no_star (omega arith))

-- A dimension with its bracket opens the list of those behind it.
abbrev Opens : ℕ → View → ℕ → View → Type 0
Opens i v d w = (u : View) (ds : List ℕ) → Dims (i + 1) w u ds → Dims i v u (d ∷ ds)

module _ (n : ℕ) (const_expr : Parse ℕ) (evaluates : Parses (Value 14) n const_expr) where
  -- Between the brackets: nothing, for the first one, or a constant that is greater than 0.
  array_dim-Runs :
      (i : ℕ) (v : View) (p : Parser)
      → i < max_array_dims
      → size p < n
      → Next TokenType.lbracket v (view p)
      → Runs (λ d w. Opens i v d w) (size p) (array_dim const_expr i p)
  unfolding array_dim
  array_dim-Runs i v p l h x =
      Runs-if ((i == 0) && is TokenType.rbracket p)
        (λ e.
          let (first, close) = &&-eq-true _ _ e in
          >>=-advance TokenType.rbracket p refl close
            (λ q y d. returned (λ u ds z. open_dim first x y z) (omega arith)))
        (λ _. >>=-Runs (evaluates p h) (λ r y le.
          Runs-if ((r.0 == 0) || is_negative r.0) (λ _. failed)
            (λ f.
              >>=-expect TokenType.rbracket r.1 refl _
                (λ q y₂ d. returned (λ u ds z. dim r.0 l x y f y₂ z) (omega arith)))))

  array_dims-Runs :
      (fuel i : ℕ) (p : Parser)
      → max_array_dims < fuel + i
      → i ≤ max_array_dims
      → size p ≤ n
      → Runs (λ ds w. Dims i (view p) w ds) (size p) (array_dims fuel const_expr i p)
  unfolding array_dims
  array_dims-Runs zero i p f l h = absurd (omega arith)
  array_dims-Runs (suc fuel) i p f m h =
      Runs-if (is TokenType.lbracket p)
        (λ e.
          Runs-if (ltb i max_array_dims)
            (λ l. >>=-advance TokenType.lbracket p refl e (λ q x d.
              >>=-Runs (array_dim-Runs i (view p) q (ltb→lt i 8 l) (omega arith) x) (λ r y le.
                >>=-Runs
                  (array_dims-Runs fuel (i + 1) r.1 (omega arith) (omega (arith, ltb→lt i 8 l))
                    (omega arith))
                  (λ ds z le'. returned (y (view ds.1) ds.0 z) (omega arith)))))
            (λ _. failed))
        (λ _. returned no_dim (omega arith))

  base_qualifier-Runs :
      (p : Parser) → Runs (λ f w. Qualified (view p) w f) (size p) (base_qualifier p)
  base_qualifier-Runs p =
      Runs-if (is TokenType.const p)
        (λ e. >>=-advance TokenType.const p refl e (λ q x d. returned (constant x) (omega arith)))
        (λ _.
          Runs-if (is TokenType.volatile p)
            (λ e.
              >>=-advance TokenType.volatile p refl e
                (λ q x d. returned (changing x) (omega arith)))
            (λ _. returned plain (omega arith)))

  -- A type name ends, and is a phrase of the grammar of type names.
  pub parse_type_name-Reads :
      (p : Parser) → size p ≤ n → Reads (TypeName) p (parse_type_name const_expr p)
  unfolding parse_type_name
  parse_type_name-Reads p h = >>=-Runs (base_qualifier-Runs p) (λ f x le.
      >>=-Runs (parse_type_specifier-Reads n const_expr evaluates f.1 (omega arith)) (λ t y le₂.
        >>=-Runs (abstract_pointers-Runs (suc (size t.1)) (f.0 t.0) t.1 (omega arith)) (λ u z le₃.
          >>=-Runs
            (array_dims-Runs (suc max_array_dims) 0 u.1 (omega arith) (omega arith) (omega arith))
            (λ ds w le₄.
              returned (type_name x y z w (build_array_type_from_dims-ArrayOf u.0 ds.0))
                (omega arith)))))
