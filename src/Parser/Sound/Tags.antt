-- ===== src/Parser/Sound/Tags.antt =====
-- `parse_enum_specifier` and its like, src/parser.c, read enumerations and tags.
use claudec.Base.{ℕ, zero, suc, ◌≤◌, ◌<◌, true, false, Option, none, some, Bytes, ◌≡◌, refl, arith}
use claudec.CType.{CType, type_struct, type_union}
use claudec.Lexer.{TokenType}
use claudec.Parser.{EnumConst, Parser, Parse, is, size}
use claudec.Parser.Tables.{find_enum_const}
use claudec.Parser.Tags.{
  is_const, enum_value, with_const, enumerator_rest, enumerators, defined_tag, enum_body,
  enum_reference, enum_rest, enum_tag, parse_enum_specifier, tag_or_body, tagged_type,
  struct_reference, union_reference, parse_struct_specifier, parse_union_specifier,
}
use claudec.Parser.Names.{Finds, found, missing, find_enum_const-Finds, refer-Refers}
use claudec.Parser.Runs.{
  View, view, Next, Runs, returned, failed, outside, Reads, Parses, >>=-Runs, Runs-map, Runs-if,
  >>=-advance, >>=-expect, Stands,
}
use claudec.Parser.Symbols.{Optional, left_out, there}
use claudec.Parser.Grammar.{
  Value, BaseType, enumeration, enum_tag as enum_tag_phrase, struct_tag, union_tag, Enumerators,
  no_enumerator, enumerator, EnumValue, next_value, given_value,
}
use claudec.Parser.Sound.Initializer.{>>=-skip_if}

none_found :
    {P : EnumConst → Type 0} {Q : Type 0} {o : Option EnumConst}
    → Finds P Q o
    → is_const o ≡ false
    → Q
none_found (found x) e = cc
none_found (missing x) e = x

size-with_const : (name : Bytes) (v : ℕ) (p : Parser) → size (with_const name v p) ≡ size p
unfolding size
size-with_const name v p = refl

module _ (n : ℕ) (eval_const_expr : Parse ℕ) (evaluates : Parses (Value 14) n eval_const_expr) where
  enum_value-Runs :
      (k : ℕ) (p : Parser)
      → size p ≤ n
      → Runs (λ m w. EnumValue k (view p) w m) (size p) (enum_value eval_const_expr k p)
  unfolding enum_value
  enum_value-Runs k p h =
      Runs-if (is TokenType.assign p)
        (λ e. >>=-advance TokenType.assign p refl e (λ q x d.
          >>=-Runs (evaluates q (omega arith))
            (λ r y le. returned (given_value x y) (omega arith))))
        (λ _. returned next_value (omega arith))

  -- An enumerator behind its name leaves the ones behind it.
  enumerator_rest-Runs :
      (v : View) (k : ℕ) (p : Parser)
      → size p ≤ n
      → Next TokenType.identifier v (view p)
      → Runs
          (λ m w. (u : View) (j : ℕ) → Enumerators m w u j → Enumerators k v u j)
          (size p)
          (enumerator_rest eval_const_expr v.0.value k p)
  unfolding enumerator_rest
  enumerator_rest-Runs v k p h x =
      Runs-if (is_const (find_enum_const p.enum_consts v.0.value)) (λ _. failed)
        (λ f. >>=-Runs (enum_value-Runs k p h) (λ r y le.
          >>=-skip_if TokenType.comma (with_const v.0.value r.0 r.1) _ refl (λ q d o.
            let same = size-with_const v.0.value r.0 r.1 in
            returned
              (λ u j z.
                enumerator x (none_found (find_enum_const-Finds p.enum_consts v.0.value) f) y o z)
              (omega arith))))

  enumerators-Runs :
      (fuel k : ℕ) (p : Parser)
      → size p < fuel
      → size p ≤ n
      → Runs (λ j w. Enumerators k (view p) w j) (size p) (enumerators fuel eval_const_expr k p)
  unfolding enumerators
  enumerators-Runs zero k p f h = absurd (omega arith)
  enumerators-Runs (suc fuel) k p f h =
      Runs-if (is TokenType.rbrace p) (λ _. returned no_enumerator (omega arith))
        (λ _.
          Runs-if (is TokenType.identifier p)
            (λ e. >>=-advance TokenType.identifier p refl e (λ q x d.
              >>=-Runs (enumerator_rest-Runs (view p) k q (omega arith) x) (λ r y le.
                Runs-map (enumerators-Runs fuel r.0 r.1 (omega arith) (omega arith)) (omega arith)
                  (λ j w z. y w j z))))
            (λ _. failed))

  enum_body-Runs :
      (v v₁ v₂ : View) (tag : Option Bytes) (p : Parser)
      → size p ≤ n
      → Next TokenType.enum v v₁
      → Optional TokenType.identifier v₁ v₂
      → Next TokenType.lbrace v₂ (view p)
      → Runs (λ t w. BaseType v w t) (size p) (enum_body eval_const_expr tag p)
  unfolding enum_body size
  enum_body-Runs v v₁ v₂ none p h x o y =
      >>=-Runs (enumerators-Runs (suc (size p)) 0 p (omega arith) h) (λ r z le.
        >>=-expect TokenType.rbrace r.1 refl _
          (λ q y' d. returned (enumeration x o y z y') (omega arith)))
  enum_body-Runs v v₁ v₂ (some tag) p h x o y =
      let p' = defined_tag (some tag) p in
      >>=-Runs (enumerators-Runs (suc (size p')) 0 p' (omega arith) h) (λ r z le.
        >>=-expect TokenType.rbrace r.1 refl _
          (λ q y' d. returned (enumeration x o y z y') (omega arith)))

  enum_reference-Runs :
      (v v₁ : View) (tag : Option Bytes) (p : Parser)
      → Next TokenType.enum v v₁
      → ((t : Bytes) → tag ≡ some t → Next TokenType.identifier v₁ (view p))
      → Runs (λ t w. BaseType v w t) (size p) (enum_reference tag p)
  unfolding size
  enum_reference-Runs v v₁ none p x i = failed
  enum_reference-Runs v v₁ (some tag) p x i =
      returned (enum_tag_phrase x (i tag refl)) (omega arith)

  enum_rest-Runs :
      (v v₁ : View) (tag : Option Bytes) (p : Parser)
      → size p ≤ n
      → Next TokenType.enum v v₁
      → Optional TokenType.identifier v₁ (view p)
      → ((t : Bytes) → tag ≡ some t → Next TokenType.identifier v₁ (view p))
      → Runs (λ t w. BaseType v w t) (size p) (enum_rest eval_const_expr tag p)
  unfolding enum_rest
  enum_rest-Runs v v₁ tag p h x o i =
      Runs-if (is TokenType.lbrace p)
        (λ e. >>=-advance TokenType.lbrace p refl e (λ q y d.
          Runs-map (enum_body-Runs v v₁ (view p) tag q (omega arith) x o y) (omega arith)
            (λ a w z. z)))
        (λ _. enum_reference-Runs v v₁ tag p x i)

  enum_tag-Runs :
      (p : Parser)
      → Runs
          (λ tag w.
            Optional TokenType.identifier (view p) w
            × ((t : Bytes) → tag ≡ some t → Next TokenType.identifier (view p) w))
          (size p)
          (enum_tag p)
  unfolding enum_tag
  enum_tag-Runs p =
      Runs-if (is TokenType.identifier p)
        (λ e.
          >>=-advance TokenType.identifier p refl e
            (λ q x d. returned (there x, λ t _. x) (omega arith)))
        (λ _. returned (left_out, λ t e. cc) (omega arith))

  pub parse_enum_specifier-Reads :
      (p : Parser)
      → size p ≤ n
      → is TokenType.enum p ≡ true
      → Reads BaseType p (parse_enum_specifier eval_const_expr p)
  unfolding parse_enum_specifier
  parse_enum_specifier-Reads p h e = >>=-advance TokenType.enum p refl e (λ q x d.
      >>=-Runs (enum_tag-Runs q) (λ r (o, i) le.
        Runs-map (enum_rest-Runs (view p) (view q) r.0 r.1 (omega arith) x o i) (omega arith)
          (λ a w z. z)))

tagged_type-Reads :
    (k : TokenType) (reference : Bytes → Parser → CType × Parser) (message : Bytes) (p : Parser)
    → Stands k
    → is k p ≡ true
    → ((q r : Parser)
        → Next k (view p) (view q)
        → Next TokenType.identifier (view q) (view r)
        → BaseType (view p) (view (reference q.current.value r).1) (reference q.current.value r).0
          × (size (reference q.current.value r).1 ≡ size r))
    → Reads BaseType p (tagged_type reference message p)
unfolding tagged_type tag_or_body
tagged_type-Reads k reference message p s e c = >>=-advance k p s e (λ q x d.
    Runs-if (is TokenType.identifier q)
      (λ i. >>=-advance TokenType.identifier q refl i (λ r y d'.
        Runs-if (is TokenType.lbrace r) (λ _. outside)
          (λ _. let (z, same) = c q r x y in returned z (omega arith))))
      (λ _. Runs-if (is TokenType.lbrace q) (λ _. outside) (λ _. failed)))

pub parse_struct_specifier-Reads :
    (p : Parser) → is TokenType.struct p ≡ true → Reads BaseType p (parse_struct_specifier p)
unfolding size
parse_struct_specifier-Reads p e =
    tagged_type-Reads TokenType.struct struct_reference _ p refl e (λ q r x y.
      (struct_tag x y (refer-Refers (type_struct 0 0) r.struct_tags q.current.value), refl))

pub parse_union_specifier-Reads :
    (p : Parser) → is TokenType.union p ≡ true → Reads BaseType p (parse_union_specifier p)
unfolding size
parse_union_specifier-Reads p e =
    tagged_type-Reads TokenType.union union_reference _ p refl e (λ q r x y.
      (union_tag x y (refer-Refers (type_union 0 0) r.union_tags q.current.value), refl))
