-- ===== src/Parser/TypeNames.antt =====
-- `parse_type_name`, src/parser.c, and the tokens that begin a type.
use claudec.Base.{
  ℕ, zero, suc, ◌+◌, ◌%◌, ◌^◌, Bool, true, false, ◌||◌, ◌&&◌, Option, none, some, List, [], ◌∷◌,
  ◌==◌, ltb, if◌then◌else◌, codes,
}
use claudec.CType.{CType, type_pointer, type_const_copy, type_volatile_copy}
use claudec.Long.{is_negative}
use claudec.Lexer.{TokenType}
use claudec.Parser.{
  Parser, Parsed, done, error, no_fuel, ◌>>=◌, Parse, is, is_one_of, advance, parser_expect, size,
}
use claudec.Parser.Tables.{parser_find_typedef, build_array_type_from_dims}
use claudec.Parser.Types.{parse_type_specifier}

-- `while (parser->current.type == TOKEN_CONST || ...) ...`, with fuel.
unfoldable pub skip_qualifiers : ℕ → Parser → Parsed Parser
skip_qualifiers zero p = no_fuel
skip_qualifiers (suc fuel) p =
    let rest = (do p' ← advance p; skip_qualifiers fuel p') in
    if is_one_of (TokenType.const ∷ TokenType.volatile ∷ TokenType.restrict ∷ []) p
    then rest
    else done p

-- The stars after the type, with fuel.
unfoldable pub abstract_pointers : ℕ → CType → Parse CType
abstract_pointers zero t p = no_fuel
abstract_pointers (suc fuel) t p =
    let rest = (do
      p₁ ← advance p
      p₂ ← skip_qualifiers (suc (size p₁)) p₁
      abstract_pointers fuel (type_pointer t) p₂) in
    if is TokenType.star p then rest else done (t, p)

abbrev pub max_array_dims : ℕ
max_array_dims = 8

abbrev pub closed_dim : ℕ → Parse ℕ
closed_dim length p =
    if (length == 0) || is_negative length
    then error (codes "error: array size must be greater than zero")
    else (do (_, p') ← parser_expect TokenType.rbracket p; done (length % 2 ^ 32, p'))

-- A dimension after its bracket. The first one may be left out.
unfoldable pub array_dim : Parse ℕ → ℕ → Parse ℕ
array_dim eval_const_expr dim_count p =
    if (dim_count == 0) && is TokenType.rbracket p
    then (do p' ← advance p; done (0, p'))
    else (do (length, p₁) ← eval_const_expr p; closed_dim length p₁)

-- The loop over the dimensions, with fuel.
unfoldable pub array_dims : ℕ → Parse ℕ → ℕ → Parse (List ℕ)
array_dims zero eval_const_expr dim_count p = no_fuel
array_dims (suc fuel) eval_const_expr dim_count p =
    let rest = (do
      p₁ ← advance p
      (d, p₂) ← array_dim eval_const_expr dim_count p₁
      (ds, p₃) ← array_dims fuel eval_const_expr (dim_count + 1) p₂
      done (d ∷ ds, p₃)) in
    if is TokenType.lbracket p
    then (if ltb dim_count max_array_dims
        then rest
        else error (codes "error: too many array dimensions (max %d)"))
    else done ([], p)

-- A qualifier before the type, and what it makes of it.
abbrev pub base_qualifier : Parser → Parsed ((CType → CType) × Parser)
base_qualifier p =
    if is TokenType.const p
    then (do p' ← advance p; done (type_const_copy, p'))
    else if is TokenType.volatile p
    then (do p' ← advance p; done (type_volatile_copy, p'))
    else done (λ t. t, p)

unfoldable pub parse_type_name : Parse ℕ → Parse CType
parse_type_name eval_const_expr p = do
  (qualified, p₁) ← base_qualifier p
  (t, p₂) ← parse_type_specifier eval_const_expr p₁
  (u, p₃) ← abstract_pointers (suc (size p₂)) (qualified t) p₂
  (dims, p₄) ← array_dims (suc max_array_dims) eval_const_expr 0 p₃
  done (build_array_type_from_dims u dims, p₄)

-- The tokens that begin a type after a parenthesis in an expression.
abbrev pub type_starts : List TokenType
type_starts =
    TokenType.const ∷ TokenType.volatile ∷ TokenType.void ∷ TokenType.float ∷ TokenType.double
    ∷ TokenType.bool ∷ TokenType.char ∷ TokenType.short ∷ TokenType.int ∷ TokenType.long
    ∷ TokenType.signed ∷ TokenType.unsigned ∷ TokenType.struct ∷ TokenType.union ∷ []

abbrev pub is_some : {A : Type 0} → Option A → Bool
is_some none = false
is_some (some a) = true

-- One of the tokens, or the name of a typedef.
abbrev pub begins_type : List TokenType → Parser → Bool
begins_type ks p =
    is_one_of ks p || (is TokenType.identifier p && is_some (parser_find_typedef p p.current.value))
