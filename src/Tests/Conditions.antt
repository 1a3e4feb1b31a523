-- ===== src/Tests/Conditions.antt =====
-- Runs of the preprocessor's conditions.
use claudec.Base.{ℕ, true, false, none, [], ◌∷◌, ◌≡◌, refl, arith, Bytes, codes, str_eq}
use claudec.Memory.{ok, fatal}
use claudec.Long.{mul_long, add_long, neg_long, shl_long}
use claudec.Lexer.{run}
use claudec.Preprocessor.Operator.{
  multiplicative_operator, additive_operator, shift_operator, relational_operator,
  equality_operator, and_operator, xor_operator, or_operator, logical_and_operator,
  logical_or_operator,
}
use claudec.Preprocessor.Macros.{
  MacroDef, MacroTable, macro_find, remove_def, last_or, without_last, macro_undef,
}
use claudec.Preprocessor.Condition.{
  eval_cond_expr, skip_blanks, number_value, cond_number, defined_operand, replacement_value,
  macro_value, primary_at, eval_cond_primary, unary_run, apply_run, eval_cond_unary, chain_round,
  chain, left_assoc, eval_cond_multiplicative, eval_cond_additive, eval_cond_shift,
  eval_cond_relational, eval_cond_equality, eval_cond_bitwise_and, eval_cond_bitwise_xor,
  eval_cond_bitwise_or, eval_cond_logical_and, eval_cond_logical_or, ternary_else, ternary_rest,
  eval_cond_ternary,
}
use claudec.Preprocessor.Comments.{
  splice_lines, strip_from, strip_cond_comments, IsClean, Uncommented,
  strip_cond_comments-Uncommented,
}
use claudec.Preprocessor.Lookup.{Distinct, no_defs, one_def, IsWithout, macro_undef-IsWithout}
use claudec.Preprocessor.Conditionals.{
  expression, is_def, if_line, other_line, cond_file, test_value, cond_if, elif_frame, cond_elif,
  cond_else, cond_endif, cond_step, cond_run,
}
use claudec.Preprocessor.Sections.{
  plain, conditional, Sections, done, then_more, no_branch, otherwise, or_if, sections_lines,
  sections_depth, sections_kept,
}
use claudec.Preprocessor.Kept.{cond_file-kept}

abbrev object_macro : Bytes → Bytes → MacroDef
object_macro n r = record {
  name = n;
  params = none;
  is_variadic = false;
  replacement = r;
  disabled = false;
}

abbrev three_macros : MacroTable
three_macros = record {
  defs =
      object_macro (codes "A") (codes "1")
      ∷ object_macro (codes "B") (codes "-12")
      ∷ object_macro (codes "C") (codes "x")
      ∷ [];
  once_paths = [];
}

three_macros-Distinct : Distinct three_macros.defs
unfolding macro_find str_eq
three_macros-Distinct = one_def {d = object_macro (codes "A") (codes "1")} refl (
    one_def {d = object_macro (codes "B") (codes "-12")} refl
      (one_def {d = object_macro (codes "C") (codes "x")} {ds = []} refl no_defs))

undef_test : macro_undef three_macros (codes "A") ≡ record {
  defs = object_macro (codes "C") (codes "x") ∷ object_macro (codes "B") (codes "-12") ∷ [];
  once_paths = [];
}
unfolding macro_undef remove_def last_or without_last str_eq
undef_test = refl

macro_undef-IsWithout_example :
    IsWithout (codes "A") three_macros.defs (macro_undef three_macros (codes "A")).defs
macro_undef-IsWithout_example = macro_undef-IsWithout three_macros (codes "A") three_macros-Distinct

condition_test :
    eval_cond_expr three_macros.defs (codes "!defined(X) && (B + 0x10) * 2 == 8 ? 1 << 4 : 2 ")
    ≡ ok (16, [])
unfolding run macro_find str_eq mul_long add_long neg_long shl_long multiplicative_operator
    additive_operator shift_operator relational_operator equality_operator and_operator xor_operator
    or_operator logical_and_operator logical_or_operator skip_blanks number_value cond_number
    defined_operand replacement_value macro_value primary_at eval_cond_primary unary_run apply_run
    eval_cond_unary chain_round chain left_assoc eval_cond_multiplicative eval_cond_additive
    eval_cond_shift eval_cond_relational eval_cond_equality eval_cond_bitwise_and
    eval_cond_bitwise_xor eval_cond_bitwise_or eval_cond_logical_and eval_cond_logical_or
    ternary_else ternary_rest eval_cond_ternary eval_cond_expr
condition_test = refl

-- The second operand of && is evaluated also where the first is 0.
division_test :
    eval_cond_expr three_macros.defs (codes "0 && 1 / 0")
    ≡ fatal (codes "error: division by zero in preprocessor expression")
unfolding run macro_find str_eq mul_long add_long neg_long shl_long multiplicative_operator
    additive_operator shift_operator relational_operator equality_operator and_operator xor_operator
    or_operator logical_and_operator logical_or_operator skip_blanks number_value cond_number
    defined_operand replacement_value macro_value primary_at eval_cond_primary unary_run apply_run
    eval_cond_unary chain_round chain left_assoc eval_cond_multiplicative eval_cond_additive
    eval_cond_shift eval_cond_relational eval_cond_equality eval_cond_bitwise_and
    eval_cond_bitwise_xor eval_cond_bitwise_or eval_cond_logical_and eval_cond_logical_or
    ternary_else ternary_rest eval_cond_ternary eval_cond_expr
division_test = refl

abbrev some_sections : Sections ℕ
some_sections = then_more (plain 1) (
    then_more
      (conditional (is_def three_macros.defs (codes "X")) (then_more (plain 2) done) (
        or_if (expression (ok true))
          (then_more
            (conditional (expression (ok false)) (then_more (plain 3) done)
              (otherwise (then_more (plain 4) done)))
            done)
          (or_if (expression (fatal (codes "not evaluated"))) done no_branch)))
      done)

cond_file-kept_example : cond_file (sections_lines some_sections) ≡ sections_kept some_sections
cond_file-kept_example = cond_file-kept some_sections (unfold sections_depth in omega arith)

kept_test : sections_kept some_sections ≡ ok (1 ∷ 4 ∷ [])
unfolding sections_kept test_value macro_find str_eq
kept_test = refl

missing_endif_test :
    cond_file {A = ℕ} (if_line (expression (ok true)) ∷ other_line 7 ∷ [])
    ≡ fatal (codes "error: missing endif")
unfolding test_value cond_if elif_frame cond_elif cond_else cond_endif cond_step cond_run cond_file
missing_endif_test = refl

strip_test : strip_cond_comments (codes "A /* b // */ + 1 // c") ≡ codes "A   + 1  "
unfolding strip_cond_comments strip_from
strip_test = refl

splice_test : splice_lines (b'a' ∷ b'\\' ∷ b'\n' ∷ b'b' ∷ []) ≡ codes "ab"
unfolding splice_lines
splice_test = refl

strip_cond_comments-Uncommented_example :
    Uncommented (codes "1 /* x */ + 2 // y") (strip_cond_comments (codes "1 /* x */ + 2 // y"))
    × IsClean (strip_cond_comments (codes "1 /* x */ + 2 // y"))
strip_cond_comments-Uncommented_example =
    strip_cond_comments-Uncommented (codes "1 /* x */ + 2 // y")
