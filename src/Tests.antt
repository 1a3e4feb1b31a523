-- ===== src/Tests.antt =====
-- Runs at concrete inputs, and uses of the theorems at them.
mod Buffers
mod Vectors
mod Parsing
mod Scanner
mod Conditions
mod Calls
use claudec.Base.{
  ◌*◌, ◌&&◌, ◌||◌, leb, ◌≤◌, ◌<◌, true, false, none, some, List, [], ◌∷◌, ◌++◌, ◌≡◌, refl, ◌↔◌,
  arith, Bytes, codes, length, str_eq, if◌then◌else◌, Bool-cases, inl, inr, subst,
}
use Prim.Native.Nat.{max}
use claudec.CType.{int, char, long, float, type_int, type_char, type_pointer}
use claudec.CType.Rules.{pointer_types_equal, fp_common_arith_kind, uac_is_unsigned}
use claudec.CType.Laws.{pointer_chain, pointer_types_equal_iff}
use claudec.CType.Arith.{
  rank, kind_of_rank, precision, fp_common_arith_kind_by_rank, uac_is_unsigned_by_precision,
}
use claudec.Ast.{
  var_ref, binary_op, block, return_statement, expression_stmt, label_statement, declaration, Ast,
  Children, node, nil, cons, no_attrs, ast_clone,
}
use claudec.Ast.Clone.{HasPrototypes, AllHavePrototypes, ast_clone_same}
use claudec.Long.{add_long, mul_long}
use claudec.Long.Text.{
  print_long, put_digits, print_decimal, strtol, skip_space, read_prefixed, read_digits,
}
use claudec.Optimize.{literal_text, binary_op_of}
use claudec.Optimize.Types.{ConstEntry, Table, const_prop_lookup, const_prop_max, cast_value_safe}
use claudec.Optimize.Strength.{strength_reduction, shift_of, shift_loop}
use claudec.Optimize.Expr.{optimize_expr}
use claudec.Optimize.Stmt.{optimize_stmt}
use claudec.Optimize.Stmt.Dead.{IsTidy, optimize_stmt-IsTidy}
use claudec.Optimize.Stmt.Scope.{optimize_stmt-appends, optimize_stmt-block_scope}
use claudec.Optimize.Eval.{Env, eval, binary_meaning, binary_value}
use claudec.Optimize.Sound.Values.{EnvFits}
use claudec.Optimize.Sound.Casts.{Agrees, narrowed, cast_value_safe_iff}
use claudec.Optimize.Sound.Walk.{optimize_expr_sound}

-- `x * 8 + y * 1`, with x = 7 and the constant y = 5.
abbrev var_x : Ast
var_x = node var_ref (no_attrs (some (codes "x"))) nil

abbrev var_y : Ast
var_y = node var_ref (no_attrs (some (codes "y"))) nil

abbrev number : Bytes → Ast
number s = literal_text s int false

abbrev infix_op : Bytes → Ast → Ast → Ast
infix_op op l r =
    node binary_op (record (no_attrs (some op)) { decl_type = int }) (cons l (cons r nil))

abbrev times_eight : Ast
times_eight = infix_op (codes "*") var_x (number (codes "8"))

abbrev sum : Ast
sum = infix_op (codes "+") times_eight (infix_op (codes "*") var_y (number (codes "1")))

abbrev values : Env
values x = if str_eq x (codes "y") then some 5 else if str_eq x (codes "x") then some 7 else none

abbrev entry_y : ConstEntry
entry_y = record { name = codes "y"; value = 5; decl_type = int; is_unsigned = false }

abbrev constants : Table
constants = entry_y ∷ []

values-EnvFits : EnvFits values
values-EnvFits x v h = ground arith

values-Agrees : Agrees values constants
unfolding const_prop_lookup
values-Agrees x e h = elim (Bool-cases (str_eq x (codes "y"))) [
  | inl t ↦
      let q = rw t at h in
      let p : entry_y ≡ e = cc in
      subst (λ d. (d.is_unsigned ≡ false) × (values x ≡ some d.value)) p (refl, rw t refl)
  | inr f ↦ cc (rw f at h)
]

sum_value : eval values sum ≡ some 61
unfolding eval binary_op_of binary_meaning binary_value strtol skip_space read_prefixed read_digits
    add_long mul_long str_eq
sum_value = refl

optimize_expr_sound_example : eval values (optimize_expr constants sum) ≡ some 61
optimize_expr_sound_example =
    optimize_expr_sound values constants values-EnvFits values-Agrees sum 61 sum_value

-- What the rewriting gives there: `(x << 3) + 5`.
abbrev rewritten_sum : Ast
rewritten_sum = optimize_expr constants sum

eight_times_value : eval values times_eight ≡ some 56
unfolding eval binary_op_of binary_meaning binary_value strtol skip_space read_prefixed read_digits
    add_long mul_long str_eq
eight_times_value = refl

abbrev shifted_x : Ast
shifted_x = infix_op (codes "<<") var_x (number (codes "3"))

times_eight_reduces : strength_reduction times_eight ≡ some shifted_x
unfolding strength_reduction binary_op_of strtol skip_space read_prefixed read_digits str_eq
    shift_of shift_loop print_long put_digits print_decimal
times_eight_reduces = refl

-- `{ const int k = 3; return k; k; L: k; }`
abbrev ret : Ast
ret = node return_statement (no_attrs none) (cons var_x nil)

abbrev after_return : Children
after_return =
    cons
      (node declaration (record (no_attrs (some (codes "x"))) { decl_type = int; is_const = true })
        (cons (number (codes "3")) nil))
      (cons ret (
        cons (node expression_stmt (no_attrs none) (cons var_y nil))
          (cons (node label_statement (no_attrs (some (codes "L"))) (cons ret nil)) nil)))

optimize_stmt-IsTidy_example :
    IsTidy (optimize_stmt constants (node block (no_attrs none) after_return)).0
optimize_stmt-IsTidy_example =
    optimize_stmt-IsTidy constants (node block (no_attrs none) after_return)

optimize_stmt-appends_example :
    (added : List ConstEntry) × ((optimize_stmt constants ret).1 ≡ constants ++ added)
    × (length (optimize_stmt constants ret).1 ≤ const_prop_max)
optimize_stmt-appends_example = optimize_stmt-appends constants ret (omega arith)

optimize_stmt-block_scope_example :
    (optimize_stmt constants (node block (no_attrs none) after_return)).1 ≡ constants
optimize_stmt-block_scope_example = optimize_stmt-block_scope constants (no_attrs none) after_return

cast_value_safe_iff_example :
    (cast_value_safe 300 char false ≡ true) ↔ (narrowed char false 300 ≡ 300)
cast_value_safe_iff_example = cast_value_safe_iff char false 300 (omega arith) refl

sum-HasPrototypes : HasPrototypes sum
unfolding HasPrototypes AllHavePrototypes
sum-HasPrototypes = search

ast_clone_same_example : ast_clone sum ≡ sum
ast_clone_same_example = ast_clone_same sum sum-HasPrototypes

-- `const int *` and `int *`, and a struct of 12 bytes.
pointer_types_equal_iff_example :
    (pointer_types_equal (type_pointer type_int) (type_pointer type_char) ≡ true)
    ↔ (pointer_chain (type_pointer type_int) ≡ pointer_chain (type_pointer type_char))
pointer_types_equal_iff_example =
    pointer_types_equal_iff (type_pointer type_int) (type_pointer type_char)

fp_common_arith_kind_by_rank_example :
    fp_common_arith_kind long float ≡ kind_of_rank (max (rank long) (rank float))
fp_common_arith_kind_by_rank_example = fp_common_arith_kind_by_rank long float

uac_is_unsigned_by_precision_example : uac_is_unsigned int true long false ≡ (
    (true && leb (precision long) (precision int))
    || (false && leb (precision int) (precision long)))
uac_is_unsigned_by_precision_example = uac_is_unsigned_by_precision int long true false
