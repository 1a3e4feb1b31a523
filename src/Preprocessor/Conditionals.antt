-- ===== src/Preprocessor/Conditionals.antt =====
-- The stack of conditionals of `preprocess_internal`, src/preprocessor.c. A condition is a value that is
-- asked for only where the source evaluates it, and the tests of a name look into the table of macros
-- at that line.
use claudec.Base.{
  ℕ, Bool, true, false, not, ◌&&◌, Option, none, some, List, [], ◌∷◌, ◌++◌, ltb, if◌then◌else◌,
  Bytes, codes, length,
}
use claudec.Memory.{Outcome, ok, fatal, ◌>>=◌}
use claudec.Preprocessor.Macros.{MacroDef, macro_find}

pub record CondFrame : Type 0 where
  pub emitting : Bool
  pub parent_emitting : Bool
  pub seen_else : Bool
  pub branch_taken : Bool

-- `cond_stack`, from its top on, and `emitting`.
pub record CondState : Type 0 where
  pub cond_stack : List CondFrame
  pub emitting : Bool

abbrev pub max_cond_depth : ℕ
max_cond_depth = 64

-- What #if, #ifdef and #ifndef ask, and their #elif forms.
pub data Test : Type 0 where
  expression : Outcome Bool → Test
  is_def : List MacroDef → Bytes → Test
  is_undef : List MacroDef → Bytes → Test

abbrev pub is_some : {A : Type 0} → Option A → Bool
is_some none = false
is_some (some a) = true

unfoldable pub test_value : Test → Outcome Bool
test_value (expression c) = c
test_value (is_def defs name) = ok (is_some (macro_find defs name))
test_value (is_undef defs name) = ok (not (is_some (macro_find defs name)))

-- A condition that is 0 where it is not evaluated.
abbrev pub asked : Bool → Test → Outcome Bool
asked true t = test_value t
asked false t = ok false

abbrev pub pushed : CondState → Bool → CondState
pushed st b = record {
  cond_stack =
      record {
        emitting = st.emitting && b;
        parent_emitting = st.emitting;
        seen_else = false;
        branch_taken = st.emitting && b;
      }
      ∷ st.cond_stack;
  emitting = st.emitting && b;
}

unfoldable pub cond_if : Test → CondState → Outcome CondState
cond_if t st =
    if ltb (length st.cond_stack) max_cond_depth
    then (do b ← asked st.emitting t; ok (pushed st b))
    else fatal (codes "error: conditional nesting too deep")

abbrev pub with_top : CondFrame → List CondFrame → CondState
with_top top below = record { cond_stack = top ∷ below; emitting = top.emitting }

unfoldable pub elif_frame : Bool → CondFrame → CondFrame
elif_frame cond_val top =
    if top.parent_emitting
    then (if not top.branch_taken && cond_val
        then record top { emitting = true; branch_taken = true }
        else record top { emitting = false })
    else top

-- The messages of the three directives.
abbrev pub without_conditional : Test → Bytes
without_conditional (expression c) = codes "error: #elif without conditional"
without_conditional (is_def defs name) = codes "error: #elifdef without conditional"
without_conditional (is_undef defs name) = codes "error: #elifndef without conditional"

abbrev pub after_else : Test → Bytes
after_else (expression c) = codes "error: #elif after else"
after_else (is_def defs name) = codes "error: #elifdef after #else"
after_else (is_undef defs name) = codes "error: #elifndef after #else"

abbrev pub elif_top : Test → List CondFrame → Outcome CondState
elif_top t [] = fatal (without_conditional t)
elif_top t (top ∷ below) = if top.seen_else then fatal (after_else t) else (do
  b ← asked (top.parent_emitting && not top.branch_taken) t
  ok (with_top (elif_frame b top) below))

unfoldable pub cond_elif : Test → CondState → Outcome CondState
cond_elif t st = elif_top t st.cond_stack

abbrev pub else_top : List CondFrame → Outcome CondState
else_top [] = fatal (codes "error: #else without conditional")
else_top (top ∷ below) =
    if top.seen_else
    then fatal (codes "error: duplicate else in conditional")
    else ok (
        with_top
          (record top {
            seen_else = true;
            emitting = if top.parent_emitting then not top.branch_taken else top.emitting;
          })
          below)

unfoldable pub cond_else : CondState → Outcome CondState
cond_else st = else_top st.cond_stack

abbrev pub emitting_of : List CondFrame → Bool
emitting_of [] = true
emitting_of (top ∷ below) = top.emitting

abbrev pub endif_top : List CondFrame → Outcome CondState
endif_top [] = fatal (codes "error: #endif without conditional")
endif_top (top ∷ below) = ok (record { cond_stack = below; emitting = emitting_of below })

unfoldable pub cond_endif : CondState → Outcome CondState
cond_endif st = endif_top st.cond_stack

-- The lines that matter to the stack, and any other line.
pub data Line (A : Type 0) : Type 0 where
  if_line : Test → Line A
  elif_line : Test → Line A
  else_line : Line A
  endif_line : Line A
  other_line : A → Line A

module _ {A : Type 0} where
  abbrev pub emitted : A → Bool → List A
  emitted a true = a ∷ []
  emitted a false = []

  -- The state after a line, and what is emitted for it.
  unfoldable pub cond_step : Line A → CondState → Outcome (CondState × List A)
  cond_step (if_line t) st = do s ← cond_if t st; ok (s, [])
  cond_step (elif_line t) st = do s ← cond_elif t st; ok (s, [])
  cond_step else_line st = do s ← cond_else st; ok (s, [])
  cond_step endif_line st = do s ← cond_endif st; ok (s, [])
  cond_step (other_line a) st = ok (st, emitted a st.emitting)

  unfoldable pub cond_run : List (Line A) → CondState → Outcome (CondState × List A)
  cond_run [] st = ok (st, [])
  cond_run (l ∷ ls) st = do
    (s, out) ← cond_step l st
    (s', out') ← cond_run ls s
    ok (s', out ++ out')

  abbrev pub all_closed : CondState × List A → Outcome (List A)
  all_closed (st, out) =
      if ltb 0 (length st.cond_stack) then fatal (codes "error: missing endif") else ok out

  -- All lines of a file, and the check at its end.
  unfoldable pub cond_file : List (Line A) → Outcome (List A)
  cond_file ls = cond_run ls (record { cond_stack = []; emitting = true }) >>= all_closed
