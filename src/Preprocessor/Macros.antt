-- ===== src/Preprocessor/Macros.antt =====
-- The table of macros, src/preprocessor.c. That an allocation fails is not modelled.
use claudec.Base.{
  Bool, true, false, ◌&&◌, Option, none, some, List, [], ◌∷◌, ◌++◌, if◌then◌else◌, Bytes, codes,
  str_eq, take,
}
use claudec.Memory.{Outcome, ok, fatal}

-- The parameters of a macro like an object are NULL, with a count of -1.
pub record MacroDef : Type 0 where
  pub name : Bytes
  pub params : Option (List Bytes)
  pub is_variadic : Bool
  pub replacement : Bytes
  pub disabled : Bool

pub record MacroTable : Type 0 where
  pub defs : List MacroDef
  pub once_paths : List Bytes

unfoldable pub macro_table_init : MacroTable
macro_table_init = record { defs = []; once_paths = [] }

unfoldable pub macro_table_add_once : MacroTable → Bytes → MacroTable
macro_table_add_once t path = record t { once_paths = t.once_paths ++ path ∷ [] }

unfoldable pub is_once : List Bytes → Bytes → Bool
is_once [] path = false
is_once (p ∷ ps) path = let later = is_once ps path in if str_eq p path then true else later

unfoldable pub macro_table_is_once : MacroTable → Bytes → Bool
macro_table_is_once t path = is_once t.once_paths path

unfoldable pub macro_find : List MacroDef → Bytes → Option MacroDef
macro_find [] name = none
macro_find (d ∷ ds) name =
    let later = macro_find ds name in if str_eq d.name name then some d else later

abbrev pub same_flag : Bool → Bool → Bool
same_flag true b = b
same_flag false true = false
same_flag false false = true

abbrev pub redefined : MacroTable → MacroDef → MacroDef → Outcome MacroTable
redefined t existing new =
    if str_eq existing.replacement new.replacement && same_flag existing.is_variadic new.is_variadic
    then ok t
    else fatal (
        codes "error: macro '"
        ++ (take 255 new.name ++ codes "' redefined with incompatible replacement"))

abbrev pub add_or_check : MacroTable → MacroDef → Option MacroDef → Outcome MacroTable
add_or_check t new (some existing) = redefined t existing new
add_or_check t new none = ok (record t { defs = t.defs ++ new ∷ [] })

unfoldable pub macro_define :
    MacroTable → Bytes → Option (List Bytes) → Bool → Bytes → Outcome MacroTable
macro_define t name params is_variadic replacement =
    add_or_check t
      (record {
        name = name;
        params = params;
        is_variadic = is_variadic;
        replacement = replacement;
        disabled = false;
      })
      (macro_find t.defs name)

-- `defs[i] = defs[--count]`: the last entry, and the entries without the last.
unfoldable pub last_or : MacroDef → List MacroDef → MacroDef
last_or d [] = d
last_or d (e ∷ es) = last_or e es

unfoldable pub without_last : List MacroDef → List MacroDef
without_last [] = []
without_last (d ∷ []) = []
without_last (d ∷ e ∷ ds) = d ∷ without_last (e ∷ ds)

-- The entry d is overwritten by the last of those behind it.
abbrev pub fill_gap : MacroDef → List MacroDef → List MacroDef
fill_gap d [] = []
fill_gap d (e ∷ es) = last_or e es ∷ without_last (e ∷ es)

unfoldable pub remove_def : List MacroDef → Bytes → List MacroDef
remove_def [] name = []
remove_def (d ∷ ds) name =
    let later = remove_def ds name in if str_eq d.name name then fill_gap d ds else d ∷ later

unfoldable pub macro_undef : MacroTable → Bytes → MacroTable
macro_undef t name = record t { defs = remove_def t.defs name }
