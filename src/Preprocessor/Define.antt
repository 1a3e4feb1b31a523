-- ===== src/Preprocessor/Define.antt =====
-- `macro_define`, src/preprocessor.c, as an operation on the table of macros as a map.
use claudec.Base.{Bool, false, some, List, ◌++◌, Bytes, str_eq, ◌≡◌, codes, take}
use claudec.Memory.{Outcome, ok, fatal}
use claudec.Preprocessor.Macros.{MacroDef, MacroTable, macro_find}
use claudec.Preprocessor.Lookup.{Distinct}

-- The table with a macro: the name has the replacement, and every other name is found as before.
pub record IsWith (name : Bytes) (is_variadic : Bool) (replacement : Bytes)
    (old new : List MacroDef) : Type 0 where
  pub distinct : Distinct new
  pub def : MacroDef
  pub found : macro_find new name ≡ some def
  pub replaced : (def.replacement ≡ replacement) × (def.is_variadic ≡ is_variadic)
  pub others : (o : Bytes) → str_eq name o ≡ false → macro_find new o ≡ macro_find old o

-- How `macro_define` ends: with the table that has the macro, or, where the name has a macro that differs in
-- its replacement or in taking any number of arguments, with the message about that.
pub data Defines (t : MacroTable) (name : Bytes) (is_variadic : Bool) (replacement : Bytes)
    : Outcome MacroTable → Type 0 where
  defines :
      {t' : MacroTable}
      → IsWith name is_variadic replacement t.defs t'.defs
      → Defines t name is_variadic replacement (ok t')
  incompatible :
      (d : MacroDef)
      → macro_find t.defs name ≡ some d
      → ¬ ((d.replacement ≡ replacement) × (d.is_variadic ≡ is_variadic))
      → Defines t name is_variadic replacement (
          fatal (
            codes "error: macro '"
            ++ (take 255 name ++ codes "' redefined with incompatible replacement")))
