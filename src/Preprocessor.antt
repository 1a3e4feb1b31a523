-- ===== src/Preprocessor.antt =====
-- Parts of the preprocessor, src/preprocessor.c: the table of macros and the evaluator of the conditions
-- of #if and #elif.
pub mod Macros
pub mod Comments
pub mod Operator
pub mod Condition
pub mod Grammar
pub mod Splits
pub mod Atoms
pub mod Levels
pub mod Chain
pub mod Sound
pub mod Whole
pub mod Lookup
pub mod Define
pub mod Conditionals
pub mod Sections
pub mod Selected
pub mod Kept
