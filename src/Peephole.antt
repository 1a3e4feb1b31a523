-- ===== src/Peephole.antt =====
-- src/peephole.c: the pass over the lines of the emitted assembly text. A line is a C string without
-- its newline. `util_strdup` is the identity here: that an allocation fails is not modelled.
use claudec.Base.{ℕ, Bool, Option, List, Bytes}
pub mod Text
pub mod Registers
pub mod Moves
pub mod Slots
pub mod Jumps
pub mod Shapes
pub mod Engine

-- `PeepholePattern`: the replacer gives the lines of `out`, and `none` where the C code would read
-- what is not there.
pub record Pattern : Type 0 where
  pub window_size : ℕ
  pub matcher : List Bytes → Bool
  pub replacer : List Bytes → Option (List Bytes)
