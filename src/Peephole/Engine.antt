-- ===== src/Peephole/Engine.antt =====
-- src/peephole.c: the sliding window engine and the table of built-in patterns.
use claudec.Base.{
  ◌>>=◌, ℕ, zero, suc, ◌+◌, Option, none, some, List, [], ◌∷◌, ◌++◌, Bytes, ltb, if◌then◌else◌,
  length, take, drop,
}
use claudec.Peephole.{Pattern}
use claudec.Peephole.Registers.{match_zero_reg, replace_zero_reg}
use claudec.Peephole.Moves.{match_nop_move, replace_nop_move, match_push_pop, replace_push_pop}
use claudec.Peephole.Slots.{
  match_redundant_reload, replace_redundant_reload, match_redundant_store, replace_redundant_store,
}
pub mod Sound
pub mod Builtin
use claudec.Peephole.Jumps.{match_dead_jump, replace_dead_jump}

unfoldable pub peephole_builtin_patterns : List Pattern
peephole_builtin_patterns =
    record { window_size = 1; matcher = match_zero_reg; replacer = replace_zero_reg }
    ∷ record { window_size = 1; matcher = match_nop_move; replacer = replace_nop_move }
    ∷ record { window_size = 2; matcher = match_push_pop; replacer = replace_push_pop }
    ∷ record {
      window_size = 2;
      matcher = match_redundant_reload;
      replacer = replace_redundant_reload;
    }
    ∷ record {
      window_size = 2;
      matcher = match_redundant_store;
      replacer = replace_redundant_store;
    }
    ∷ record { window_size = 2; matcher = match_dead_jump; replacer = replace_dead_jump }
    ∷ []

-- The inner loop: the first pattern that fits in the remaining lines and matches at line i.
unfoldable pub first_match : List Pattern → List Bytes → ℕ → Option Pattern
first_match [] lines i = none
first_match (p ∷ ps) lines i =
    let later = first_match ps lines i in
    if ltb (length lines) (i + p.window_size)
    then later
    else if p.matcher (take p.window_size (drop i lines))
    then some p
    else later

-- The new array: prefix, replacement, suffix.
unfoldable pub spliced : List Bytes → ℕ → ℕ → List Bytes → List Bytes
spliced lines i w out = take i lines ++ (out ++ drop (i + w) lines)

-- The loop over the lines from index i. It is `none` when the fuel runs out or a replacer has no
-- result.
unfoldable pub peephole_loop : ℕ → List Pattern → List Bytes → ℕ → Option (List Bytes)
peephole_loop zero ps lines i = none
peephole_loop (suc fuel) ps lines i =
    let skipped = peephole_loop fuel ps lines (suc i) in
    if ltb i (length lines)
    then elim (first_match ps lines i) [
      | none ↦ skipped
      | some p ↦ do
        out ← p.replacer (take p.window_size (drop i lines))
        peephole_loop fuel ps (spliced lines i p.window_size out) (i + length out)
    ]
    else some lines

-- Each round leaves fewer lines to the right of the index, so their number is fuel enough.
unfoldable pub peephole_apply : List Pattern → List Bytes → Option (List Bytes)
peephole_apply ps lines = peephole_loop (suc (length lines)) ps lines 0
