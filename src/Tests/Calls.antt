-- ===== src/Tests/Calls.antt =====
-- Runs of the layout of calls.
use claudec.Base.{ℕ, Option, none, some, List, [], ◌∷◌, ◌≡◌, refl, length, replicate, ◌++◌}
use claudec.CType.{TypeKind}
use claudec.CType.Rules.{
  type_kind_bytes, type_is_fp, is_struct_or_union_kind, struct_reg_eightbytes,
}
use claudec.CType.Call.{
  Actual, ArgSlot, CallLayout, return_is_memory_struct, place_struct, place_fp, place_gp,
  place_kind, place, place_all, compute_call_layout,
}
use claudec.CType.Slots.{LaysOut, compute_call_layout-LaysOut}
use claudec.Memory.{Outcome, ok, fatal, stuck}

abbrev of_kind : TypeKind → Actual
of_kind k = record { actual_type = some k; node = none }

abbrev mixed_args : List Actual
mixed_args =
    of_kind TypeKind.double
    ∷ of_kind TypeKind.int
    ∷ (replicate 6 (of_kind TypeKind.pointer) ++ of_kind TypeKind.float ∷ [])

abbrev offsets : Outcome CallLayout → List (Option ℕ)
offsets (fatal m) = []
offsets stuck = []
offsets (ok l) = each l.items
  where
    each : List ArgSlot → List (Option ℕ)
    each [] = []
    each (s ∷ ss) = s.stack_off ∷ each ss

-- Seven integer arguments and two floating ones: the last pointer is on the stack.
offsets_test :
    offsets (compute_call_layout none mixed_args)
    ≡ none ∷ none ∷ none ∷ none ∷ none ∷ none ∷ none ∷ some 0 ∷ none ∷ []
unfolding return_is_memory_struct place_struct place_fp place_gp place_kind place place_all
    compute_call_layout type_is_fp is_struct_or_union_kind type_kind_bytes struct_reg_eightbytes
offsets_test = refl

compute_call_layout-LaysOut_example :
    LaysOut (length mixed_args) (compute_call_layout none mixed_args)
compute_call_layout-LaysOut_example = compute_call_layout-LaysOut none mixed_args
