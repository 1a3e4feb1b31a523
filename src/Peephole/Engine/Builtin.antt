-- ===== src/Peephole/Engine/Builtin.antt =====
-- The pass with the built-in patterns of src/peephole.c.
use claudec.Base.{
  ℕ, zero, suc, ◌+◌, ◌≤◌, ◌<◌, true, some, List, [], ◌∷◌, ◌++◌, Bytes, length, get_elem?, ◌≡◌, refl,
  arith, Bool-cases, Option-cases, inl, inr, str_eq, length-append, codes,
}
use claudec.Peephole.Text.{rest_after, is_blank, strip_prefix}
use claudec.Peephole.Registers.{
  zr_src, zr_dst, zr_is, zr_scan, zr_find_reg, match_zero_reg, replace_zero_reg, zero_reg_line,
}
use claudec.Peephole.Moves.{
  match_nop_move, replace_nop_move, push_reg, pop_reg, match_push_pop, replace_push_pop, move_line,
}
use claudec.Peephole.Slots.{
  match_redundant_reload, replace_redundant_reload, match_redundant_store, replace_redundant_store,
}
use claudec.Peephole.Jumps.{match_dead_jump, replace_dead_jump}
use claudec.Peephole.Engine.{peephole_builtin_patterns, peephole_apply}
use claudec.Peephole.Engine.Sound.{IsCongruence, AllSound, none_left, and_all, peephole_apply_sound}

zr_scan-below :
    (regs : List Bytes) (i : ℕ) (p : Bytes) (k : ℕ)
    → zr_scan regs i p ≡ some k
    → k < i + length regs
unfolding zr_scan
zr_scan-below [] i p k h = cc
zr_scan-below (r ∷ rs) i p k h = elim (Bool-cases (zr_is r p)) [
  | inl t ↦ let q = rw t at h in let e : i ≡ k = cc in omega arith
  | inr f ↦ let q = rw f at h in omega (arith, zr_scan-below rs (suc i) p k q)
]

zr_find_reg-below : (line : Bytes) (k : ℕ) → zr_find_reg line ≡ some k → k < 20
unfolding zr_find_reg
zr_find_reg-below line k h =
    elim (Option-cases (strip_prefix (codes "mov ") (rest_after is_blank line))) [
      | inl e ↦ cc (rw (zr_find_reg, e) at h)
      | inr (p, e) ↦ let q = rw (zr_find_reg, e) at h in zr_scan-below zr_src 0 p k q
    ]

get_elem?-below :
    (xs : List Bytes) (i : ℕ) → i < length xs → (x : Bytes) × (get_elem? xs i ≡ some x)
get_elem?-below [] i h = absurd (omega arith)
get_elem?-below (x ∷ xs) zero h = (x, refl)
get_elem?-below (x ∷ xs) (suc i) h = get_elem?-below xs i (omega arith)

-- The second program has no more lines than the first.
abbrev pub Shrinks : List Bytes → List Bytes → Type 0
Shrinks xs ys = length ys ≤ length xs

pub Shrinks-IsCongruence : IsCongruence Shrinks
Shrinks-IsCongruence = record {
  reflexive = λ xs. omega arith;
  transitive = λ xs ys zs p q. omega arith;
  context = λ pre xs ys post p. omega (
    arith,
    length-append pre (xs ++ post),
    length-append pre (ys ++ post),
    length-append xs post,
    length-append ys post,
  );
}

zero_reg_replaces :
    (win : List Bytes)
    → length win ≡ 1
    → match_zero_reg win ≡ true
    → (out : List Bytes) × (replace_zero_reg win ≡ some out) × Shrinks win out
unfolding match_zero_reg replace_zero_reg
zero_reg_replaces [] n h = cc
zero_reg_replaces (line ∷ rest) n h = elim (Option-cases (zr_find_reg line)) [
  | inl e ↦ cc (rw (match_zero_reg, e) at h)
  | inr (k, e) ↦
      let (reg, g) = get_elem?-below zr_dst k (zr_find_reg-below line k e) in
      rw (e, g) (zero_reg_line line reg ∷ [], refl, omega arith)
]

nop_move_replaces :
    (win : List Bytes)
    → length win ≡ 1
    → match_nop_move win ≡ true
    → (out : List Bytes) × (replace_nop_move win ≡ some out) × Shrinks win out
unfolding replace_nop_move
nop_move_replaces win n h = ([], refl, omega arith)

push_pop_replaces :
    (win : List Bytes)
    → length win ≡ 2
    → match_push_pop win ≡ true
    → (out : List Bytes) × (replace_push_pop win ≡ some out) × Shrinks win out
unfolding match_push_pop replace_push_pop
push_pop_replaces [] n h = cc
push_pop_replaces (a ∷ []) n h = cc
push_pop_replaces (a ∷ b ∷ rest) n h = elim (Option-cases (push_reg a)) [
  | inl e ↦ cc (rw (match_push_pop, e) at h)
  | inr (r0, e) ↦ elim (Option-cases (pop_reg b)) [
    | inl e' ↦ cc (rw (match_push_pop, e, e') at h)
    | inr (r1, e') ↦ elim (Bool-cases (str_eq r0 r1)) [
      | inl t ↦ rw (e, e', t) ([], refl, omega arith)
      | inr f ↦ rw (e, e', f) (move_line a r0 r1 ∷ [], refl, omega arith)
    ]
  ]
]

reload_replaces :
    (win : List Bytes)
    → length win ≡ 2
    → match_redundant_reload win ≡ true
    → (out : List Bytes) × (replace_redundant_reload win ≡ some out) × Shrinks win out
unfolding match_redundant_reload replace_redundant_reload
reload_replaces [] n h = cc
reload_replaces (a ∷ rest) n h = (a ∷ [], refl, omega arith)

store_replaces :
    (win : List Bytes)
    → length win ≡ 2
    → match_redundant_store win ≡ true
    → (out : List Bytes) × (replace_redundant_store win ≡ some out) × Shrinks win out
unfolding match_redundant_store replace_redundant_store
store_replaces [] n h = cc
store_replaces (a ∷ []) n h = cc
store_replaces (a ∷ b ∷ rest) n h = (b ∷ [], refl, omega arith)

jump_replaces :
    (win : List Bytes)
    → length win ≡ 2
    → match_dead_jump win ≡ true
    → (out : List Bytes) × (replace_dead_jump win ≡ some out) × Shrinks win out
unfolding match_dead_jump replace_dead_jump
jump_replaces [] n h = cc
jump_replaces (a ∷ []) n h = cc
jump_replaces (a ∷ b ∷ rest) n h = (b ∷ [], refl, omega arith)

pub builtin-AllSound : AllSound Shrinks peephole_builtin_patterns
unfolding peephole_builtin_patterns
builtin-AllSound =
    and_all (record { wide = omega arith; replaces = zero_reg_replaces })
      (and_all (record { wide = omega arith; replaces = nop_move_replaces })
        (and_all (record { wide = omega arith; replaces = push_pop_replaces })
          (and_all (record { wide = omega arith; replaces = reload_replaces })
            (and_all (record { wide = omega arith; replaces = store_replaces })
              (and_all (record { wide = omega arith; replaces = jump_replaces }) none_left)))))

-- With the built-in patterns the pass ends with a result, on every program, and the result has no
-- more lines than the program had.
pub peephole_apply-builtin :
    (lines : List Bytes)
    → (lines' : List Bytes) × (peephole_apply peephole_builtin_patterns lines ≡ some lines')
      × (length lines' ≤ length lines)
peephole_apply-builtin lines =
    peephole_apply_sound Shrinks Shrinks-IsCongruence peephole_builtin_patterns builtin-AllSound
      lines
