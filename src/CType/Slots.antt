-- ===== src/CType/Slots.antt =====
-- No two arguments of a call share a register or a byte of the stack.
use claudec.Base.{
  ℕ, suc, ◌+◌, ◌≤◌, ◌<◌, Bool, true, false, Option, some, List, [], ◌∷◌, ltb, if◌then◌else◌, length,
  ◌≡◌, refl, ap, arith, ◌++◌, codes, Bool-cases, inl, inr,
}
use claudec.CType.Call.{
  Param, FnDecl, Actual, ArgSlot, CallLayout, Taken, max_call_layout_items, return_is_memory_struct,
  place, first_param, later_params, place_all, params_of, compute_call_layout,
}
use claudec.Memory.{Outcome, ok, fatal}
use claudec.Long.Text.{print_decimal}
use claudec.CType.Placed.{Within, IsTaken, Grows, HasPlace, place-Placed}

-- An earlier argument and a later one have no register and no byte of the stack in common.
pub record Before (s s' : ArgSlot) : Type 0 where
  pub gp : (g g' : ℕ) → s.gp_start ≡ some g → s'.gp_start ≡ some g' → g + s.gp_count ≤ g'
  pub xmm : (x x' : ℕ) → s.xmm_idx ≡ some x → s'.xmm_idx ≡ some x' → x < x'
  pub stack : (o o' : ℕ) → s.stack_off ≡ some o → s'.stack_off ≡ some o' → o + s.nbytes ≤ o'

-- Each argument has a place.
pub data AllHavePlaces : List ArgSlot → Type 0 where
  no_places : AllHavePlaces []
  one_place :
      {s : ArgSlot} {ss : List ArgSlot} → HasPlace s → AllHavePlaces ss → AllHavePlaces (s ∷ ss)

pub data BeforeAll (s : ArgSlot) : List ArgSlot → Type 0 where
  before_none : BeforeAll s []
  before_more :
      {s' : ArgSlot} {ss : List ArgSlot} → Before s s' → BeforeAll s ss → BeforeAll s (s' ∷ ss)

-- In order, without overlap, and each between what was taken before and after all of them.
pub data Apart (lo hi : Taken) : List ArgSlot → Type 0 where
  no_slots : Apart lo hi []
  one_slot :
      {s : ArgSlot} {ss : List ArgSlot}
      → Within lo hi s
      → BeforeAll s ss
      → Apart lo hi ss
      → Apart lo hi (s ∷ ss)

Before-Within :
    (lo mid hi : Taken) (s s' : ArgSlot) → Within lo mid s → Within mid hi s' → Before s s'
Before-Within lo mid hi s s' a b = record {
  gp = λ g g' e e'. let x = a.gp g e in let y = b.gp g' e' in omega arith;
  xmm = λ x x' e e'. let u = a.xmm x e in let v = b.xmm x' e' in omega arith;
  stack = λ o o' e e'. let u = a.stack o e in let v = b.stack o' e' in omega arith;
}

BeforeAll-Apart :
    (lo mid hi : Taken) (s : ArgSlot) (ss : List ArgSlot)
    → Within lo mid s
    → Apart mid hi ss
    → BeforeAll s ss
BeforeAll-Apart lo mid hi s [] a h = before_none
BeforeAll-Apart lo mid hi s (s' ∷ ss) a (one_slot w b h) =
    before_more (Before-Within lo mid hi s s' a w) (BeforeAll-Apart lo mid hi s ss a h)

Within-grow :
    (lo lo' hi hi' : Taken) (s : ArgSlot)
    → Grows lo lo'
    → Grows hi hi'
    → Within lo' hi s
    → Within lo hi' s
Within-grow lo lo' hi hi' s a b w =
    let g1 = a.gp in
    let g2 = b.gp in
    let x1 = a.xmm in
    let x2 = b.xmm in
    let o1 = a.stack in
    let o2 = b.stack in
    record {
      gp = λ g e. let u = w.gp g e in (omega arith, omega arith);
      xmm = λ x e. let u = w.xmm x e in (omega arith, omega arith);
      stack = λ o e. let (u, v, k) = w.stack o e in (omega arith, omega arith, k);
    }

Grows-refl : (t : Taken) → Grows t t
Grows-refl t = record { gp = omega arith; xmm = omega arith; stack = omega arith }

Grows-trans : (a b c : Taken) → Grows a b → Grows b c → Grows a c
Grows-trans a b c h k =
    let g1 = h.gp in
    let g2 = k.gp in
    let x1 = h.xmm in
    let x2 = k.xmm in
    let o1 = h.stack in
    let o2 = k.stack in record { gp = omega arith; xmm = omega arith; stack = omega arith }

Apart-grow :
    (lo lo' hi : Taken) (ss : List ArgSlot) → Grows lo lo' → Apart lo' hi ss → Apart lo hi ss
Apart-grow lo lo' hi [] a h = no_slots
Apart-grow lo lo' hi (s ∷ ss) a (one_slot w b h) =
    one_slot (Within-grow lo lo' hi hi s a (Grows-refl hi) w) b (Apart-grow lo lo' hi ss a h)

record AllPlaced (lo : Taken) (n : ℕ) (p : List ArgSlot × Taken) : Type 0 where
  apart : Apart lo p.1 p.0
  taken : IsTaken p.1
  grows : Grows lo p.1
  size : length p.0 ≡ n
  places : AllHavePlaces p.0

place_all-AllPlaced :
    (ps : List Param) (args : List Actual) (t : Taken)
    → IsTaken t
    → AllPlaced t (length args) (place_all ps args t)
unfolding place_all
place_all-AllPlaced ps [] t i = record {
  apart = no_slots;
  taken = i;
  grows = Grows-refl t;
  size = refl;
  places = no_places;
}
place_all-AllPlaced ps (a ∷ args) t i =
    let first = place (first_param ps) a t in
    let p = place-Placed (first_param ps) a t i in
    let ih = place_all-AllPlaced (later_params ps) args first.1 p.taken in
    let all = place_all (later_params ps) args first.1 in
    record {
      apart =
          one_slot (Within-grow t t first.1 all.1 first.0 (Grows-refl t) ih.grows p.within)
            (BeforeAll-Apart t first.1 all.1 first.0 all.0 p.within ih.apart)
            (Apart-grow t first.1 all.1 all.0 p.grows ih.apart);
      taken = ih.taken;
      grows = Grows-trans t first.1 all.1 p.grows ih.grows;
      size = ap suc ih.size;
      places = one_place p.place ih.places;
    }

abbrev start : Bool → Taken
start sret = record { gp_next = if sret then 1 else 0; xmm_next = 0; stack_off = 0 }

start-IsTaken : (sret : Bool) → IsTaken (start sret)
start-IsTaken true = record { gp = omega arith; xmm = omega arith; aligned = refl }
start-IsTaken false = record { gp = omega arith; xmm = omega arith; aligned = refl }

-- A layout for so many arguments: their slots are apart, in the registers behind the hidden pointer, of
-- which there are 6 and 8, and in the bytes of the stack.
pub record IsLayout (n : ℕ) (l : CallLayout) : Type 0 where
  pub end : Taken
  pub apart : Apart (start l.sret) end l.items
  pub taken : IsTaken end
  pub stack_bytes_is : end.stack_off ≡ l.stack_bytes
  pub size : length l.items ≡ n
  pub places : AllHavePlaces l.items

-- How `compute_call_layout` ends: with a layout, or with the message where there are too many arguments.
pub data LaysOut (n : ℕ) : Outcome CallLayout → Type 0 where
  laid_out : {l : CallLayout} → n ≤ 24 → IsLayout n l → LaysOut n (ok l)
  too_many :
      24 < n
      → LaysOut n (
          fatal (
            codes "error: call has "
            ++ (print_decimal n ++ codes " arguments; max supported is 24")))

-- For more than 24 arguments `compute_call_layout` ends with the message about that, and else with a
-- layout: a slot for each argument, with general registers that hold it, a vector register or an offset
-- on the stack, no two of which share a register or a byte of the stack, with at most 6 general and 8
-- vector registers, none of them that of the hidden pointer, and offsets that are multiples of 8.
pub compute_call_layout-LaysOut :
    (fn_decl : Option FnDecl) (args : List Actual)
    → LaysOut (length args) (compute_call_layout fn_decl args)
unfolding compute_call_layout
compute_call_layout-LaysOut fn_decl args =
    let sret = return_is_memory_struct fn_decl in
    let all = place_all-AllPlaced (params_of fn_decl) args (start sret) (start-IsTaken sret) in
    elim (Bool-cases (ltb max_call_layout_items (length args))) [
      | inl e ↦ rw e (too_many (ground arith))
      | inr e ↦ rw e (
          laid_out (ground arith) (record {
            end = (place_all (params_of fn_decl) args (start sret)).1;
            apart = all.apart;
            taken = all.taken;
            stack_bytes_is = refl;
            size = all.size;
            places = all.places;
          }))
    ]
