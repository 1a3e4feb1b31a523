-- ===== src/Preprocessor/Selected.antt =====
-- The stack of conditionals keeps the first branch whose condition holds.
use Prim.Native.Nat.{max}
use mathlib.Core.List.{append_assoc, append-nil}
use claudec.Base.{
  suc, ◌+◌, ◌≤◌, Bool, true, false, not, ◌&&◌, List, [], ◌∷◌, ◌++◌, if◌then◌else◌, length, ◌≡◌,
  refl, sym, ap, ◌∙◌, arith,
}
use claudec.Memory.{Outcome, ok, fatal, stuck, ◌>>=◌}
use claudec.Preprocessor.Conditionals.{
  CondFrame, CondState, max_cond_depth, emitting_of, Line, cond_step, cond_run,
}
use claudec.Preprocessor.Sections.{
  Section, Sections, Rest, section_lines, sections_lines, rest_lines, section_depth, sections_depth,
  rest_depth, section_kept, sections_kept, rest_kept,
}

-- A state in which `emitting` is that of the top of the stack.
abbrev pub at_stack : List CondFrame → CondState
at_stack fs = record { cond_stack = fs; emitting = emitting_of fs }

-- A frame inside of a conditional without its #else yet.
abbrev pub frame : Bool → Bool → Bool → CondFrame
frame parent taken e = record {
  emitting = e;
  parent_emitting = parent;
  seen_else = false;
  branch_taken = taken;
}

module _ {A : Type 0} where
  -- What is emitted in a state where lines are emitted or not.
  abbrev pub if_emitting : Bool → Outcome (List A) → Outcome (List A)
  if_emitting true o = o
  if_emitting false o = ok []

  abbrev pub in_state : CondState → Outcome (List A) → Outcome (CondState × List A)
  in_state st o = o >>= λ out. ok (st, out)

  abbrev pub put : List A → CondState × List A → Outcome (CondState × List A)
  put out q = ok (q.0, out ++ q.1)

  -- What was emitted before.
  abbrev pub prepend : List A → Outcome (CondState × List A) → Outcome (CondState × List A)
  prepend out o = o >>= put out

  -- A run from where another ends.
  abbrev pub goes_on : List (Line A) → CondState × List A → Outcome (CondState × List A)
  goes_on ls p = prepend p.1 (cond_run ls p.0)

  prepend_twice :
      (x y : List A) (o : Outcome (CondState × List A))
      → prepend x (prepend y o) ≡ prepend (x ++ y) o
  prepend_twice x y (ok q) = ap (λ l. ok (q.0, l)) (sym (append_assoc x y q.1))
  prepend_twice x y (fatal m) = refl
  prepend_twice x y stuck = refl

  pub prepend_nothing : (o : Outcome (CondState × List A)) → prepend [] o ≡ o
  prepend_nothing (ok q) = refl
  prepend_nothing (fatal m) = refl
  prepend_nothing stuck = refl

  prepend_before :
      (out : List A) (ys : List (Line A)) (o : Outcome (CondState × List A))
      → prepend out (o >>= goes_on ys) ≡ prepend out o >>= goes_on ys
  prepend_before out ys (ok p) = prepend_twice out p.1 (cond_run ys p.0)
  prepend_before out ys (fatal m) = refl
  prepend_before out ys stuck = refl

  pub cond_run-append :
      (xs ys : List (Line A)) (st : CondState)
      → cond_run (xs ++ ys) st ≡ cond_run xs st >>= goes_on ys
  unfolding cond_run
  cond_run-append [] ys st = sym (prepend_nothing (cond_run ys st))
  cond_run-append (x ∷ xs) ys st = by_step (cond_step x st) (λ s. cond_run-append xs ys s)
    where
      by_step :
          (o : Outcome (CondState × List A))
          → ((s : CondState) → cond_run (xs ++ ys) s ≡ cond_run xs s >>= goes_on ys)
          → o >>= goes_on (xs ++ ys) ≡ (o >>= goes_on xs) >>= goes_on ys
      by_step (ok p) ih = ap (prepend p.1) (ih p.0) ∙ prepend_before p.1 ys (cond_run xs p.0)
      by_step (fatal m) ih = refl
      by_step stuck ih = refl

  -- The first of two texts emits what it keeps, and the second what it gives from the same state.
  pub in_state-goes_on :
      (st st' : CondState) (o o' : Outcome (List A)) (ls : List (Line A))
      → cond_run ls st ≡ in_state st' o'
      → in_state st o >>= goes_on ls ≡ in_state st' (o >>= λ x. o' >>= λ y. ok (x ++ y))
  in_state-goes_on st st' (ok x) o' ls h = ap (prepend x) h ∙ both o'
    where
      both :
          (o' : Outcome (List A))
          → prepend x (in_state st' o') ≡ in_state st' (o' >>= λ y. ok (x ++ y))
      both (ok y) = refl
      both (fatal m) = refl
      both stuck = refl
  in_state-goes_on st st' (fatal m) o' ls h = refl
  in_state-goes_on st st' stuck o' ls h = refl

  pub if_emitting-then :
      (b : Bool) (o o' : Outcome (List A))
      → if_emitting b o >>= (λ x. if_emitting b o' >>= λ y. ok (x ++ y))
        ≡ if_emitting b (o >>= λ x. o' >>= λ y. ok (x ++ y))
  if_emitting-then true o o' = refl
  if_emitting-then false o o' = refl

  pub only_first : (o : Outcome (List A)) → (o >>= λ x. ok (x ++ [])) ≡ o
  only_first (ok x) = ap (λ l. ok l) (append-nil x)
  only_first (fatal m) = refl
  only_first stuck = refl

  only_second : (o : Outcome (List A)) → (o >>= λ y. ok ([] ++ y)) ≡ o
  only_second (ok x) = refl
  only_second (fatal m) = refl
  only_second stuck = refl

  abbrev pub SectionKept : Section A → Type 0
  SectionKept s =
      (fs : List CondFrame)
      → length fs + section_depth s ≤ max_cond_depth
      → cond_run (section_lines s) (at_stack fs)
        ≡ in_state (at_stack fs) (if_emitting (emitting_of fs) (section_kept s))

  abbrev pub SectionsKept : Sections A → Type 0
  SectionsKept s =
      (fs : List CondFrame)
      → length fs + sections_depth s ≤ max_cond_depth
      → cond_run (sections_lines s) (at_stack fs)
        ≡ in_state (at_stack fs) (if_emitting (emitting_of fs) (sections_kept s))

  abbrev pub RestKept : Rest A → Type 0
  RestKept r =
      (fs : List CondFrame) (p t e : Bool)
      → suc (length fs) + rest_depth r ≤ max_cond_depth
      → (p ≡ false → e ≡ false)
      → cond_run (rest_lines r) (at_stack (frame p t e ∷ fs))
        ≡ in_state (at_stack fs) (if_emitting (p && not t) (rest_kept r))

  -- A branch and those after it, from the state that its directive leaves.
  branch :
      (body : Sections A) (rest : Rest A)
      → SectionsKept body
      → RestKept rest
      → (fs : List CondFrame) (p t e : Bool)
      → suc (length fs) + max (sections_depth body) (rest_depth rest) ≤ max_cond_depth
      → (p ≡ false → e ≡ false)
      → cond_run (sections_lines body ++ rest_lines rest) (at_stack (frame p t e ∷ fs))
        ≡ in_state (at_stack fs) (
            if_emitting e (sections_kept body) >>= λ x.
            if_emitting (p && not t) (rest_kept rest) >>= λ y. ok (x ++ y))
  branch body rest ih ih' fs p t e h k =
      let st = at_stack (frame p t e ∷ fs) in
      cond_run-append (sections_lines body) (rest_lines rest) st
      ∙ ap (λ o. o >>= goes_on (rest_lines rest)) (ih (frame p t e ∷ fs) (omega arith))
      ∙ in_state-goes_on st (at_stack fs) (if_emitting e (sections_kept body))
          (if_emitting (p && not t) (rest_kept rest)) (rest_lines rest)
          (ih' fs p t e (omega arith) k)

  -- The test of a branch was evaluated to b, or it was not asked for.
  pub branch_of :
      (body : Sections A) (rest : Rest A)
      → SectionsKept body
      → RestKept rest
      → (fs : List CondFrame)
      → suc (length fs) + max (sections_depth body) (rest_depth rest) ≤ max_cond_depth
      → (b : Bool)
      → prepend []
          (cond_run (sections_lines body ++ rest_lines rest) (at_stack (frame true b b ∷ fs)))
        ≡ in_state (at_stack fs) (if b then sections_kept body else rest_kept rest)
  branch_of body rest ih ih' fs h true =
      prepend_nothing _
      ∙ branch body rest ih ih' fs true true true h (λ e. cc)
      ∙ ap (in_state (at_stack fs)) (only_first (sections_kept body))
  branch_of body rest ih ih' fs h false =
      prepend_nothing _
      ∙ branch body rest ih ih' fs true false false h (λ e. cc)
      ∙ ap (in_state (at_stack fs)) (only_second (rest_kept rest))

  pub branch_skipped :
      (body : Sections A) (rest : Rest A)
      → SectionsKept body
      → RestKept rest
      → (fs : List CondFrame) (p t : Bool)
      → suc (length fs) + max (sections_depth body) (rest_depth rest) ≤ max_cond_depth
      → (p && not t) ≡ false
      → prepend []
          (cond_run (sections_lines body ++ rest_lines rest) (at_stack (frame p t false ∷ fs)))
        ≡ ok (at_stack fs, [])
  branch_skipped body rest ih ih' fs p t h k =
      prepend_nothing _ ∙ branch body rest ih ih' fs p t false h (λ e. refl) ∙ rw k refl
