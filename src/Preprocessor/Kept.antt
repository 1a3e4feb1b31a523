-- ===== src/Preprocessor/Kept.antt =====
-- The lines that a file keeps are those of the branches that its conditions select.
use Prim.Native.Nat.{max}
use claudec.Base.{
  suc, ◌+◌, ◌≤◌, Bool, true, false, not, ◌&&◌, List, [], ◌∷◌, ◌++◌, if◌then◌else◌, length, ◌≡◌,
  refl, ap, ◌∙◌, arith, lt→ltb,
}
use claudec.Memory.{Outcome, ok, fatal, stuck, ◌>>=◌}
use claudec.Preprocessor.Conditionals.{
  CondFrame, CondState, max_cond_depth, Test, test_value, cond_if, with_top, elif_frame, cond_elif,
  cond_else, emitting_of, cond_endif, Line, if_line, elif_line, else_line, endif_line, other_line,
  cond_step, cond_run, all_closed, cond_file,
}
use claudec.Preprocessor.Sections.{
  Section, plain, conditional, Sections, done, then_more, Rest, no_branch, otherwise, or_if,
  section_lines, sections_lines, rest_lines, section_depth, sections_depth, rest_depth,
  section_kept, sections_kept, rest_kept,
}
use claudec.Preprocessor.Selected.{
  at_stack, frame, if_emitting, in_state, prepend, goes_on, prepend_nothing, cond_run-append,
  in_state-goes_on, if_emitting-then, SectionKept, SectionsKept, RestKept, branch_of,
  branch_skipped, only_first,
}

module _ {A : Type 0} where
  plain_line :
      (a : A) (fs : List CondFrame) (b : Bool)
      → emitting_of fs ≡ b
      → cond_run (other_line a ∷ []) (at_stack fs)
        ≡ in_state (at_stack fs) (if_emitting b (ok (a ∷ [])))
  unfolding cond_run cond_step
  plain_line a fs true e = rw e refl
  plain_line a fs false e = rw e refl

  -- After the test of the first branch.
  tested :
      (body : Sections A) (rest : Rest A)
      → SectionsKept body
      → RestKept rest
      → (fs : List CondFrame)
      → suc (length fs) + max (sections_depth body) (rest_depth rest) ≤ max_cond_depth
      → (c : Outcome Bool)
      → (c >>= λ b.
          prepend []
            (cond_run (sections_lines body ++ rest_lines rest) (at_stack (frame true b b ∷ fs))))
        ≡ in_state (at_stack fs) (c >>= λ b. if b then sections_kept body else rest_kept rest)
  tested body rest ih ih' fs h (ok b) = branch_of body rest ih ih' fs h b
  tested body rest ih ih' fs h (fatal m) = refl
  tested body rest ih ih' fs h stuck = refl

  -- The run after a directive whose test comes first.
  bound :
      (c : Outcome Bool) (f : Bool → CondState) (ls : List (Line A))
      → ((c >>= λ b. ok (f b)) >>= λ s. ok (s, [])) >>= goes_on ls
        ≡ c >>= λ b. prepend [] (cond_run ls (f b))
  bound (ok b) f ls = refl
  bound (fatal m) f ls = refl
  bound stuck f ls = refl

  conditional_kept :
      (t : Test) (body : Sections A) (rest : Rest A)
      → SectionsKept body
      → RestKept rest
      → (fs : List CondFrame) (em : Bool) → emitting_of fs ≡ em
      → suc (length fs) + max (sections_depth body) (rest_depth rest) ≤ max_cond_depth
      → cond_run (if_line t ∷ (sections_lines body ++ rest_lines rest)) (at_stack fs)
        ≡ in_state (at_stack fs) (
            if_emitting em (test_value t >>= λ b. if b then sections_kept body else rest_kept rest))
  unfolding cond_run cond_step cond_if
  conditional_kept t body rest ih ih' fs true e h =
      let room = lt→ltb (length fs) max_cond_depth (omega arith) in
      rw (room, e)
        (rw e at (
          bound (test_value t) (λ b. at_stack (frame true b b ∷ fs))
            (sections_lines body ++ rest_lines rest)
          ∙ tested body rest ih ih' fs h (test_value t)))
  conditional_kept t body rest ih ih' fs false e h =
      let room = lt→ltb (length fs) max_cond_depth (omega arith) in
      rw (room, e) (rw e at (branch_skipped body rest ih ih' fs false false h refl))

  or_if_kept :
      (t : Test) (body : Sections A) (rest : Rest A)
      → SectionsKept body
      → RestKept rest
      → (fs : List CondFrame) (p taken e : Bool)
      → suc (length fs) + max (sections_depth body) (rest_depth rest) ≤ max_cond_depth
      → (p ≡ false → e ≡ false)
      → cond_run
          (elif_line t ∷ (sections_lines body ++ rest_lines rest))
          (at_stack (frame p taken e ∷ fs))
        ≡ in_state (at_stack fs) (
            if_emitting
              (p && not taken)
              (test_value t >>= λ b. if b then sections_kept body else rest_kept rest))
  unfolding cond_run cond_step cond_elif elif_frame
  or_if_kept t body rest ih ih' fs true true e h k =
      branch_skipped body rest ih ih' fs true true h refl
  or_if_kept t body rest ih ih' fs true false e h k = by_test (test_value t)
    where
      by_test :
          (c : Outcome Bool)
          → ((c >>= λ b. ok (with_top (elif_frame b (frame true false e)) fs)) >>= λ s. ok (s, []))
              >>= goes_on (sections_lines body ++ rest_lines rest)
            ≡ in_state (at_stack fs) (c >>= λ b. if b then sections_kept body else rest_kept rest)
      by_test (ok true) = branch_of body rest ih ih' fs h true
      by_test (ok false) = branch_of body rest ih ih' fs h false
      by_test (fatal m) = refl
      by_test stuck = refl
  or_if_kept t body rest ih ih' fs false taken e h k =
      rw (k refl) (branch_skipped body rest ih ih' fs false taken h refl)

  end_line :
      (fs : List CondFrame) (f : CondFrame)
      → cond_run {A = A} (endif_line ∷ []) (at_stack (f ∷ fs)) ≡ ok (at_stack fs, [])
  unfolding cond_run cond_step cond_endif
  end_line fs f = refl

  nothing_kept :
      (fs : List CondFrame) (b : Bool)
      → ok (at_stack fs, []) ≡ in_state {A = A} (at_stack fs) (if_emitting b (ok []))
  nothing_kept fs true = refl
  nothing_kept fs false = refl

  -- The last branch, in a frame that emits or not.
  last_branch :
      (body : Sections A)
      → SectionsKept body
      → (fs : List CondFrame) (f : CondFrame)
      → suc (length fs) + sections_depth body ≤ max_cond_depth
      → prepend [] (cond_run (sections_lines body ++ endif_line ∷ []) (at_stack (f ∷ fs)))
        ≡ in_state (at_stack fs) (if_emitting f.emitting (sections_kept body))
  last_branch body ih fs f h =
      let st = at_stack (f ∷ fs) in
      prepend_nothing _
      ∙ cond_run-append (sections_lines body) (endif_line ∷ []) st
      ∙ ap (λ o. o >>= goes_on (endif_line ∷ [])) (ih (f ∷ fs) (omega arith))
      ∙ in_state-goes_on st (at_stack fs) (if_emitting f.emitting (sections_kept body)) (ok [])
          (endif_line ∷ []) (end_line fs f)
      ∙ ap (in_state (at_stack fs)) (only_first (if_emitting f.emitting (sections_kept body)))

  otherwise_kept :
      (body : Sections A)
      → SectionsKept body
      → (fs : List CondFrame) (p t e : Bool)
      → suc (length fs) + sections_depth body ≤ max_cond_depth
      → (p ≡ false → e ≡ false)
      → cond_run
          (else_line ∷ (sections_lines body ++ endif_line ∷ []))
          (at_stack (frame p t e ∷ fs))
        ≡ in_state (at_stack fs) (if_emitting (p && not t) (sections_kept body))
  unfolding cond_run cond_step cond_else
  otherwise_kept body ih fs true t e h k =
      last_branch body ih fs
        (record { emitting = not t; parent_emitting = true; seen_else = true; branch_taken = t }) h
  otherwise_kept body ih fs false t e h k = rw (k refl) (
      last_branch body ih fs
        (record { emitting = false; parent_emitting = false; seen_else = true; branch_taken = t })
        h)

  mutual
    unfolding section_lines section_depth section_kept cond_run

    section-Kept : (s : Section A) → SectionKept s
    section-Kept (plain a) fs h = plain_line a fs (emitting_of fs) refl
    section-Kept (conditional t body rest) fs h =
        conditional_kept t body rest (sections-Kept body) (rest-Kept rest) fs (emitting_of fs) refl
          (omega arith)

    sections-Kept : (s : Sections A) → SectionsKept s
    sections-Kept done fs h = nothing_kept fs (emitting_of fs)
    sections-Kept (then_more s more) fs h =
        let em = emitting_of fs in
        cond_run-append (section_lines s) (sections_lines more) (at_stack fs)
        ∙ ap (λ o. o >>= goes_on (sections_lines more)) (section-Kept s fs (omega arith))
        ∙ in_state-goes_on (at_stack fs) (at_stack fs) (if_emitting em (section_kept s))
            (if_emitting em (sections_kept more)) (sections_lines more)
            (sections-Kept more fs (omega arith))
        ∙ ap (in_state (at_stack fs)) (if_emitting-then em (section_kept s) (sections_kept more))

    rest-Kept : (r : Rest A) → RestKept r
    rest-Kept no_branch fs p t e h k = end_line fs (frame p t e) ∙ nothing_kept fs (p && not t)
    rest-Kept (otherwise body) fs p t e h k = otherwise_kept body (sections-Kept body) fs p t e h k
    rest-Kept (or_if t body rest) fs p taken e h k =
        or_if_kept t body rest (sections-Kept body) (rest-Kept rest) fs p taken e h k

  -- Of a text of sections that are nested at most 64 deep, `cond_file` keeps the lines outside of
  -- conditionals and those of the first branch of each whose condition holds, or ends with the message of
  -- a condition that is evaluated on the way.
  pub cond_file-kept :
      (s : Sections A)
      → sections_depth s ≤ max_cond_depth
      → cond_file (sections_lines s) ≡ sections_kept s
  unfolding cond_file
  cond_file-kept s h =
      ap (λ o. o >>= all_closed) (sections-Kept s [] (omega arith)) ∙ closes (sections_kept s)
    where
      closes : (o : Outcome (List A)) → (in_state (at_stack []) o >>= all_closed) ≡ o
      closes (ok out) = refl
      closes (fatal m) = refl
      closes stuck = refl
