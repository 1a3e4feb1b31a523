-- ===== src/Peephole/Engine/Sound.antt =====
-- The sliding window engine ends, and keeps whatever each of its patterns keeps.

use claudec.Base.{
  ℕ, zero, suc, ◌+◌, ◌-◌, ◌≤◌, ◌<◌, true, some, List, [], ◌∷◌, ◌++◌, Bytes, ltb, length, take, drop,
  ◌≡◌, refl, sym, ap, ◌∙◌, subst, arith, Bool-cases, Option-cases, inl, inr, ltb→lt, ltb→ge,
  take-append-drop, drop-add, length-take, length-drop, length-append,
}
use claudec.Peephole.{Pattern}
use claudec.Peephole.Engine.{first_match, spliced, peephole_loop, peephole_apply}

-- A relation between programs that rewriting a part of a program can use.
pub record IsCongruence (R : List Bytes → List Bytes → Type 0) : Type 0 where
  pub reflexive : (xs : List Bytes) → R xs xs
  pub transitive : (xs ys zs : List Bytes) → R xs ys → R ys zs → R xs zs
  pub context :
      (pre xs ys post : List Bytes) → R xs ys → R (pre ++ (xs ++ post)) (pre ++ (ys ++ post))

-- Where the pattern matches a window, its replacement is there and is related to the window.
pub record IsSound (R : List Bytes → List Bytes → Type 0) (p : Pattern) : Type 0 where
  pub wide : 1 ≤ p.window_size
  pub replaces :
      (win : List Bytes)
      → length win ≡ p.window_size
      → p.matcher win ≡ true
      → (out : List Bytes) × (p.replacer win ≡ some out) × R win out

pub data AllSound (R : List Bytes → List Bytes → Type 0) : List Pattern → Type 0 where
  none_left : AllSound R []
  and_all : {p : Pattern} {ps : List Pattern} → IsSound R p → AllSound R ps → AllSound R (p ∷ ps)

record Fires (R : List Bytes → List Bytes → Type 0) (lines : List Bytes) (i : ℕ) (p : Pattern)
    : Type 0 where
  sound : IsSound R p
  fits : i + p.window_size ≤ length lines
  matches : p.matcher (take p.window_size (drop i lines)) ≡ true

module _ (R : List Bytes → List Bytes → Type 0) where
  first_match-Fires :
      (ps : List Pattern)
      → AllSound R ps
      → (lines : List Bytes) (i : ℕ) (p : Pattern) → first_match ps lines i ≡ some p
      → Fires R lines i p
  unfolding first_match
  first_match-Fires [] all lines i p h = cc
  first_match-Fires (q ∷ qs) (and_all s all) lines i p h =
      elim (Bool-cases (ltb (length lines) (i + q.window_size))) [
        | inl far ↦ let k = rw far at h in (first_match-Fires qs all lines i p k)
        | inr near ↦ elim (Bool-cases (q.matcher (take q.window_size (drop i lines)))) [
          | inl m ↦
              let k = rw (near, m) at h in
              let e : q ≡ p = cc in
              subst (Fires R lines i) e (record { sound = s; fits = ltb→ge _ _ near; matches = m })
          | inr m ↦ let k = rw (near, m) at h in first_match-Fires qs all lines i p k
        ]
      ]

  module _ (c : IsCongruence R) (ps : List Pattern) (all : AllSound R ps) where
    spliced-related :
        (lines out : List Bytes) (i w : ℕ)
        → R (take w (drop i lines)) out
        → R lines (spliced lines i w out)
    unfolding spliced
    spliced-related lines out i w r =
        let shape : lines ≡ take i lines ++ (take w (drop i lines) ++ drop (i + w) lines) =
          sym (take-append-drop i lines)
          ∙ ap (take i lines ++◌) (
              sym (take-append-drop w (drop i lines))
              ∙ ap (take w (drop i lines) ++◌) (drop-add i w lines)) in
        subst (λ xs. R xs (take i lines ++ (out ++ drop (i + w) lines))) (sym shape)
          (c.context (take i lines) _ out (drop (i + w) lines) r)

    length-spliced :
        (lines out : List Bytes) (i w : ℕ)
        → i + w ≤ length lines
        → length (spliced lines i w out) ≡ i + length out + (length lines - (i + w))
    unfolding spliced
    length-spliced lines out i w h =
        length-append (take i lines) (out ++ drop (i + w) lines)
        ∙ omega (
          arith,
          length-append out (drop (i + w) lines),
          length-take i lines (omega arith),
          length-drop (i + w) lines,
        )

    peephole_loop_sound :
        (fuel : ℕ) (lines : List Bytes) (i : ℕ)
        → length lines - i < fuel
        → (lines' : List Bytes) × (peephole_loop fuel ps lines i ≡ some lines') × R lines lines'
    unfolding peephole_loop
    peephole_loop_sound zero lines i h = absurd (omega arith)
    peephole_loop_sound (suc fuel) lines i h = elim (Bool-cases (ltb i (length lines))) [
      | inr done ↦ rw done (lines, refl, c.reflexive lines)
      | inl more ↦
          let below = ltb→lt _ _ more in
          elim (Option-cases (first_match ps lines i)) [
            | inl none_fires ↦
                rw (more, none_fires) (peephole_loop_sound fuel lines (suc i) (omega arith))
            | inr (p, first) ↦
                let f = first_match-Fires ps all lines i p first in
                let w = p.window_size in
                let win = take w (drop i lines) in
                let fit = f.fits in
                let wide = f.sound.wide in
                let size : length win ≡ w =
                  length-take w (drop i lines) (omega (arith, length-drop i lines)) in
                let (out, replaced, related) = f.sound.replaces win size f.matches in
                let (lines', looped, kept) =
                  peephole_loop_sound fuel (spliced lines i w out) (i + length out)
                    (omega (arith, length-spliced lines out i w fit)) in
                rw (more, first, replaced)
                  (lines', looped, c.transitive _ _ _ (spliced-related lines out i w related) kept)
          ]
    ]

    -- For a relation that holds also when a part of a program is rewritten, and patterns whose
    -- replacements are related to the windows that they match, the pass ends with a program related
    -- to the one it was given.
    pub peephole_apply_sound :
        (lines : List Bytes)
        → (lines' : List Bytes) × (peephole_apply ps lines ≡ some lines') × R lines lines'
    unfolding peephole_apply
    peephole_apply_sound lines = peephole_loop_sound (suc (length lines)) lines 0 (omega arith)
