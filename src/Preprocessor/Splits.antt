-- ===== src/Preprocessor/Splits.antt =====
-- Evaluators read a beginning of their text.
use mathlib.Core.List.{append_assoc}
use claudec.Base.{
  ℕ, suc, zero, ◌≤◌, Bool, [], ◌∷◌, ◌++◌, Bytes, length, ◌≡◌, refl, sym, ap, ◌∙◌, arith, Bool-cases,
  inl, inr, length-append,
}
use claudec.Lexer.{run}
use claudec.Preprocessor.Condition.{is_blank, skip_blanks}
use claudec.Preprocessor.Grammar.{Phrase, blank_before, blank_after, All, nothing, one_more}

-- A value was read from the beginning of the text, which means it, and the rest is what stands behind.
pub record Reads (P : Bytes → ℕ → Type 0) (cs : Bytes) (p : ℕ × Bytes) : Type 0 where
  pub used : Bytes
  pub split : cs ≡ used ++ p.1
  pub means : P used p.0

pub Reads-shorter :
    {P : Bytes → ℕ → Type 0} (cs : Bytes) (p : ℕ × Bytes) → Reads P cs p → length p.1 ≤ length cs
Reads-shorter cs p r = omega (arith, ap length r.split, length-append r.used p.1)

pub Reads-weaken :
    {P Q : Bytes → ℕ → Type 0} (cs : Bytes) (p : ℕ × Bytes)
    → ((t : Bytes) (v : ℕ) → P t v → Q t v)
    → Reads P cs p
    → Reads Q cs p
Reads-weaken cs p f r = record { used = r.used; split = r.split; means = f r.used p.0 r.means }

pub run-All : (t : ℕ → Bool) (n : ℕ) (cs : Bytes) → All t (run t n cs)
unfolding run
run-All t zero cs = nothing
run-All t (suc n) [] = nothing
run-All t (suc n) (c ∷ cs) = elim (Bool-cases (t c)) [
  | inl e ↦ rw e (one_more e (run-All t n cs))
  | inr e ↦ rw e nothing
]

-- The blanks that are skipped.
pub record Skips (cs : Bytes) : Type 0 where
  pub blanks : Bytes
  pub all : All is_blank blanks
  pub split : cs ≡ blanks ++ skip_blanks cs

pub skip_blanks-Skips : (cs : Bytes) → Skips cs
unfolding skip_blanks
skip_blanks-Skips [] = record { blanks = []; all = nothing; split = refl }
skip_blanks-Skips (c ∷ cs) = elim (Bool-cases (is_blank c)) [
  | inl e ↦
      let more = skip_blanks-Skips cs in
      record {
        blanks = c ∷ more.blanks;
        all = one_more e more.all;
        split = rw e (ap (c ∷◌) more.split);
      }
  | inr e ↦ record { blanks = []; all = nothing; split = rw e refl }
]

pub length-skip_blanks : (cs : Bytes) → length (skip_blanks cs) ≤ length cs
length-skip_blanks cs =
    let b = skip_blanks-Skips cs in
    omega (arith, ap length b.split, length-append b.blanks (skip_blanks cs))

module _ {A : Bytes → ℕ → Type 0} (l : ℕ) where
  pub Reads-blanks_before :
      (cs : Bytes) (p : ℕ × Bytes) → Reads (Phrase A l) (skip_blanks cs) p → Reads (Phrase A l) cs p
  unfolding skip_blanks
  Reads-blanks_before [] p r = r
  Reads-blanks_before (c ∷ cs) p r = elim (Bool-cases (is_blank c)) [
    | inl e ↦
        let more = Reads-blanks_before cs p (rw e at r) in
        record {
          used = c ∷ more.used;
          split = ap (c ∷◌) more.split;
          means = blank_before e more.means;
        }
    | inr e ↦ rw e at r
  ]

  pub Reads-blanks_after :
      (cs : Bytes) (v : ℕ) (r : Bytes)
      → Reads (Phrase A l) cs (v, r)
      → Reads (Phrase A l) cs (v, skip_blanks r)
  unfolding skip_blanks
  Reads-blanks_after cs v [] r = r
  Reads-blanks_after cs v (c ∷ s) r = elim (Bool-cases (is_blank c)) [
    | inl e ↦ rw e (
        Reads-blanks_after cs v s (record {
          used = r.used ++ c ∷ [];
          split = r.split ∙ sym (append_assoc r.used (c ∷ []) s);
          means = blank_after c e r.means;
        }))
    | inr e ↦ rw e r
  ]
