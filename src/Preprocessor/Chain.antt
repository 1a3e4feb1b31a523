-- ===== src/Preprocessor/Chain.antt =====
-- The loop of a level reads a phrase of the level, from left to right.
use mathlib.Core.List.{append_assoc}
use claudec.Base.{
  ℕ, suc, zero, ◌+◌, ◌≤◌, ◌<◌, Bool, true, false, Option, none, some, ◌++◌, ◌==◌, if◌then◌else◌,
  Bytes, length, drop, ◌≡◌, ap, ◌∙◌, arith, length-append, length-drop,
}
use claudec.Memory.{Outcome, ok, fatal, Settles, settled, refused, >>=-Settles}
use claudec.Preprocessor.Operator.{Operator, traps}
use claudec.Preprocessor.Condition.{skip_blanks, Evaluator, chain_round, chain, left_assoc}
use claudec.Preprocessor.Grammar.{
  Infix, times, over, remainder, plus, minus, left, right, at_most, at_least, below, above, equal,
  unequal, both_bits, one_bit, any_bit, both, either, Phrase, lift, binary_of,
}
use claudec.Preprocessor.Splits.{
  Reads, Reads-shorter, Reads-weaken, Reads-blanks_before, Reads-blanks_after, length-skip_blanks,
}
use claudec.Preprocessor.Atoms.{Settles-value}
use claudec.Preprocessor.Levels.{OperatorAt, none_here, here}

abbrev Any : ℕ → Type 0
Any v = Unit {0}

guarded :
    (b t : Bool) (m m' : Bytes) (v : ℕ)
    → Settles Any (if b then fatal m else if t then fatal m' else ok v)
guarded true t m m' v = refused
guarded false true m m' v = refused
guarded false false m m' v = settled tt

-- Every operator gives a value or a message.
Infix-ends :
    {l : ℕ} {s : Bytes} {f : ℕ → ℕ → Outcome ℕ} (i : Infix l s f) (a b : ℕ) → Settles Any (f a b)
Infix-ends over a b = guarded (b == 0) (traps a b) _ _ _
Infix-ends remainder a b = guarded (b == 0) (traps a b) _ _ _
Infix-ends times a b = settled tt
Infix-ends plus a b = settled tt
Infix-ends minus a b = settled tt
Infix-ends left a b = settled tt
Infix-ends right a b = settled tt
Infix-ends at_most a b = settled tt
Infix-ends at_least a b = settled tt
Infix-ends below a b = settled tt
Infix-ends above a b = settled tt
Infix-ends equal a b = settled tt
Infix-ends unequal a b = settled tt
Infix-ends both_bits a b = settled tt
Infix-ends one_bit a b = settled tt
Infix-ends any_bit a b = settled tt
Infix-ends both a b = settled tt
Infix-ends either a b = settled tt

-- An evaluator that reads phrases of a level from texts up to a length.
abbrev pub Evaluates : (Bytes → ℕ → Type 0) → ℕ → ℕ → Evaluator → Type 0
Evaluates A l n f = (cs : Bytes) → length cs ≤ n → Settles (Reads (Phrase A l) cs) (f cs)

module _ {A : Bytes → ℕ → Type 0} (l n : ℕ) (operand : Evaluator)
    (reads : Evaluates A l n operand) where
  joined :
      (start cs : Bytes) (o : Operator) (a b v : ℕ) (r : Bytes)
      → Infix (suc l) o.symbol o.apply
      → cs ≡ o.symbol ++ drop (length o.symbol) cs
      → o.apply a b ≡ ok v
      → Reads (Phrase A (suc l)) start (a, cs)
      → Reads (Phrase A l) (drop (length o.symbol) cs) (b, r)
      → Reads (Phrase A (suc l)) start (v, r)
  joined start cs o a b v r i e h x y = record {
    used = x.used ++ (o.symbol ++ y.used);
    split = x.split ∙ ap (x.used ++◌) (e ∙ ap (o.symbol ++◌) y.split) ∙ simp (append_assoc);
    means = binary_of i x.means y.means h;
  }

  chain_round-Reads :
      (start cs : Bytes) (a fuel : ℕ) (next : ℕ → Evaluator) (o : Option Operator)
      → OperatorAt (suc l) cs o
      → length cs ≤ n
      → length cs < suc fuel
      → ((v : ℕ) (r : Bytes)
          → length r < fuel
          → length r ≤ n
          → Reads (Phrase A (suc l)) start (v, r)
          → Settles (Reads (Phrase A (suc l)) start) (next v r))
      → Reads (Phrase A (suc l)) start (a, cs)
      → Settles (Reads (Phrase A (suc l)) start) (chain_round operand next a cs o)
  unfolding chain_round
  chain_round-Reads start cs a fuel next none none_here h f k x = settled x
  chain_round-Reads start cs a fuel next (some o) (here i e w) h f k x =
      let behind = drop (length o.symbol) cs in
      let size = length-drop (length o.symbol) cs in
      let blanks = length-skip_blanks behind in
      let whole : length cs ≡ length o.symbol + length behind =
        ap length e ∙ length-append o.symbol behind in
      >>=-Settles (reads (skip_blanks behind) (omega arith)) (λ p y.
        let y' = Reads-blanks_before l behind p y in
        let short = Reads-shorter behind p y' in
        >>=-Settles (Settles-value (o.apply a p.0) (Infix-ends i a p.0))
          (λ v d. k v p.1 (omega arith) (omega arith) (joined start cs o a p.0 v p.1 i e d x y')))

  module _ (op : Bytes → Option Operator)
      (op_at : (cs : Bytes) → OperatorAt (suc l) cs (op cs)) where
    chain-Reads :
        (fuel : ℕ) (start : Bytes) (v : ℕ) (r : Bytes)
        → length r < fuel
        → length r ≤ n
        → Reads (Phrase A (suc l)) start (v, r)
        → Settles (Reads (Phrase A (suc l)) start) (chain fuel op operand v r)
    unfolding chain
    chain-Reads zero start v r h i x = absurd (omega arith)
    chain-Reads (suc fuel) start v r h i x =
        let blanks = length-skip_blanks r in
        chain_round-Reads start (skip_blanks r) v fuel (λ v r. chain fuel op operand v r)
          (op (skip_blanks r)) (op_at (skip_blanks r)) (omega arith) (omega arith)
          (λ v r h i x. chain-Reads fuel start v r h i x) (Reads-blanks_after (suc l) start v r x)

    pub left_assoc-Evaluates : Evaluates A (suc l) n (left_assoc op operand)
    unfolding left_assoc
    left_assoc-Evaluates cs h = >>=-Settles (reads cs h) (λ p x.
        let short = Reads-shorter cs p x in
        chain-Reads (suc (length p.1)) cs p.0 p.1 (omega arith) (omega arith)
          (Reads-weaken cs p (λ t v q. lift q) x))
