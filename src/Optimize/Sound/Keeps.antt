-- ===== src/Optimize/Sound/Keeps.antt =====
-- Ways in which a result that may be missing is kept.
use claudec.Base.{
  >>=-eq-some, ◌>>=◌, ℕ, Bool, true, false, Option, some, ◌≡◌, ◌==◌, if◌then◌else◌, Bool-cases, inl,
  inr,
}
use claudec.Ast.{Attrs, Ast}
use claudec.Optimize.{BinOp, ne, and_then, or_else, is_value}
use claudec.Optimize.Eval.{binary_meaning, signed_only, right_operand}
use claudec.Optimize.Sound.Values.{signed_only-eq-some}

-- The meaning of a node is kept where the meanings of its parts are.
abbrev pub Keeps : Option ℕ → Option ℕ → Type 0
Keeps o p = (v : ℕ) → o ≡ some v → p ≡ some v

pub >>=-Keeps :
    (o p : Option ℕ) (f g : ℕ → Option ℕ)
    → Keeps o p
    → ((a : ℕ) → Keeps (f a) (g a))
    → Keeps (o >>= f) (p >>= g)
>>=-Keeps o p f g k l v h = let (a, q, r) = >>=-eq-some o f h in rw (k a q) (l a v r)

pub Keeps-refl : (o : Option ℕ) → Keeps o o
Keeps-refl o v h = h

pub signed_only-Keeps :
    (a : Attrs) (o p : Option ℕ) → Keeps o p → Keeps (signed_only a o) (signed_only a p)
signed_only-Keeps a o p k v h = let (u, q) = signed_only-eq-some a o h in rw u (k v q)

pub if-Keeps :
    (t : Bool) (o p o' p' : Option ℕ)
    → Keeps o o'
    → Keeps p p'
    → Keeps (if t then o else p) (if t then o' else p')
if-Keeps true o p o' p' k l = k
if-Keeps false o p o' p' k l = l

pub binary_meaning-Keeps :
    (op : BinOp) (l l' r r' : Option ℕ)
    → Keeps l l'
    → Keeps r r'
    → Keeps (binary_meaning op l r) (binary_meaning op l' r')
unfolding binary_meaning
binary_meaning-Keeps and_then l l' r r' k m =
    >>=-Keeps l l' _ _ k
      (λ a. if-Keeps (a == 0) _ _ _ _ (Keeps-refl _) (>>=-Keeps r r' _ _ m (λ b. Keeps-refl _)))
binary_meaning-Keeps or_else l l' r r' k m =
    >>=-Keeps l l' _ _ k
      (λ a. if-Keeps (a == 0) _ _ _ _ (>>=-Keeps r r' _ _ m (λ b. Keeps-refl _)) (Keeps-refl _))
binary_meaning-Keeps _ l l' r r' k m =
    >>=-Keeps l l' _ _ k (λ a. >>=-Keeps r r' _ _ m (λ b. Keeps-refl _))

Keeps-trans : (o p q : Option ℕ) → Keeps o p → Keeps p q → Keeps o q
Keeps-trans o p q k l v h = l v (k v h)

contradiction : (b : Bool) → b ≡ true → b ≡ false → ⊥
contradiction b p q = cc

pub right_operand-Keeps :
    (op : BinOp) (r r' : Ast) (o p : Option ℕ)
    → (is_value 0 r ≡ true → is_value 0 r' ≡ true)
    → (is_value 0 r' ≡ true → Keeps p (some 0))
    → Keeps o p
    → Keeps (right_operand op r o) (right_operand op r' p)
right_operand-Keeps ne r r' o p z w k = elim (Bool-cases (is_value 0 r')) [
  | inl t ↦ elim (Bool-cases (is_value 0 r)) [
    | inl s ↦ rw (s, t) (Keeps-refl _)
    | inr s ↦ rw (s, t) (Keeps-trans _ _ _ k (w t))
  ]
  | inr t ↦ elim (Bool-cases (is_value 0 r)) [
    | inl s ↦ absurd (contradiction (is_value 0 r') (z s) t)
    | inr s ↦ rw (s, t) k
  ]
]
right_operand-Keeps _ r r' o p z w k = k
