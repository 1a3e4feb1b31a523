-- ===== src/Memory.antt =====
-- Blocks of memory as src/strbuf.c uses them, and how a call ends.
--
-- `realloc` is a parameter: it is not the program's own code. A block is the list of its bytes, and
-- NULL is the block without bytes, which is the only thing the program keeps at a capacity of 0.
use claudec.Base.{
  ℕ, ◌+◌, ◌-◌, ◌^◌, ◌≤◌, ◌++◌, Option, none, some, ◌≡◌, refl, ◌⊎◌, inl, inr, Bytes, length, take,
  drop, leb, if◌then◌else◌, subst, Bool, true, false,
}

-- `fatal` is the exit with a message, `stuck` a write out of bounds or a loop that has not ended.
pub data Outcome (A : Type 0) : Type 0 where
  ok : A → Outcome A
  fatal : Bytes → Outcome A
  stuck : Outcome A

infixl 5 ◌>>=◌
abbrev pub ◌>>=◌ : {A B : Type 0} → Outcome A → (A → Outcome B) → Outcome B
ok a >>= f = f a
fatal m >>= f = fatal m
stuck >>= f = stuck

-- `(size_t)-1`
abbrev pub size_max : ℕ
size_max = 2 ^ 64 - 1

abbrev pub size_mod : ℕ
size_mod = 2 ^ 64

-- `memcpy(block + off, src, length src)`
unfoldable pub write_at : Bytes → ℕ → Bytes → Outcome Bytes
write_at block off src =
    if leb (off + length src) (length block)
    then ok (take off block ++ (src ++ drop (off + length src) block))
    else stuck

abbrev pub Realloc : Type 0
Realloc = Bytes → ℕ → Option Bytes

-- What the C standard says of `realloc`: a new block has the size asked for and begins with the bytes
-- of the old one.
pub record IsRealloc (realloc : Realloc) : Type 0 where
  pub size : (p : Bytes) (n : ℕ) (q : Bytes) → realloc p n ≡ some q → length q ≡ n
  pub kept :
      (p : Bytes) (n : ℕ) (q : Bytes) (k : ℕ)
      → realloc p n ≡ some q
      → k ≤ length p
      → k ≤ n
      → take k q ≡ take k p

-- A request that the allocator refuses.
abbrev pub Refuses : Realloc → Type 0
Refuses realloc = (p : Bytes) × (n : ℕ) × (realloc p n ≡ none)

-- The call ends: with a result for which P holds, or with a message, for the reason Q.
abbrev pub Ends : {A : Type 0} → (A → Type 0) → Type 0 → Outcome A → Type 0
Ends P Q o = ((a : _) × (o ≡ ok a) × P a) ⊎ ((m : Bytes) × (o ≡ fatal m) × Q)

pub >>=-Ends :
    {A B : Type 0} (P : A → Type 0) (P' : B → Type 0) (Q : Type 0) (o : Outcome A)
    (f : A → Outcome B)
    → Ends P Q o
    → ((a : A) → P a → Ends P' Q (f a))
    → Ends P' Q (o >>= f)
>>=-Ends P P' Q o f (inl (a, e, p)) g = rw e (g a p)
>>=-Ends P P' Q o f (inr (m, e, q)) g = rw e (inr (m, refl, q))

-- P holds of the result, if there is one.
pub data Ensures {A : Type 0} (P : A → Type 0) : Outcome A → Type 0 where
  holds : {a : A} → P a → Ensures P (ok a)
  exits : {m : Bytes} → Ensures P (fatal m)
  is_stuck : Ensures P stuck

pub Ensures-ok :
    {A : Type 0} {P : A → Type 0} {o : Outcome A} {a : A} → Ensures P o → o ≡ ok a → P a
Ensures-ok {P} (holds h) e = subst P (cc) h
Ensures-ok exits e = cc
Ensures-ok is_stuck e = cc

pub >>=-Ensures :
    {A B : Type 0} {P : A → Type 0} {Q : B → Type 0} {o : Outcome A} {f : A → Outcome B}
    → Ensures P o
    → ((a : A) → P a → Ensures Q (f a))
    → Ensures Q (o >>= f)
>>=-Ensures (holds {a} h) k = k a h
>>=-Ensures exits k = exits
>>=-Ensures is_stuck k = is_stuck

pub Ensures-if :
    {A : Type 0} {P : A → Type 0} (b : Bool) {x y : Outcome A}
    → (b ≡ true → Ensures P x)
    → (b ≡ false → Ensures P y)
    → Ensures P (if b then x else y)
Ensures-if true h k = h refl
Ensures-if false h k = k refl

-- The call ends, with a message or with a result for which P holds.
pub data Settles {A : Type 0} (P : A → Type 0) : Outcome A → Type 0 where
  settled : {a : A} → P a → Settles P (ok a)
  refused : {m : Bytes} → Settles P (fatal m)

pub >>=-Settles :
    {A B : Type 0} {P : A → Type 0} {Q : B → Type 0} {o : Outcome A} {f : A → Outcome B}
    → Settles P o
    → ((a : A) → P a → Settles Q (f a))
    → Settles Q (o >>= f)
>>=-Settles (settled {a} h) k = k a h
>>=-Settles refused k = refused

pub Settles-if :
    {A : Type 0} {P : A → Type 0} (b : Bool) {x y : Outcome A}
    → (b ≡ true → Settles P x)
    → (b ≡ false → Settles P y)
    → Settles P (if b then x else y)
Settles-if true h k = h refl
Settles-if false h k = k refl

pub Settles-map :
    {A : Type 0} {P Q : A → Type 0} {o : Outcome A}
    → Settles P o
    → ((a : A) → P a → Q a)
    → Settles Q o
Settles-map (settled {a} h) k = settled (k a h)
Settles-map refused k = refused
