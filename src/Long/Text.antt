-- ===== src/Long/Text.antt =====
-- `strtol(s, NULL, 0)` and `snprintf(buf, n, "%ld", v)` of the C library, as src/optimize.c uses
-- them: the value of a literal is kept as its text.
use native.Mathlib.Nat.{pow-suc, zero-add}
use claudec.Base.{
  ℕ, zero, suc, ◌+◌, ◌-◌, ◌*◌, ◌/◌, ◌%◌, ◌^◌, ◌≤◌, ◌<◌, min, Bool, false, ◌&&◌, ◌||◌, [], ◌∷◌, ◌≡◌,
  refl, ◌∙◌, arith, ltb, leb, ◌==◌, if◌then◌else◌, Bytes, lt→ltb, ltb→lt, ltb→ge, leb→le, leb→gt,
  ap, Bool-cases, inl, inr,
}
use claudec.Long.{long_mod, IsLong, is_negative}

-- The value of a digit or letter: 36 and above is no digit in any base.
abbrev digit_value : ℕ → ℕ
digit_value c =
    if leb b'0' c && leb c b'9'
    then c - b'0'
    else if leb b'a' c && leb c b'z'
    then c - b'a' + 10
    else if leb b'A' c && leb c b'Z'
    then c - b'A' + 10
    else 36

-- The longest run of digits, after what was read before.
unfoldable pub read_digits : ℕ → ℕ → Bytes → ℕ
read_digits base acc [] = acc
read_digits base acc (c ∷ cs) =
    let rest = read_digits base (acc * base + digit_value c) cs in
    if ltb (digit_value c) base then rest else acc

abbrev is_space : ℕ → Bool
is_space c = (c == 32) || (leb 9 c && leb c 13)

unfoldable pub skip_space : Bytes → Bytes
skip_space [] = []
skip_space (c ∷ cs) = if is_space c then skip_space cs else c ∷ cs

-- Base 0: "0x" before a hexadecimal digit, "0", or decimal.
unfoldable pub read_prefixed : Bytes → ℕ
read_prefixed [] = 0
read_prefixed (c ∷ []) = read_digits 10 0 (c ∷ [])
read_prefixed (c ∷ x ∷ []) = read_digits (if c == b'0' then 8 else 10) 0 (c ∷ x ∷ [])
read_prefixed (c ∷ x ∷ d ∷ cs) =
    if (c == b'0') && ((x == b'x') || (x == b'X')) && ltb (digit_value d) 16
    then read_digits 16 0 (d ∷ cs)
    else read_digits (if c == b'0' then 8 else 10) 0 (c ∷ x ∷ d ∷ cs)

-- Out of range the result is LONG_MAX or LONG_MIN.
abbrev positive : ℕ → ℕ
positive n = min n (2 ^ 63 - 1)

abbrev negative : ℕ → ℕ
negative n = (long_mod - min n (2 ^ 63)) % long_mod

abbrev signed : Bytes → ℕ
signed [] = 0
signed (c ∷ cs) =
    if c == b'-'
    then negative (read_prefixed cs)
    else if c == b'+'
    then positive (read_prefixed cs)
    else positive (read_prefixed (c ∷ cs))

unfoldable pub strtol : Bytes → ℕ
strtol s = signed (skip_space s)

-- Decimal digits before a text. The fuel is the number of digits at most.
unfoldable pub put_digits : ℕ → ℕ → Bytes → Bytes
put_digits zero n rest = rest
put_digits (suc f) n rest =
    let more = put_digits f (n / 10) ((n % 10 + b'0') ∷ rest) in
    if ltb n 10 then (n + b'0') ∷ rest else more

-- Twenty digits hold every number below 2 ^ 64.
unfoldable pub print_decimal : ℕ → Bytes
print_decimal n = put_digits 20 n []

unfoldable pub print_long : ℕ → Bytes
print_long w = if is_negative w then b'-' ∷ print_decimal (long_mod - w) else print_decimal w

-- What `put_digits` writes is a digit, not 0 unless the number is, and digits that give the value.
record Numeral (n : ℕ) (rest text : Bytes) : Type 0 where
  head : ℕ
  tail : Bytes
  shape : text ≡ head ∷ tail
  above : 48 ≤ head
  below : head ≤ 57
  nonzero : 1 ≤ n → 49 ≤ head
  value : read_digits 10 (head - 48) tail ≡ read_digits 10 n rest

read_digit :
    (acc d : ℕ) (cs : Bytes)
    → d < 10
    → read_digits 10 acc ((d + b'0') ∷ cs) ≡ read_digits 10 (acc * 10 + d) cs
unfolding read_digits
read_digit acc d cs h = let v : digit_value (d + b'0') ≡ d = ground arith in rw (v, lt→ltb d 10 h)

put_one_digit : (n : ℕ) (rest : Bytes) → n < 10 → Numeral n rest ((n + b'0') ∷ rest)
put_one_digit n rest h = record {
  head = n + b'0';
  tail = rest;
  shape = refl;
  above = omega arith;
  below = omega arith;
  nonzero = λ p. omega arith;
  value = let e : n + 48 - 48 ≡ n = omega arith in rw e;
}

put_last_digit :
    (n : ℕ) (rest text : Bytes)
    → 10 ≤ n
    → Numeral (n / 10) ((n % 10 + b'0') ∷ rest) text
    → Numeral n rest text
put_last_digit n rest text h m = record {
  head = m.head;
  tail = m.tail;
  shape = m.shape;
  above = m.above;
  below = m.below;
  nonzero = λ p. m.nonzero (omega arith);
  value =
      let e : n / 10 * 10 + n % 10 ≡ n = omega arith in
      m.value ∙ read_digit (n / 10) (n % 10) rest (omega arith) ∙ rw e;
}

put_digits-Numeral :
    (f n : ℕ) (rest : Bytes) → n < 10 ^ suc f → Numeral n rest (put_digits (suc f) n rest)
unfolding put_digits
put_digits-Numeral zero n rest h = elim (Bool-cases (ltb n 10)) [
  | inl e ↦ rw e (put_one_digit n rest (ltb→lt n 10 e))
  | inr e ↦ absurd (omega (arith, ltb→ge n 10 e))
]
put_digits-Numeral (suc f) n rest h = elim (Bool-cases (ltb n 10)) [
  | inl e ↦ rw e (put_one_digit n rest (ltb→lt n 10 e))
  | inr e ↦ rw e (
      put_last_digit n rest _ (ltb→ge n 10 e)
        (put_digits-Numeral f (n / 10) _ (omega (arith, pow-suc 10 (suc f)))))
]

read_first :
    (c : ℕ) (cs : Bytes) → 48 ≤ c → c ≤ 57 → read_digits 10 0 (c ∷ cs) ≡ read_digits 10 (c - 48) cs
read_first c cs h k =
    let e : c - 48 + b'0' ≡ c = omega arith in
    rw e at (read_digit 0 (c - 48) cs (omega arith)) ∙ rw zero-add

read_prefixed_decimal :
    (c : ℕ) (cs : Bytes) → 49 ≤ c → c ≤ 57 → read_prefixed (c ∷ cs) ≡ read_digits 10 (c - 48) cs
unfolding read_prefixed
read_prefixed_decimal c cs h k = split cs
  where
    not_zero : (c == b'0') ≡ false
    not_zero = ground arith

    split : (cs : Bytes) → read_prefixed (c ∷ cs) ≡ read_digits 10 (c - 48) cs
    split [] = read_first c [] (omega arith) k
    split (x ∷ []) = rw not_zero (read_first c (x ∷ []) (omega arith) k)
    split (x ∷ d ∷ cs) = rw not_zero (read_first c (x ∷ d ∷ cs) (omega arith) k)

read_prefixed-print_decimal : (n : ℕ) → n < 2 ^ 64 → read_prefixed (print_decimal n) ≡ n
unfolding print_decimal
read_prefixed-print_decimal zero h = unfold put_digits read_prefixed read_digits in refl
read_prefixed-print_decimal (suc n) h =
    let m = put_digits-Numeral 19 (suc n) [] (omega arith) in
    rw m.shape (
      read_prefixed_decimal m.head m.tail (m.nonzero (omega arith)) m.below
      ∙ m.value
      ∙ read_nothing)
  where
    read_nothing : read_digits 10 (suc n) [] ≡ suc n
    read_nothing = unfold read_digits in refl

-- What is printed of an `unsigned long` is read back in base 10.
pub read_digits-print_decimal : (n : ℕ) → n < 2 ^ 64 → read_digits 10 0 (print_decimal n) ≡ n
unfolding print_decimal
read_digits-print_decimal n h =
    let m = put_digits-Numeral 19 n [] (omega arith) in
    rw m.shape (read_first m.head m.tail m.above m.below ∙ m.value ∙ (unfold read_digits in refl))

signed-digit :
    (c : ℕ) (cs : Bytes)
    → 48 ≤ c
    → c ≤ 57
    → signed (skip_space (c ∷ cs)) ≡ positive (read_prefixed (c ∷ cs))
unfolding skip_space
signed-digit c cs h k =
    let plain : is_space c ≡ false = ground arith in
    let minus : (c == b'-') ≡ false = ground arith in
    let plus : (c == b'+') ≡ false = ground arith in rw (plain) (rw minus (rw plus))

signed-print_decimal :
    (n : ℕ)
    → n < 2 ^ 64
    → signed (skip_space (print_decimal n)) ≡ positive (read_prefixed (print_decimal n))
unfolding print_decimal
signed-print_decimal n h =
    let m = put_digits-Numeral 19 n [] (omega arith) in
    rw m.shape (signed-digit m.head m.tail m.above m.below)

signed-IsLong : (s : Bytes) → IsLong (signed s)
signed-IsLong [] = omega arith
signed-IsLong (c ∷ cs) = ground (arith, Bool-cases (c == b'-'), Bool-cases (c == b'+'))

-- Reading back what was printed gives the same `long`.
pub strtol-print_long : (w : ℕ) → IsLong w → strtol (print_long w) ≡ w
unfolding strtol print_long
strtol-print_long w h = elim (Bool-cases (is_negative w)) [
  | inl e ↦
      let lo = leb→le _ _ e in
      rw e (
        unfold skip_space in
        rw (read_prefixed-print_decimal (long_mod - w) (omega arith)) (omega arith))
  | inr e ↦
      let hi = leb→gt _ _ e in
      rw e (signed-print_decimal w h ∙ ap positive (read_prefixed-print_decimal w h) ∙ omega arith)
]

pub strtol-IsLong : (s : Bytes) → IsLong (strtol s)
unfolding strtol
strtol-IsLong s = signed-IsLong (skip_space s)
