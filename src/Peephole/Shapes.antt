-- ===== src/Peephole/Shapes.antt =====
-- What the lines are for which the two-line patterns of src/peephole.c fire.
use claudec.Base.{
  >>=-eq-some, ℕ, Bool, true, some, [], ◌∷◌, ◌++◌, Bytes, codes, ◌≡◌, refl, sym, ap, ap₂, ◌∙◌,
  subst, arith, Bool-cases, Option-cases, inl, inr, str_eq, str_eq_iff, &&-eq-true, ◌==◌, ==_iff,
}
use claudec.Peephole.Text.{is_blank, is_digit, not_comma, passed, rest_after, strip_prefix, copied}
use claudec.Peephole.Slots.{
  Slot, off_size, reg_size, pp_parse_store_rbp, pp_parse_reload_rbp, match_redundant_reload,
  match_redundant_store,
}

strip_prefix-eq : (p s r : Bytes) → strip_prefix p s ≡ some r → s ≡ p ++ r
unfolding strip_prefix
strip_prefix-eq [] s r h = cc
strip_prefix-eq (c ∷ p) [] r h = cc
strip_prefix-eq (c ∷ p) (d ∷ s) r h = elim (Bool-cases (c == d)) [
  | inl t ↦
      let q = rw t at h in
      let e : c ≡ d = (==_iff c d).0 t in ap₂ ◌∷◌ (sym e) (strip_prefix-eq p s r q)
  | inr f ↦ cc (rw f at h)
]

passed-rest_after : (t : ℕ → Bool) (s : Bytes) → s ≡ passed t s ++ rest_after t s
unfolding passed rest_after
passed-rest_after t [] = refl
passed-rest_after t (c ∷ s) = elim (Bool-cases (t c)) [
  | inl e ↦ rw e (ap (c ∷◌) (passed-rest_after t s))
  | inr e ↦ rw e refl
]

copied-eq : (n : ℕ) (s r : Bytes) → copied n s ≡ some r → s ≡ r
unfolding copied
copied-eq n s r h = ground arith

-- The text of a store and of a reload, after the indentation.
abbrev pub store_text : Slot → Bytes
store_text s = codes "mov [rbp - " ++ (s.off ++ (codes "], " ++ s.reg))

abbrev pub reload_text : Slot → Bytes
reload_text s = codes "mov " ++ (s.reg ++ (codes ", [rbp - " ++ (s.off ++ codes "]")))

pp_parse_store_rbp-eq :
    (line : Bytes) (s : Slot)
    → pp_parse_store_rbp line ≡ some s
    → line ≡ passed is_blank line ++ store_text s
unfolding pp_parse_store_rbp
pp_parse_store_rbp-eq line s h =
    let (p, mov, h1) = >>=-eq-some (strip_prefix (codes "mov ") (rest_after is_blank line)) _ h in
    let (q, slot, h2) = >>=-eq-some (strip_prefix (codes "[rbp - ") p) _ h1 in
    let (off, digits, h3) = >>=-eq-some (copied off_size (passed is_digit q)) _ h2 in
    let (r, close, h4) = >>=-eq-some (strip_prefix (codes "], ") (rest_after is_digit q)) _ h3 in
    let (reg, name, h5) = >>=-eq-some (copied reg_size r) _ h4 in
    let found : Slot = record { reg = reg; off = off } in
    let e : found ≡ s = cc in
    subst (λ x. line ≡ passed is_blank line ++ store_text x) e
      (passed-rest_after is_blank line
        ∙ ap (passed is_blank line ++◌) (
            strip_prefix-eq _ _ p mov
            ∙ ap (codes "mov " ++◌) (
                strip_prefix-eq _ p q slot
                ∙ ap (codes "[rbp - " ++◌) (
                    passed-rest_after is_digit q
                    ∙ ap₂ ◌++◌ (copied-eq _ _ off digits) (
                        strip_prefix-eq _ _ r close
                        ∙ ap (codes "], " ++◌) (copied-eq _ r reg name))))))

pp_parse_reload_rbp-eq :
    (line : Bytes) (s : Slot)
    → pp_parse_reload_rbp line ≡ some s
    → line ≡ passed is_blank line ++ reload_text s
unfolding pp_parse_reload_rbp
pp_parse_reload_rbp-eq line s h =
    let (p, mov, h1) = >>=-eq-some (strip_prefix (codes "mov ") (rest_after is_blank line)) _ h in
    let (reg, name, h2) = >>=-eq-some (copied reg_size (passed not_comma p)) _ h1 in
    let (q, slot, h3) =
      >>=-eq-some (strip_prefix (codes ", [rbp - ") (rest_after not_comma p)) _ h2 in
    let (off, digits, h4) = >>=-eq-some (copied off_size (passed is_digit q)) _ h3 in
    elim (Bool-cases (str_eq (rest_after is_digit q) (codes "]"))) [
      | inr f ↦ cc (rw f at h4)
      | inl t ↦
          let h5 = rw t at h4 in
          let found : Slot = record { reg = reg; off = off } in
          let e : found ≡ s = cc in
          subst (λ x. line ≡ passed is_blank line ++ reload_text x) e
            (passed-rest_after is_blank line
              ∙ ap (passed is_blank line ++◌) (
                  strip_prefix-eq _ _ p mov
                  ∙ ap (codes "mov " ++◌) (
                      passed-rest_after not_comma p
                      ∙ ap₂ ◌++◌ (copied-eq _ _ reg name) (
                          strip_prefix-eq _ _ q slot
                          ∙ ap (codes ", [rbp - " ++◌) (
                              passed-rest_after is_digit q
                              ∙ ap₂ ◌++◌ (copied-eq _ _ off digits) ((str_eq_iff _ _).0 t))))))
    ]

-- Where `match_redundant_reload` fires, the first line is, after its indentation, the store of a
-- register to a slot, and the second the reload of the same register from the same slot.
pub match_redundant_reload-eq :
    (a b : Bytes)
    → match_redundant_reload (a ∷ b ∷ []) ≡ true
    → (s : Slot) × (a ≡ passed is_blank a ++ store_text s)
      × (b ≡ passed is_blank b ++ reload_text s)
unfolding match_redundant_reload
match_redundant_reload-eq a b h = elim (Option-cases (pp_parse_store_rbp a)) [
  | inl e ↦ cc (rw (match_redundant_reload, e) at h)
  | inr (s, e) ↦ elim (Option-cases (pp_parse_reload_rbp b)) [
    | inl f ↦ cc (rw (match_redundant_reload, e, f) at h)
    | inr (r, f) ↦
        let same = rw (match_redundant_reload, e, f) at h in
        let both = &&-eq-true (str_eq s.reg r.reg) (str_eq s.off r.off) same in
        let regs = (str_eq_iff s.reg r.reg).0 both.0 in
        let offs = (str_eq_iff s.off r.off).0 both.1 in
        let same_slots : r ≡ s = cc in
        (
          s,
          pp_parse_store_rbp-eq a s e,
          subst (λ x. b ≡ passed is_blank b ++ reload_text x) same_slots
              (pp_parse_reload_rbp-eq b r f),
        )
  ]
]

-- Where `match_redundant_store` fires, both lines are, after their indentation, stores of a register to
-- a slot, and the slots have the same offset.
match_redundant_store-eq :
    (a b : Bytes)
    → match_redundant_store (a ∷ b ∷ []) ≡ true
    → (s r : Slot) × (s.off ≡ r.off)
      × (a ≡ passed is_blank a ++ store_text s)
      × (b ≡ passed is_blank b ++ store_text r)
unfolding match_redundant_store
match_redundant_store-eq a b h = elim (Option-cases (pp_parse_store_rbp a)) [
  | inl e ↦ cc (rw (match_redundant_store, e) at h)
  | inr (s, e) ↦ elim (Option-cases (pp_parse_store_rbp b)) [
    | inl f ↦ cc (rw (match_redundant_store, e, f) at h)
    | inr (r, f) ↦
        let same = rw (match_redundant_store, e, f) at h in
        (
          s,
          r,
          (str_eq_iff s.off r.off).0 same,
          pp_parse_store_rbp-eq a s e,
          pp_parse_store_rbp-eq b r f,
        )
  ]
]
