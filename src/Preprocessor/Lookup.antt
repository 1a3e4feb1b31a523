-- ===== src/Preprocessor/Lookup.antt =====
-- The table of macros as a map from names.
use claudec.Base.{
  true, false, none, some, List, [], ◌∷◌, ◌++◌, Bytes, str_eq, str_eq_iff, ◌≡◌, refl, sym, ap, ◌∙◌,
  subst, Bool-cases, inl, inr,
}
use claudec.Preprocessor.Macros.{
  MacroDef, MacroTable, macro_find, last_or, without_last, fill_gap, remove_def, macro_undef,
}

abbrev pub Fresh : List MacroDef → Bytes → Type 0
Fresh ds name = macro_find ds name ≡ none

-- No two entries have one name.
pub data Distinct : List MacroDef → Type 0 where
  no_defs : Distinct []
  one_def : {d : MacroDef} {ds : List MacroDef} → Fresh ds d.name → Distinct ds → Distinct (d ∷ ds)

str_eq_comm : (a b : Bytes) → str_eq a b ≡ false → str_eq b a ≡ false
str_eq_comm a b h = elim (Bool-cases (str_eq b a)) [
  | inl e ↦ let t = (str_eq_iff a b).1 (sym ((str_eq_iff b a).0 e)) in cc
  | inr e ↦ e
]

-- The first entry is not the one that is looked for.
Fresh-cons :
    (d : MacroDef) (ds : List MacroDef) (o : Bytes)
    → Fresh (d ∷ ds) o
    → (str_eq d.name o ≡ false) × Fresh ds o
unfolding macro_find
Fresh-cons d ds o h = elim (Bool-cases (str_eq d.name o)) [
  | inl e ↦ let some_d = rw e at h in cc
  | inr e ↦ (e, rw e at h)
]

cons-Fresh :
    (d : MacroDef) (ds : List MacroDef) (o : Bytes)
    → str_eq d.name o ≡ false
    → Fresh ds o
    → Fresh (d ∷ ds) o
unfolding macro_find
cons-Fresh d ds o e h = rw e h

pub find_other :
    (d : MacroDef) (ds : List MacroDef) (o : Bytes)
    → str_eq d.name o ≡ false
    → macro_find (d ∷ ds) o ≡ macro_find ds o
unfolding macro_find
find_other d ds o e = rw e refl

pub find_first :
    (d : MacroDef) (ds : List MacroDef) (o : Bytes)
    → str_eq d.name o ≡ true
    → macro_find (d ∷ ds) o ≡ some d
unfolding macro_find
find_first d ds o e = rw e refl

Fresh-append :
    (ds : List MacroDef) (x : MacroDef) (o : Bytes)
    → Fresh (ds ++ x ∷ []) o
    → Fresh ds o × (str_eq x.name o ≡ false)
Fresh-append [] x o h = ((unfold macro_find in refl), (Fresh-cons x [] o h).0)
Fresh-append (d ∷ ds) x o h =
    let (e, more) = Fresh-cons d (ds ++ x ∷ []) o h in
    let (f, g) = Fresh-append ds x o more in (cons-Fresh d ds o e f, g)

Distinct-append :
    (ds : List MacroDef) (x : MacroDef) → Distinct (ds ++ x ∷ []) → Distinct ds × Fresh ds x.name
Distinct-append [] x h = (no_defs, (unfold macro_find in refl))
Distinct-append (d ∷ ds) x (one_def f h) =
    let (k, g) = Distinct-append ds x h in
    let (f', e) = Fresh-append ds x d.name f in
    (one_def f' k, cons-Fresh d ds x.name (str_eq_comm x.name d.name e) g)

-- An entry with a new name may stand first or last.
pub find-append :
    (ds : List MacroDef) (x : MacroDef) (o : Bytes)
    → Fresh ds x.name
    → macro_find (ds ++ x ∷ []) o ≡ macro_find (x ∷ ds) o
find-append [] x o h = refl
find-append (d ∷ ds) x o h =
    let (e, more) = Fresh-cons d ds x.name h in
    let ih = find-append ds x o more in
    elim (Bool-cases (str_eq x.name o)) [
      | inl s ↦
          let names = (str_eq_iff x.name o).0 s in
          let other : str_eq d.name o ≡ false = subst (λ n. str_eq d.name n ≡ false) names e in
          find_other d _ o other ∙ ih ∙ find_first x ds o s ∙ sym (find_first x (d ∷ ds) o s)
      | inr s ↦ elim (Bool-cases (str_eq d.name o)) [
        | inl r ↦ find_first d _ o r ∙ sym (find_other x (d ∷ ds) o s ∙ find_first d ds o r)
        | inr r ↦
            find_other d _ o r
            ∙ ih
            ∙ find_other x ds o s
            ∙ sym (find_other x (d ∷ ds) o s ∙ find_other d ds o r)
      ]
    ]

pub append-Distinct :
    (ds : List MacroDef) (x : MacroDef) → Distinct ds → Fresh ds x.name → Distinct (ds ++ x ∷ [])
append-Distinct [] x h f = one_def {d = x} {ds = []} (unfold macro_find in refl) no_defs
append-Distinct (d ∷ ds) x (one_def g h) f =
    let (e, more) = Fresh-cons d ds x.name f in
    one_def
      (find-append ds x d.name more ∙ find_other x ds d.name (str_eq_comm d.name x.name e) ∙ g)
      (append-Distinct ds x h more)

last_append :
    (e : MacroDef) (es : List MacroDef) → without_last (e ∷ es) ++ (last_or e es ∷ []) ≡ e ∷ es
unfolding without_last last_or
last_append e [] = refl
last_append e (d ∷ ds) = ap (e ∷◌) (last_append d ds)

-- The last entry in the place of the removed one: the table of the others.
fill_gap-same :
    (d : MacroDef) (ds : List MacroDef)
    → Distinct ds
    → Distinct (fill_gap d ds) × ((o : Bytes) → macro_find (fill_gap d ds) o ≡ macro_find ds o)
fill_gap-same d [] h = (no_defs, λ o. refl)
fill_gap-same d (e ∷ es) h =
    let whole = last_append e es in
    let (k, f) =
      Distinct-append (without_last (e ∷ es)) (last_or e es) (subst Distinct (sym whole) h) in
    (
      one_def f k,
      λ o.
          sym (find-append (without_last (e ∷ es)) (last_or e es) o f)
          ∙ ap (λ ds. macro_find ds o) whole,
    )

-- The table without a name: an undefined name is not found, and every other name as before.
pub record IsWithout (name : Bytes) (old new : List MacroDef) : Type 0 where
  pub distinct : Distinct new
  pub gone : macro_find new name ≡ none
  pub others : (o : Bytes) → str_eq name o ≡ false → macro_find new o ≡ macro_find old o

remove_def-IsWithout :
    (ds : List MacroDef) (name : Bytes) → Distinct ds → IsWithout name ds (remove_def ds name)
unfolding remove_def
remove_def-IsWithout [] name h = record {
  distinct = no_defs;
  gone = unfold macro_find in refl;
  others = λ o e. refl;
}
remove_def-IsWithout (d ∷ ds) name (one_def f h) = elim (Bool-cases (str_eq d.name name)) [
  | inl e ↦
      let (k, same) = fill_gap-same d ds h in
      let names = (str_eq_iff d.name name).0 e in
      rw e (record {
        distinct = k;
        gone = same name ∙ subst (λ n. macro_find ds n ≡ none) names f;
        others = λ o other.
            same o ∙ sym (find_other d ds o (subst (λ n. str_eq n o ≡ false) (sym names) other));
      })
  | inr e ↦
      let ih = remove_def-IsWithout ds name h in
      rw e (record {
        distinct = one_def (ih.others d.name (str_eq_comm d.name name e) ∙ f) ih.distinct;
        gone = find_other d _ name e ∙ ih.gone;
        others = λ o other. elim (Bool-cases (str_eq d.name o)) [
          | inl s ↦ find_first d _ o s ∙ sym (find_first d ds o s)
          | inr s ↦ find_other d _ o s ∙ ih.others o other ∙ sym (find_other d ds o s)
        ];
      })
]

-- In a table without two entries of one name, `macro_undef` leaves such a table in which the name is not
-- found and every other name is found as before.
pub macro_undef-IsWithout :
    (t : MacroTable) (name : Bytes)
    → Distinct t.defs
    → IsWithout name t.defs (macro_undef t name).defs
unfolding macro_undef
macro_undef-IsWithout t name h = remove_def-IsWithout t.defs name h
