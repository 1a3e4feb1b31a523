-- ===== src/Parser/Names.antt =====
-- What a name stands for: the entries of the tables of src/parser.c that a search has to give.
use claudec.Base.{
  false, Option, none, some, List, [], ◌∷◌, Bytes, str_eq, str_eq_iff, ◌≡◌, ◌≢◌, refl, inl, inr,
  Bool-cases, if◌then◌else◌,
}
use claudec.CType.{CType, null, type}
use claudec.Parser.{EnumConst, StructTag, TypedefEntry, FuncSig, Parser}
use claudec.Parser.Tables.{find_enum_const, find_function, last_typedef, typed_or, refer}

-- The tables that the meaning of an expression depends on.
pub record Names : Type 0 where
  pub consts : List EnumConst
  pub typedefs : List TypedefEntry
  pub funcs : List FuncSig
  pub struct_tags : List StructTag
  pub union_tags : List StructTag
  pub func_name : Option Bytes

abbrev pub names_of : Parser → Names
names_of p = record {
  consts = p.enum_consts;
  typedefs = p.typedefs;
  funcs = p.funcs;
  struct_tags = p.struct_tags;
  union_tags = p.union_tags;
  func_name = p.current_func_name;
}

-- No entry has the name.
pub data Absent {A : Type 0} (name_of : A → Bytes) (name : Bytes) : List A → Type 0 where
  no_entry : Absent name_of name []
  other_entry :
      {a : A} {xs : List A}
      → str_eq (name_of a) name ≡ false
      → Absent name_of name xs
      → Absent name_of name (a ∷ xs)

-- The entry is the first one that has the name.
pub data First {A : Type 0} (name_of : A → Bytes) (name : Bytes) (a : A) : List A → Type 0 where
  at_front : {xs : List A} → name_of a ≡ name → First name_of name a (a ∷ xs)
  behind :
      {b : A} {xs : List A}
      → str_eq (name_of b) name ≡ false
      → First name_of name a xs
      → First name_of name a (b ∷ xs)

-- The entry is the last one that has the name.
pub data Last {A : Type 0} (name_of : A → Bytes) (name : Bytes) (a : A) : List A → Type 0 where
  at_end : {xs : List A} → name_of a ≡ name → Absent name_of name xs → Last name_of name a (a ∷ xs)
  further : {b : A} {xs : List A} → Last name_of name a xs → Last name_of name a (b ∷ xs)

abbrev pub FirstConst : Bytes → EnumConst → List EnumConst → Type 0
FirstConst name c cs = First (λ c. c.name) name c cs

abbrev pub NoConst : Bytes → List EnumConst → Type 0
NoConst name cs = Absent (λ c. c.name) name cs

abbrev pub FirstFunction : Bytes → FuncSig → List FuncSig → Type 0
FirstFunction name s ss = First (λ s. s.name) name s ss

abbrev pub LastTypedef : Bytes → TypedefEntry → List TypedefEntry → Type 0
LastTypedef name e es = Last (λ e. e.name) name e es

-- What a search gives: the entry that P holds of, or nothing where Q holds.
pub data Finds {A : Type 0} (P : A → Type 0) (Q : Type 0) : Option A → Type 0 where
  found : {a : A} → P a → Finds P Q (some a)
  missing : Q → Finds P Q none

Finds-map :
    {A : Type 0} {P P' : A → Type 0} {Q Q' : Type 0} {o : Option A}
    → Finds P Q o
    → ((a : A) → P a → P' a)
    → (Q → Q')
    → Finds P' Q' o
Finds-map (found {a} x) f g = found (f a x)
Finds-map (missing x) f g = missing (g x)

pub find_enum_const-Finds :
    (cs : List EnumConst) (name : Bytes)
    → Finds (λ c. FirstConst name c cs) (NoConst name cs) (find_enum_const cs name)
unfolding find_enum_const
find_enum_const-Finds [] name = missing no_entry
find_enum_const-Finds (c ∷ cs) name = elim (Bool-cases (str_eq c.name name)) [
  | inl e ↦ rw e (found (at_front ((str_eq_iff c.name name).0 e)))
  | inr e ↦
      rw e (Finds-map (find_enum_const-Finds cs name) (λ a x. behind e x) (λ x. other_entry e x))
]

pub find_function-Finds :
    (ss : List FuncSig) (name : Bytes)
    → Finds (λ s. FirstFunction name s ss) (Absent (λ s. s.name) name ss) (find_function ss name)
unfolding find_function
find_function-Finds [] name = missing no_entry
find_function-Finds (s ∷ ss) name = elim (Bool-cases (str_eq s.name name)) [
  | inl e ↦ rw e (found (at_front ((str_eq_iff s.name name).0 e)))
  | inr e ↦
      rw e (Finds-map (find_function-Finds ss name) (λ a x. behind e x) (λ x. other_entry e x))
]

pub last_typedef-Finds :
    (es : List TypedefEntry) (name : Bytes)
    → Finds (λ e. LastTypedef name e es) (Absent (λ e. e.name) name es) (last_typedef es name)
unfolding last_typedef
last_typedef-Finds [] name = missing no_entry
last_typedef-Finds (d ∷ ds) name = by_later (last_typedef ds name) (last_typedef-Finds ds name)
  where
    by_later :
        (o : Option TypedefEntry)
        → Finds (λ e. LastTypedef name e ds) (Absent (λ e. e.name) name ds) o
        → Finds
            (λ e. LastTypedef name e (d ∷ ds))
            (Absent (λ e. e.name) name (d ∷ ds))
            (elim o [
              | some later ↦ some later
              | none ↦ if str_eq d.name name then some d else none
            ])
    by_later (some e) (found x) = found (further x)
    by_later none (missing x) = elim (Bool-cases (str_eq d.name name)) [
      | inl e ↦ rw e (found (at_end ((str_eq_iff d.name name).0 e) x))
      | inr e ↦ rw e (missing (other_entry e x))
    ]

-- A tag refers to its type, or to a new one that it then has.
pub data Refers (new : CType) (tag : Bytes) : List StructTag → List StructTag → CType → Type 0 where
  unseen : Refers new tag [] (record { tag = tag; tag_type = new } ∷ []) new
  untyped :
      {s : StructTag} {ss : List StructTag}
      → s.tag ≡ tag
      → s.tag_type ≡ null
      → Refers new tag (s ∷ ss) (record s { tag_type = new } ∷ ss) new
  typed :
      {s : StructTag} {ss : List StructTag}
      → s.tag ≡ tag
      → s.tag_type ≢ null
      → Refers new tag (s ∷ ss) (s ∷ ss) s.tag_type
  later :
      {s : StructTag} {ss ss' : List StructTag} {t : CType}
      → str_eq s.tag tag ≡ false
      → Refers new tag ss ss' t
      → Refers new tag (s ∷ ss) (s ∷ ss') t

pub refer-Refers :
    (new : CType) (ss : List StructTag) (tag : Bytes)
    → Refers new tag ss (refer new ss tag).1 (refer new ss tag).0
unfolding refer
refer-Refers new [] tag = unseen
refer-Refers new (s ∷ ss) tag = elim (Bool-cases (str_eq s.tag tag)) [
  | inl e ↦ rw e (by_type s.tag_type refl ((str_eq_iff s.tag tag).0 e))
  | inr e ↦ rw e (later e (refer-Refers new ss tag))
]
  where
    by_type :
        (t : CType)
        → s.tag_type ≡ t
        → s.tag ≡ tag
        → Refers new tag (s ∷ ss) (typed_or new s ss t).1 (typed_or new s ss t).0
    by_type null e h = untyped h e
    by_type (type i b ps fs) e h = rw (← e) (typed h (λ n. cc))
