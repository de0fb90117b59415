-- ===== src/Errors/Factory/Laws.antt =====
-- The classes of a factory: one for each attribute, made once and kept.
use text.Mathlib.Text.{◌==◌ as string_eq}
use text.Mathlib.TextEquality.{eq_iff}
use mathlib.Core.Option.{some-injective}
use aurora_data_api.Base.{
  ◌<◌, ◌≡◌, ◌≢◌, refl, sym, ap, ◌∙◌, ◌⊎◌, inl, inr, String, Bool, none, some, List, ◌∷◌, arith,
  Bool-cases, Option-cases, if◌then◌else◌,
}
use aurora_data_api.Base.Text.{codes}
use aurora_data_api.Base.Exec.{ok}
use aurora_data_api.Errors.Classes.{ErrorClass}
use aurora_data_api.Errors.Enum.{name_of_value, canonical_name}
use aurora_data_api.Errors.Factory.{
  Attributes, find_attribute, Made, make_class, get_attr, attr_of_member, from_code,
}

-- `t` has every attribute of `s`, with the same class.
abbrev pub Extends : Attributes → Attributes → Type 0
Extends s t =
    (a : String) (c : ErrorClass) → find_attribute a s ≡ some c → find_attribute a t ≡ some c

module _ {V : Type 0} (eq : V → V → Bool) (err_index : List (String × V)) where
  -- Each attribute holds a class with the canonical name of its member, and no two attributes hold
  -- the same class.
  pub record IsMade (s : Made) : Type 0 where
    pub named :
        (a : String) (c : ErrorClass)
        → find_attribute a s.attributes ≡ some c
        → (n : String) × (canonical_name eq a err_index ≡ some n) × (c.name ≡ codes n)
    pub below :
        (a : String) (c : ErrorClass) → find_attribute a s.attributes ≡ some c → c.serial < s.count
    pub distinct :
        (a b : String) (c d : ErrorClass)
        → find_attribute a s.attributes ≡ some c
        → find_attribute b s.attributes ≡ some d
        → c.serial ≡ d.serial
        → a ≡ b

  find-cons :
      (a b : String) (c : ErrorClass) (l : Attributes)
      → find_attribute b ((a, c) ∷ l) ≡ (if string_eq a b then some c else find_attribute b l)
  unfolding find_attribute
  find-cons a b c l = refl

  make_class-IsMade :
      (a n : String) (s : Made)
      → IsMade s
      → find_attribute a s.attributes ≡ none
      → canonical_name eq a err_index ≡ some n
      → IsMade (make_class a (some n) s).1
  unfolding make_class find_attribute
  make_class-IsMade a n s h absent canonical = record {
    named = λ b c e. elim (Bool-cases (string_eq a b)) [
      | inl same ↦ (n, ground (arith, eq_iff a b), ground (arith, eq_iff a b))
      | inr other ↦ h.named b c (ground arith)
    ];
    below = λ b c e. elim (Bool-cases (string_eq a b)) [
      | inl same ↦ ground (arith, eq_iff a b)
      | inr other ↦ ground (arith, h.below b c)
    ];
    distinct = λ b b' c d e e' same.
        ground (arith, eq_iff a b, eq_iff a b', h.below b c, h.below b' d, h.distinct b b' c d);
  }

  -- Reading an attribute that is there changes nothing.
  pub get_attr_again :
      (a : String) (s : Made) (c : ErrorClass)
      → find_attribute a s.attributes ≡ some c
      → get_attr eq err_index a s ≡ (ok c, s)
  unfolding get_attr
  get_attr_again a s c there = rw (there, get_attr)

  get_attr_absent :
      (a : String) (s : Made)
      → find_attribute a s.attributes ≡ none
      → get_attr eq err_index a s ≡ make_class a (canonical_name eq a err_index) s
  unfolding get_attr
  get_attr_absent a s absent = rw (absent, get_attr)

  -- A read finds the attribute, or makes its class, or raises for a name of no member.
  abbrev Outcome : String → Made → Type 0
  Outcome a s =
      ((c : ErrorClass) × (find_attribute a s.attributes ≡ some c)
        × (get_attr eq err_index a s ≡ (ok c, s)))
      ⊎ ((n : String) × (find_attribute a s.attributes ≡ none)
          × (canonical_name eq a err_index ≡ some n)
          × (get_attr eq err_index a s ≡ make_class a (some n) s))
      ⊎ ((canonical_name eq a err_index ≡ none) × (get_attr eq err_index a s ≡ make_class a none s))

  get_attr_cases : (a : String) (s : Made) → Outcome a s
  get_attr_cases a s = elim (Option-cases (find_attribute a s.attributes)) [
    | inr (c, there) ↦ inl (c, there, get_attr_again a s c there)
    | inl absent ↦ elim (Option-cases (canonical_name eq a err_index)) [
      | inl unknown ↦ inr (inr (unknown, rw unknown at (get_attr_absent a s absent)))
      | inr (n, canonical) ↦
          inr (inl (n, absent, canonical, rw canonical at (get_attr_absent a s absent)))
    ]
  ]

  pub get_attr-IsMade : (a : String) (s : Made) → IsMade s → IsMade (get_attr eq err_index a s).1
  unfolding make_class
  get_attr-IsMade a s h = elim (get_attr_cases a s) [
    | inl (c, there, e) ↦ rw e h
    | inr (inl (n, absent, canonical, e)) ↦ rw e (make_class-IsMade a n s h absent canonical)
    | inr (inr (unknown, e)) ↦ rw e h
  ]

  -- A read keeps the attributes that are there.
  pub get_attr-Extends :
      (a : String) (s : Made) → Extends s.attributes (get_attr eq err_index a s).1.attributes
  unfolding make_class find_attribute
  get_attr-Extends a s b c h = elim (get_attr_cases a s) [
    | inl (d, there, e) ↦ rw e h
    | inr (inl (n, absent, canonical, e)) ↦ rw e (ground (arith, eq_iff a b))
    | inr (inr (unknown, e)) ↦ rw e h
  ]

  -- The class that a read returns is the attribute from then on.
  pub get_attr-find :
      (a : String) (s : Made) (c : ErrorClass)
      → (get_attr eq err_index a s).0 ≡ ok c
      → find_attribute a (get_attr eq err_index a s).1.attributes ≡ some c
  unfolding make_class find_attribute
  get_attr-find a s c h = elim (get_attr_cases a s) [
    | inl (d, there, e) ↦ rw e (ground arith)
    | inr (inl (n, absent, canonical, e)) ↦ rw e (ground (arith, eq_iff a a))
    | inr (inr (unknown, e)) ↦ ground arith
  ]

  -- The attribute of every member can be read, and its class has the member's canonical name.
  pub get_attr_member :
      (a n : String) (s : Made)
      → IsMade s
      → canonical_name eq a err_index ≡ some n
      → (c : ErrorClass) × ((get_attr eq err_index a s).0 ≡ ok c) × (c.name ≡ codes n)
  unfolding make_class
  get_attr_member a n s h canonical = elim (get_attr_cases a s) [
    | inl (c, there, e) ↦
        let (m, same, named) = h.named a c there in (c, ground arith, ground arith)
    | inr (inl (m, absent, same, e)) ↦
        (record { serial = s.count; name = codes m }, ground arith, ground arith)
    | inr (inr (unknown, e)) ↦ absurd (ground arith)
  ]

  pub from_code_member :
      (v : V) (n : String) (s : Made)
      → name_of_value eq v err_index ≡ some n
      → from_code eq err_index v s ≡ get_attr eq err_index n s
  unfolding from_code
  from_code_member v n s member = rw (member, from_code, attr_of_member)

  -- A code of no member has no class.
  pub from_code_unknown :
      (v : V) (s : Made) (c : ErrorClass)
      → name_of_value eq v err_index ≡ none
      → (from_code eq err_index v s).0 ≢ ok c
  unfolding from_code
  from_code_unknown v s c unknown e = ground arith

  -- If from_code has made or found a class for a value whose member is n, then reading the
  -- attribute n later, in any state that still has the attributes of that time, gives the same
  -- class and makes none.
  pub from_code-get_attr :
      (v : V) (n : String) (s t : Made) (c : ErrorClass)
      → name_of_value eq v err_index ≡ some n
      → (from_code eq err_index v s).0 ≡ ok c
      → Extends (from_code eq err_index v s).1.attributes t.attributes
      → get_attr eq err_index n t ≡ (ok c, t)
  from_code-get_attr v n s t c member made kept =
      let e = from_code_member v n s member in
      get_attr_again n t c (kept n c (rw e (get_attr-find n s c (rw e at made))))

  pub from_code-IsMade :
      (v : V) (n : String) (s : Made)
      → IsMade s
      → name_of_value eq v err_index ≡ some n
      → IsMade (from_code eq err_index v s).1
  from_code-IsMade v n s h member = rw (from_code_member v n s member) (get_attr-IsMade n s h)

  two_classes :
      (n a : String) (s : Made) (c d : ErrorClass)
      → IsMade s
      → canonical_name eq a err_index ≡ some n
      → canonical_name eq n err_index ≡ some n
      → a ≢ n
      → find_attribute n s.attributes ≡ some c
      → (get_attr eq err_index a s).0 ≡ ok d
      → (c.name ≡ d.name) × (c.serial ≢ d.serial)
  two_classes n a s c d h alias canonical other there read =
      let s' = (get_attr eq err_index a s).1 in
      let made = get_attr-IsMade a s h in
      let there' : find_attribute n s'.attributes ≡ some c = get_attr-Extends a s n c there in
      let here : find_attribute a s'.attributes ≡ some d = get_attr-find a s d read in
      let (m, em, cm) = made.named n c there' in
      let (k, ek, dk) = made.named a d here in
      (
        ground (
          arith,
          ap codes (some-injective k n (sym ek ∙ alias)),
          ap codes (some-injective m n (sym em ∙ canonical)),
        ),
        λ same. other (made.distinct a n d c here there' (sym same)),
      )

  -- Let a be another name (an alias) of the member n of a value. The class that from_code makes
  -- for the value and the class of the attribute a have the same name and are different classes,
  -- so an except clause written with the alias does not catch the error.
  pub from_code-alias :
      (v : V) (n a : String) (s : Made) (c d : ErrorClass)
      → IsMade s
      → name_of_value eq v err_index ≡ some n
      → canonical_name eq a err_index ≡ some n
      → canonical_name eq n err_index ≡ some n
      → a ≢ n
      → (from_code eq err_index v s).0 ≡ ok c
      → (get_attr eq err_index a (from_code eq err_index v s).1).0 ≡ ok d
      → (c.name ≡ d.name) × (c.serial ≢ d.serial)
  from_code-alias v n a s c d h member alias canonical other made read =
      let e = from_code_member v n s member in
      two_classes n a (from_code eq err_index v s).1 c d (from_code-IsMade v n s h member) alias
        canonical other (rw e (get_attr-find n s c (rw e at made))) read
