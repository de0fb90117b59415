-- ===== src/Errors/Enum/Laws.antt =====
-- Enumerations whose member names are distinct, which Python's `Enum` requires.
use text.Mathlib.Text.{◌==◌ as string_eq}
use text.Mathlib.TextEquality.{eq_iff}
use aurora_data_api.Base.{
  ℕ, ◌≡◌, refl, ◌↔◌, inl, inr, String, Bool, true, false, not, ◌&&◌, ◌||◌, some, List, [], ◌∷◌,
  ◌==◌, ==_iff, arith, Bool-cases,
}
use aurora_data_api.Base.Text.{Text, text_eq, text_eq_iff}
use aurora_data_api.Errors.Enum.{name_of_value, value_of_name, canonical_name}
use aurora_data_api.Errors.Tables.{mysql_error_codes, postgresql_error_codes}

module _ {V : Type 0} where
  has_name : String → List (String × V) → Bool
  has_name n [] = false
  has_name n ((m, _) ∷ members) = string_eq m n || has_name n members

  pub names_distinct : List (String × V) → Bool
  unfolding has_name
  names_distinct [] = true
  names_distinct ((n, _) ∷ members) = not (has_name n members) && names_distinct members

module _ {V : Type 0} (eq : V → V → Bool) (eq_law : (v w : V) → (eq v w ≡ true) ↔ (v ≡ w)) where
  has_name-name_of_value :
      (v : V) (n : String) (members : List (String × V))
      → name_of_value eq v members ≡ some n
      → has_name n members ≡ true
  unfolding name_of_value has_name
  has_name-name_of_value v n [] h = cc
  has_name-name_of_value v n ((m, w) ∷ members) h =
      ground (arith, eq_iff m n, has_name-name_of_value v n members)

  value_of_found :
      (v : V) (n : String) (members : List (String × V))
      → names_distinct members ≡ true
      → name_of_value eq v members ≡ some n
      → value_of_name n members ≡ some v
  unfolding name_of_value value_of_name names_distinct
  value_of_found v n [] d h = cc
  value_of_found v n ((m, w) ∷ members) d h = elim (Bool-cases (eq w v)) [
    | inl same ↦ ground (arith, eq_iff m n, (eq_law w v).0 same)
    | inr other ↦
        ground (arith, eq_iff m n, has_name-name_of_value v n members, value_of_found v n members)
  ]

  -- The name that a value has is its own canonical name.
  pub canonical_name-name_of_value :
      (v : V) (n : String) (members : List (String × V))
      → names_distinct members ≡ true
      → name_of_value eq v members ≡ some n
      → canonical_name eq n members ≡ some n
  unfolding canonical_name
  canonical_name-name_of_value v n members d h =
      let e = value_of_found v n members d h in rw (e, canonical_name) h

mysql_names_distinct : names_distinct mysql_error_codes ≡ true
unfolding names_distinct mysql_error_codes
mysql_names_distinct = refl

postgresql_names_distinct : names_distinct postgresql_error_codes ≡ true
unfolding names_distinct postgresql_error_codes
postgresql_names_distinct = refl

pub mysql_canonical :
    (v : ℕ) (n : String)
    → name_of_value ◌==◌ v mysql_error_codes ≡ some n
    → canonical_name ◌==◌ n mysql_error_codes ≡ some n
mysql_canonical v n = canonical_name-name_of_value ◌==◌ ==_iff v n _ mysql_names_distinct

pub postgresql_canonical :
    (v : Text) (n : String)
    → name_of_value text_eq v postgresql_error_codes ≡ some n
    → canonical_name text_eq n postgresql_error_codes ≡ some n
postgresql_canonical v n =
    canonical_name-name_of_value text_eq text_eq_iff v n _ postgresql_names_distinct
