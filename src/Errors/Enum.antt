-- ===== src/Errors/Enum.antt =====
-- Python's `Enum`, as far as the factories use it: the members of a class in definition order. A
-- member that repeats the value of an earlier one is an alias of it.
pub mod Laws
use text.Mathlib.Text.{◌==◌ as string_eq}
use aurora_data_api.Base.{String, Bool, Option, none, some, List, [], ◌∷◌, if◌then◌else◌}

module _ {V : Type 0} (eq : V → V → Bool) where
  -- `Cls(value).name`; `none` is the ValueError for a value of no member.
  unfoldable pub name_of_value : V → List (String × V) → Option String
  name_of_value v [] = none
  name_of_value v ((n, w) ∷ members) = if eq w v then some n else name_of_value v members

-- `Cls.name`'s value; `none` is the AttributeError for a name of no member.
unfoldable pub value_of_name : {V : Type 0} → String → List (String × V) → Option V
value_of_name n [] = none
value_of_name n ((m, w) ∷ members) = if string_eq m n then some w else value_of_name n members

-- `getattr(Cls, a).name`
unfoldable pub canonical_name :
    {V : Type 0} → (V → V → Bool) → String → List (String × V) → Option String
unfolding name_of_value value_of_name
canonical_name eq a members = elim (value_of_name a members) [
  | none ↦ none
  | some v ↦ name_of_value eq v members
]
