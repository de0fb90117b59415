-- ===== src/Errors/Factory.antt =====
-- `_DatabaseErrorFactory` and its two instances. A class is made when its attribute is first read,
-- and kept as an attribute of the instance.
pub mod Laws
use text.Mathlib.Text.{◌==◌ as string_eq}
use aurora_data_api.Base.{
  ℕ, ◌+◌, String, Bool, Option, none, some, List, [], ◌∷◌, ◌==◌, if◌then◌else◌,
}
use aurora_data_api.Base.Text.{Text, codes, text_eq}
use aurora_data_api.Base.Exec.{Exec, ok, raised, raise}
use aurora_data_api.Errors.Classes.{ErrorClass, Exn, new_exn, value_error, attribute_error}
use aurora_data_api.Errors.Enum.{name_of_value, canonical_name}
use aurora_data_api.Errors.Tables.{mysql_error_codes, postgresql_error_codes}

-- The attributes that `setattr` has put on an instance.
abbrev pub Attributes : Type 0
Attributes = List (String × ErrorClass)

unfoldable pub find_attribute : String → Attributes → Option ErrorClass
find_attribute a [] = none
find_attribute a ((b, c) ∷ attributes) =
    if string_eq b a then some c else find_attribute a attributes

-- The attributes of one factory, and how many classes both have made.
pub record Made : Type 0 where
  pub attributes : Attributes
  pub count : ℕ

-- `type(getattr(self.err_index, a).name, (DatabaseError,), {})`, kept as attribute `a`.
make_class : String → Option String → Exec Exn Made ErrorClass
make_class a none s = (raised (new_exn attribute_error (codes a)), s)
make_class a (some name) s =
    let err_cls : ErrorClass = record { serial = s.count; name = codes name } in
    (ok err_cls, record { attributes = (a, err_cls) ∷ s.attributes; count = s.count + 1 })

module _ {V : Type 0} (eq : V → V → Bool) (err_index : List (String × V)) where
  -- `getattr(self, a)`: an attribute that is there, or `__getattr__`.
  unfoldable pub get_attr : String → Exec Exn Made ErrorClass
  unfolding find_attribute make_class canonical_name
  get_attr a s = elim (find_attribute a s.attributes) [
    | some err_cls ↦ (ok err_cls, s)
    | none ↦ make_class a (canonical_name eq a err_index) s
  ]

  attr_of_member : Option String → Exec Exn Made ErrorClass
  unfolding get_attr
  attr_of_member none = raise (new_exn value_error [])
  attr_of_member (some name) = get_attr name

  unfoldable pub from_code : V → Exec Exn Made ErrorClass
  unfolding attr_of_member name_of_value
  from_code err_code = attr_of_member (name_of_value eq err_code err_index)

-- `MySQLError` and `PostgreSQLError`.
pub record Factories : Type 0 where
  pub mysql : Attributes
  pub postgresql : Attributes
  pub count : ℕ

abbrev pub no_classes : Factories
no_classes = record { mysql = []; postgresql = []; count = 0 }

abbrev on_mysql : {A : Type 0} → Exec Exn Made A → Exec Exn Factories A
on_mysql m f =
    let (r, s) = m (record { attributes = f.mysql; count = f.count }) in
    (r, record f { mysql = s.attributes; count = s.count })

abbrev on_postgresql : {A : Type 0} → Exec Exn Made A → Exec Exn Factories A
on_postgresql m f =
    let (r, s) = m (record { attributes = f.postgresql; count = f.count }) in
    (r, record f { postgresql = s.attributes; count = s.count })

-- `MySQLError.from_code(n)`, `MySQLError.ER_…`
unfoldable pub mysql_from_code : ℕ → Exec Exn Factories ErrorClass
unfolding from_code mysql_error_codes
mysql_from_code n = on_mysql (from_code ◌==◌ mysql_error_codes n)

unfoldable pub mysql_attr : String → Exec Exn Factories ErrorClass
unfolding get_attr mysql_error_codes
mysql_attr a = on_mysql (get_attr ◌==◌ mysql_error_codes a)

-- `PostgreSQLError.from_code(state)`, `PostgreSQLError.ER_…`
unfoldable pub postgresql_from_code : Text → Exec Exn Factories ErrorClass
unfolding from_code postgresql_error_codes
postgresql_from_code state = on_postgresql (from_code text_eq postgresql_error_codes state)

unfoldable pub postgresql_attr : String → Exec Exn Factories ErrorClass
unfolding get_attr postgresql_error_codes
postgresql_attr a = on_postgresql (get_attr text_eq postgresql_error_codes a)
