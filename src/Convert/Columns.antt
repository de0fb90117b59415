-- ===== src/Convert/Columns.antt =====
-- The columns of a result: `_PG_TYPE_MAP` and `build_description` of type_conversion.py.
use aurora_data_api.Base.{ℕ, ◌+◌, List, [], ◌∷◌, map, ◌&&◌, leb, if◌then◌else◌, ◌-◌}
use aurora_data_api.Base.Text.{Text, codes, text_eq}

-- The Python types that a column may have.
pub data TypeCode : Type 0 where
  int float bool bytes bytearray str ip_network ip_address date time datetime uuid dict decimal :
      TypeCode

-- `ColumnDescription`: the fields that are filled; the others are `None`.
pub record ColumnDescription : Type 0 where
  pub name : Text
  pub type_code : TypeCode
  pub pg_type_name : Text

-- An entry of `columnMetadata`.
pub record Column : Type 0 where
  pub column_name : Text
  pub type_name : Text

-- `_PG_TYPE_MAP`
abbrev pub pg_type_map : List (Text × TypeCode)
pg_type_map =
    (codes "int", int)
    ∷ (codes "int2", int)
    ∷ (codes "int4", int)
    ∷ (codes "int8", int)
    ∷ (codes "float4", float)
    ∷ (codes "float8", float)
    ∷ (codes "serial2", int)
    ∷ (codes "serial4", int)
    ∷ (codes "serial8", int)
    ∷ (codes "bool", bool)
    ∷ (codes "varbit", bytes)
    ∷ (codes "bytea", bytearray)
    ∷ (codes "char", str)
    ∷ (codes "varchar", str)
    ∷ (codes "text", str)
    ∷ (codes "cidr", ip_network)
    ∷ (codes "inet", ip_address)
    ∷ (codes "date", date)
    ∷ (codes "time", time)
    ∷ (codes "timetz", time)
    ∷ (codes "timestamp", datetime)
    ∷ (codes "timestamptz", datetime)
    ∷ (codes "uuid", uuid)
    ∷ (codes "json", dict)
    ∷ (codes "jsonb", dict)
    ∷ (codes "money", str)
    ∷ (codes "numeric", decimal)
    ∷ (codes "decimal", decimal)
    ∷ []

-- `d.get(name, default)`
pub get_type : Text → List (Text × TypeCode) → TypeCode → TypeCode
get_type name [] d = d
get_type name ((n, c) ∷ entries) d = if text_eq n name then c else get_type name entries d

-- `s.lower()` of an ASCII text.
abbrev pub lower_char : ℕ → ℕ
lower_char c = if leb b'A' c && leb c b'Z' then c + 32 else c

abbrev pub lower : Text → Text
lower = map lower_char

-- `s.upper()` of an ASCII text.
abbrev pub upper_char : ℕ → ℕ
upper_char c = if leb b'a' c && leb c b'z' then c - 32 else c

abbrev pub upper : Text → Text
upper = map upper_char

unfoldable pub describe_column : Column → ColumnDescription
unfolding get_type
describe_column column =
    let pg_type_name = lower column.type_name in
    record {
      name = column.column_name;
      type_code = get_type pg_type_name pg_type_map str;
      pg_type_name = pg_type_name;
    }

unfoldable pub build_description : List Column → List ColumnDescription
unfolding describe_column
build_description [] = []
build_description (column ∷ columns) = describe_column column ∷ build_description columns
