-- ===== src/Convert.antt =====
-- `convert_value` of type_conversion.py: fields on their way back from the Data API.
pub mod Laws
pub mod Ends
pub mod Columns
pub mod Params
use aurora_data_api.Base.{ℕ, Bool, true, Option, none, some, List, map, ◌||◌, if◌then◌else◌}
use aurora_data_api.Base.Int.{ℤ, pos}
use aurora_data_api.Base.Text.{Text, codes, text_eq, contains}
use aurora_data_api.Base.Exec.{Result, ok, raised, diverged}
use aurora_data_api.Value.{
  Float, Decimal, Time, Value, none_value, bool_value, int_value, float_value, str_value,
  bytes_value, decimal_value, date_value, time_value, datetime_value, Stdlib, decimal_of_int,
}
use aurora_data_api.Errors.Classes.{
  Exn, new_exn, key_error, value_error, type_error, other_exception,
}
use aurora_data_api.Convert.Columns.{
  ColumnDescription, TypeCode, date, datetime, decimal, str, time,
}

-- The union `ArrayValue` of the Data API: a dictionary with one key.
mutual
  pub data ArrayValue : Type 0 where
    boolean_values : List Bool → ArrayValue
    long_values : List ℤ → ArrayValue
    double_values : List Float → ArrayValue
    string_values : List Text → ArrayValue
    array_values : ArrayValues → ArrayValue

  pub data ArrayValues : Type 0 where
    no_arrays : ArrayValues
    one_more : ArrayValue → ArrayValues → ArrayValues

-- The union `Field` of the Data API: a dictionary with one key.
pub data Field : Type 0 where
  null_field boolean_field : Bool → Field
  long_field : ℤ → Field
  double_field : Float → Field
  string_field : Text → Field
  blob_field : List ℕ → Field
  array_field : ArrayValue → Field

-- A scalar, or a list of scalars.
pub data Converted : Type 0 where
  scalar : Value → Converted
  array : List Value → Converted

-- `list(value_dict.values())[0]`
field_scalar : Field → Value
field_scalar (null_field b) = bool_value b
field_scalar (boolean_field b) = bool_value b
field_scalar (long_field n) = int_value n
field_scalar (double_field x) = float_value x
field_scalar (string_field s) = str_value s
field_scalar (blob_field bs) = bytes_value bs
field_scalar (array_field a) = none_value

-- An array of primitives is the one value of its dictionary. A nested array has the one key
-- `arrayValues`, and the code looks up `arrayValue` in it.
convert_array : ArrayValue → Result Exn Converted
convert_array (boolean_values xs) = ok (array (map bool_value xs))
convert_array (long_values xs) = ok (array (map int_value xs))
convert_array (double_values xs) = ok (array (map float_value xs))
convert_array (string_values xs) = ok (array (map str_value xs))
convert_array (array_values xs) = raised (new_exn key_error (codes "'arrayValue'"))

abbrev is_tz_aware_type : Text → Bool
is_tz_aware_type name = text_eq name (codes "timestamptz") || text_eq name (codes "timetz")

-- `parsed.replace(tzinfo=utc)` where it has no zone.
abbrev with_utc : Time → Time
with_utc t = elim t.tzinfo [ none ↦ record t { tzinfo = some (pos 0) } | some _ ↦ t ]

attach_utc : Bool → Value → Value
attach_utc true (time_value t) = time_value (with_utc t)
attach_utc true (datetime_value d) = datetime_value (record d { time = with_utc d.time })
attach_utc _ v = v

abbrev or_error : {A : Type 0} → Option A → (A → Value) → Exn → Result Exn Value
or_error none make e = raised e
or_error (some a) make e = ok (make a)

-- `fromisoformat`, then `strptime` where that fails.
abbrev parse_with : {A : Type 0} → Option A → Option A → (A → Value) → Result Exn Value
parse_with none fallback make =
    or_error fallback make (new_exn value_error (codes "time data does not match format"))
parse_with (some a) fallback make = ok (make a)

abbrev not_a_text : Exn
not_a_text = new_exn type_error (codes "fromisoformat: argument must be str")

abbrev invalid_decimal : Exn
invalid_decimal = new_exn (other_exception (codes "InvalidOperation")) (codes "invalid decimal")

abbrev tz_attached : Text → Result Exn Value → Result Exn Value
tz_attached pg_type_name (ok v) = ok (attach_utc (is_tz_aware_type pg_type_name) v)
tz_attached pg_type_name r = r

abbrev as_scalar : Result Exn Value → Result Exn Converted
as_scalar (ok v) = ok (scalar v)
as_scalar (raised e) = raised e
as_scalar diverged = diverged

module _ (L : Stdlib) where
  decimal_of : Value → Result Exn Value
  decimal_of (str_value s) = or_error (L.decimal_of_text s) decimal_value invalid_decimal
  decimal_of (int_value n) = ok (decimal_value (decimal_of_int n))
  decimal_of (bool_value b) = ok (decimal_value (decimal_of_int (pos (if b then 1 else 0))))
  decimal_of (float_value x) = or_error (L.decimal_of_float x) decimal_value invalid_decimal
  decimal_of v = raised (new_exn type_error (codes "conversion to Decimal is not supported"))

  date_of : Value → Result Exn Value
  date_of (str_value s) = parse_with (L.date_fromisoformat s) (L.date_strptime s) date_value
  date_of v = raised not_a_text

  time_of : Value → Result Exn Value
  time_of (str_value s) = parse_with (L.time_fromisoformat s) (L.time_strptime s) time_value
  time_of v = raised not_a_text

  datetime_of : Value → Result Exn Value
  datetime_of (str_value s) =
      parse_with (L.datetime_fromisoformat s)
        (if contains (codes ".") s then L.datetime_strptime_fraction s else L.datetime_strptime s)
        datetime_value
  datetime_of v = raised not_a_text

  coerce : TypeCode → Text → Value → Result Exn Value
  unfolding decimal_of date_of time_of datetime_of attach_utc
  coerce decimal pg_type_name v = decimal_of v
  coerce date pg_type_name v = tz_attached pg_type_name (date_of v)
  coerce time pg_type_name v = tz_attached pg_type_name (time_of v)
  coerce datetime pg_type_name v = tz_attached pg_type_name (datetime_of v)
  coerce _ pg_type_name v = ok v

  convert_scalar : Field → Option ColumnDescription → Result Exn Converted
  unfolding field_scalar coerce
  convert_scalar field none = ok (scalar (field_scalar field))
  convert_scalar field (some d) = as_scalar (coerce d.type_code d.pg_type_name (field_scalar field))

  -- `convert_value`
  unfoldable pub convert_value : Field → Option ColumnDescription → Result Exn Converted
  unfolding convert_scalar convert_array
  convert_value (null_field true) col_desc = ok (scalar none_value)
  convert_value (array_field a) col_desc = convert_array a
  convert_value field col_desc = convert_scalar field col_desc
