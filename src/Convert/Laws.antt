-- ===== src/Convert/Laws.antt =====
-- What conversion promises: values come back from the fields that carry them, and which do not.
use aurora_data_api.Base.{◌≡◌, refl, true, Option, none, some, arith, is_some}
use aurora_data_api.Base.Text.{Text, codes}
use aurora_data_api.Base.Exec.{Result, ok, raised, diverged}
use aurora_data_api.Value.{
  Value, none_value, bool_value, int_value, float_value, str_value, bytes_value, decimal_value,
  date_value, time_value, datetime_value, other_value, Stdlib, ReadsBack,
}
use aurora_data_api.Errors.Classes.{Exn}
use aurora_data_api.Convert.{
  Field, null_field, boolean_field, long_field, double_field, string_field, blob_field, array_field,
  array_values, Converted, scalar, convert_value, attach_utc, coerce, decimal_of, field_scalar,
  is_tz_aware_type, or_error, tz_attached, date_of, time_of, datetime_of, convert_scalar, as_scalar,
  convert_array, boolean_values, long_values, double_values, string_values,
}
use aurora_data_api.Convert.Columns.{
  ColumnDescription, Column, describe_column, decimal, date, time, datetime, TypeCode,
}
use aurora_data_api.Convert.Params.{
  ParamValue, is_null, blob_value, boolean_value, double_value, long_value, string_value,
  prepare_param,
}

-- The field that carries back what a parameter carried there.
abbrev pub field_of : ParamValue → Field
field_of is_null = null_field true
field_of (blob_value bs) = blob_field bs
field_of (boolean_value b) = boolean_field b
field_of (double_value x) = double_field x
field_of (long_value n) = long_field n
field_of (string_value s) = string_field s

-- The type of a PostgreSQL column that holds values like this one.
abbrev pub column_type : Value → Text
column_type none_value = codes "text"
column_type (bool_value _) = codes "bool"
column_type (int_value _) = codes "int8"
column_type (float_value _) = codes "float8"
column_type (str_value _) = codes "text"
column_type (bytes_value _) = codes "bytea"
column_type (decimal_value _) = codes "numeric"
column_type (date_value _) = codes "date"
column_type (time_value _) = codes "time"
column_type (datetime_value _) = codes "timestamp"
column_type (other_value _) = codes "text"

abbrev pub carried : Value → Value
carried (other_value text) = str_value text
carried v = v

abbrev pub column_of : Text → Value → Column
column_of name v = record { column_name = name; type_name = column_type v }

-- Provided that the standard library reads back its own texts of decimals, dates and times, a
-- value sent as a parameter and returned in the corresponding field, from a column of its own
-- type, is converted to the value that was sent, and an object of another type to its text.
pub convert_value-prepare_param :
    (L : Stdlib) (name : Text) (v : Value)
    → ReadsBack L
    → convert_value L
        (field_of (prepare_param L name v).value)
        (some (describe_column (column_of name v)))
      ≡ ok (scalar (carried v))
unfolding convert_value prepare_param describe_column
convert_value-prepare_param L name none_value back = refl
convert_value-prepare_param L name (bool_value b) back = refl
convert_value-prepare_param L name (int_value n) back = refl
convert_value-prepare_param L name (float_value x) back = refl
convert_value-prepare_param L name (str_value s) back = refl
convert_value-prepare_param L name (bytes_value bs) back = refl
convert_value-prepare_param L name (decimal_value d) back = rw back.decimal
convert_value-prepare_param L name (date_value d) back = rw back.date
convert_value-prepare_param L name (time_value t) back = rw back.time
convert_value-prepare_param L name (datetime_value d) back = rw back.datetime
convert_value-prepare_param L name (other_value text) back = refl

abbrev pub IsAware : Value → Type 0
IsAware (time_value t) = is_some t.tzinfo ≡ true
IsAware (datetime_value d) = is_some d.time.tzinfo ≡ true
IsAware v = Unit

abbrev pub AwareResult : Result Exn Value → Type 0
AwareResult (ok v) = IsAware v
AwareResult r = Unit

abbrev AwareConverted : Result Exn Converted → Type 0
AwareConverted (ok (scalar v)) = IsAware v
AwareConverted r = Unit

as_scalar-aware : (r : Result Exn Value) → AwareResult r → AwareConverted (as_scalar r)
as_scalar-aware (ok v) h = h
as_scalar-aware _ h = tt

attach_utc-IsAware : (v : Value) → IsAware (attach_utc true v)
unfolding attach_utc
attach_utc-IsAware (time_value t) = ground arith
attach_utc-IsAware (datetime_value d) = ground arith
attach_utc-IsAware v = tt

tz_attached-aware :
    (name : Text) (r : Result Exn Value)
    → is_tz_aware_type name ≡ true
    → AwareResult (tz_attached name r)
tz_attached-aware name (ok v) h = rw h (attach_utc-IsAware v)
tz_attached-aware name (raised e) h = tt
tz_attached-aware name diverged h = tt

field_scalar-IsAware : (f : Field) → IsAware (field_scalar f)
unfolding field_scalar
field_scalar-IsAware (null_field b) = tt
field_scalar-IsAware _ = tt

module _ (L : Stdlib) where
  or_error-aware :
      {A : Type 0} (o : Option A) (make : A → Value) (e : Exn)
      → ((a : A) → IsAware (make a))
      → AwareResult (or_error o make e)
  or_error-aware none make e h = tt
  or_error-aware (some a) make e h = h a

  decimal_of-aware : (v : Value) → AwareResult (decimal_of L v)
  unfolding decimal_of
  decimal_of-aware (str_value s) = or_error-aware (L.decimal_of_text s) decimal_value _ (λ a. tt)
  decimal_of-aware (float_value x) = or_error-aware (L.decimal_of_float x) decimal_value _ (λ a. tt)
  decimal_of-aware _ = tt

  coerce-aware :
      (c : TypeCode) (name : Text) (v : Value)
      → is_tz_aware_type name ≡ true
      → IsAware v
      → AwareResult (coerce L c name v)
  unfolding coerce
  coerce-aware decimal name v h aware = decimal_of-aware v
  coerce-aware date name v h aware = tz_attached-aware name (date_of L v) h
  coerce-aware time name v h aware = tz_attached-aware name (time_of L v) h
  coerce-aware datetime name v h aware = tz_attached-aware name (datetime_of L v) h
  coerce-aware _ name v h aware = aware

  convert_scalar-aware :
      (field : Field) (d : ColumnDescription)
      → is_tz_aware_type d.pg_type_name ≡ true
      → AwareConverted (convert_scalar L field (some d))
  unfolding convert_scalar
  convert_scalar-aware field d h =
      as_scalar-aware _ (
        coerce-aware d.type_code d.pg_type_name (field_scalar field) h (field_scalar-IsAware field))

  convert_value-aware :
      (field : Field) (d : ColumnDescription)
      → is_tz_aware_type d.pg_type_name ≡ true
      → AwareConverted (convert_value L field (some d))
  unfolding convert_value convert_array
  convert_value-aware (null_field true) d h = tt
  convert_value-aware (array_field (boolean_values xs)) d h = tt
  convert_value-aware (array_field (long_values xs)) d h = tt
  convert_value-aware (array_field (double_values xs)) d h = tt
  convert_value-aware (array_field (string_values xs)) d h = tt
  convert_value-aware (array_field (array_values xs)) d h = tt
  convert_value-aware field d h = convert_scalar-aware field d h

-- A time or a moment that convert_value makes for a column of type timetz or timestamptz has a
-- time zone.
pub convert_value-IsAware :
    (L : Stdlib) (field : Field) (d : ColumnDescription) (v : Value)
    → is_tz_aware_type d.pg_type_name ≡ true
    → convert_value L field (some d) ≡ ok (scalar v)
    → IsAware v
convert_value-IsAware L field d v h e = rw e at (convert_value-aware L field d h)
