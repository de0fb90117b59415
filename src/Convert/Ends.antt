-- ===== src/Convert/Ends.antt =====
-- Conversion of a field, and of a response, ends.
use aurora_data_api.Base.{true, Option, none, some}
use aurora_data_api.Base.Text.{Text}
use aurora_data_api.Base.Exec.{Result, ok, raised, diverged, Ends}
use aurora_data_api.Value.{Value, str_value, float_value, Stdlib}
use aurora_data_api.Errors.Classes.{Exn}
use aurora_data_api.Convert.{
  Field, convert_value, coerce, or_error, tz_attached, decimal_of, date_of, time_of, datetime_of,
  convert_scalar, as_scalar, convert_array, null_field, array_field, boolean_values, long_values,
  double_values, string_values, array_values, ArrayValue, parse_with,
}
use aurora_data_api.Convert.Columns.{ColumnDescription, TypeCode, decimal, date, time, datetime}

or_error-Ends : {A : Type 0} (o : Option A) (make : A → Value) (e : Exn) → Ends (or_error o make e)
or_error-Ends none make e = tt
or_error-Ends (some a) make e = tt

parse_with-Ends : {A : Type 0} (o p : Option A) (make : A → Value) → Ends (parse_with o p make)
parse_with-Ends none p make = or_error-Ends p make _
parse_with-Ends (some a) p make = tt

tz_attached-Ends : (name : Text) (r : Result Exn Value) → Ends r → Ends (tz_attached name r)
tz_attached-Ends name (ok v) h = tt
tz_attached-Ends name (raised e) h = tt
tz_attached-Ends name diverged h = h

as_scalar-Ends : (r : Result Exn Value) → Ends r → Ends (as_scalar r)
as_scalar-Ends (ok v) h = tt
as_scalar-Ends (raised e) h = tt
as_scalar-Ends diverged h = h

module _ (L : Stdlib) where
  decimal_of-Ends : (v : Value) → Ends (decimal_of L v)
  unfolding decimal_of
  decimal_of-Ends (str_value s) = or_error-Ends (L.decimal_of_text s) _ _
  decimal_of-Ends (float_value x) = or_error-Ends (L.decimal_of_float x) _ _
  decimal_of-Ends _ = tt

  date_of-Ends : (v : Value) → Ends (date_of L v)
  unfolding date_of
  date_of-Ends (str_value s) = parse_with-Ends (L.date_fromisoformat s) (L.date_strptime s) _
  date_of-Ends _ = tt

  time_of-Ends : (v : Value) → Ends (time_of L v)
  unfolding time_of
  time_of-Ends (str_value s) = parse_with-Ends (L.time_fromisoformat s) (L.time_strptime s) _
  time_of-Ends _ = tt

  datetime_of-Ends : (v : Value) → Ends (datetime_of L v)
  unfolding datetime_of
  datetime_of-Ends (str_value s) = parse_with-Ends (L.datetime_fromisoformat s) _ _
  datetime_of-Ends _ = tt

  coerce-Ends : (c : TypeCode) (name : Text) (v : Value) → Ends (coerce L c name v)
  unfolding coerce
  coerce-Ends decimal name v = decimal_of-Ends v
  coerce-Ends date name v = tz_attached-Ends name _ (date_of-Ends v)
  coerce-Ends time name v = tz_attached-Ends name _ (time_of-Ends v)
  coerce-Ends datetime name v = tz_attached-Ends name _ (datetime_of-Ends v)
  coerce-Ends _ name v = tt

  convert_scalar-Ends :
      (field : Field) (col : Option ColumnDescription) → Ends (convert_scalar L field col)
  unfolding convert_scalar
  convert_scalar-Ends field none = tt
  convert_scalar-Ends field (some d) = as_scalar-Ends _ (coerce-Ends d.type_code d.pg_type_name _)

  convert_array-Ends : (a : ArrayValue) → Ends (convert_array a)
  unfolding convert_array
  convert_array-Ends (boolean_values xs) = tt
  convert_array-Ends (long_values xs) = tt
  convert_array-Ends (double_values xs) = tt
  convert_array-Ends (string_values xs) = tt
  convert_array-Ends (array_values xs) = tt

  pub convert_value-Ends :
      (field : Field) (col : Option ColumnDescription) → Ends (convert_value L field col)
  unfolding convert_value
  convert_value-Ends (null_field true) col = tt
  convert_value-Ends (array_field a) col = convert_array-Ends a
  convert_value-Ends field col = convert_scalar-Ends field col
