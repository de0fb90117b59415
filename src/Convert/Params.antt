-- ===== src/Convert/Params.antt =====
-- Parameters on their way to the Data API: `format_parameters` of type_conversion.py.
use aurora_data_api.Base.{ℕ, Bool, Option, none, some, List, [], ◌∷◌}
use aurora_data_api.Base.Int.{ℤ}
use aurora_data_api.Base.Text.{Text, codes}
use aurora_data_api.Base.Exec.{Result, ok, raised}
use aurora_data_api.Value.{
  Float, Value, none_value, bool_value, int_value, float_value, str_value, bytes_value,
  decimal_value, date_value, time_value, datetime_value, other_value, Stdlib,
}
use aurora_data_api.Errors.Classes.{Exn, new_exn, not_supported_error}

-- The `value` of a parameter: a dictionary with one key.
pub data ParamValue : Type 0 where
  is_null : ParamValue
  blob_value : List ℕ → ParamValue
  boolean_value : Bool → ParamValue
  double_value : Float → ParamValue
  long_value : ℤ → ParamValue
  string_value : Text → ParamValue

pub data TypeHint : Type 0 where
  hint_date hint_time hint_timestamp hint_decimal : TypeHint

pub record Param : Type 0 where
  pub name : Text
  pub value : ParamValue
  pub type_hint : Option TypeHint

-- What a call passes as parameters of one execution; of an object that is no mapping only its truth
-- value matters.
pub data Parameters : Type 0 where
  no_parameters : Parameters
  mapping : List (Text × Value) → Parameters
  not_mapping : Bool → Parameters

module _ (L : Stdlib) where
  -- The field of a value, by its type; the text of one that has no field of its own.
  unfoldable pub param_value : Value → ParamValue
  param_value none_value = is_null
  param_value (bool_value b) = boolean_value b
  param_value (int_value n) = long_value n
  param_value (float_value x) = double_value x
  param_value (str_value s) = string_value s
  param_value (bytes_value bs) = blob_value bs
  param_value (decimal_value d) = string_value (L.str_decimal d)
  param_value (date_value d) = string_value (L.str_date d)
  param_value (time_value t) = string_value (L.str_time t)
  param_value (datetime_value d) = string_value (L.str_datetime d)
  param_value (other_value text) = string_value text

  unfoldable pub param_hint : Value → Option TypeHint
  param_hint (decimal_value d) = some hint_decimal
  param_hint (date_value d) = some hint_date
  param_hint (time_value t) = some hint_time
  param_hint (datetime_value d) = some hint_timestamp
  param_hint _ = none

  -- `_prepare_param`
  unfoldable pub prepare_param : Text → Value → Param
  unfolding param_value param_hint
  prepare_param name value = record {
    name = name;
    value = param_value value;
    type_hint = param_hint value;
  }

  prepare_params : List (Text × Value) → List Param
  unfolding prepare_param
  prepare_params [] = []
  prepare_params ((k, v) ∷ items) = prepare_param k v ∷ prepare_params items

  unfoldable pub format_parameters : Parameters → Result Exn (List Param)
  unfolding prepare_params
  format_parameters (mapping items) = ok (prepare_params items)
  format_parameters _ = raised (
      new_exn not_supported_error
        (codes "Expected a mapping of parameters. Array parameters are not supported."))
