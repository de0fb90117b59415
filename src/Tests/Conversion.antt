-- ===== src/Tests/Conversion.antt =====
-- A time on its way out and back, and a time from a column with a time zone.
use aurora_data_api.Base.{◌≡◌, refl, none, some, ◌∷◌, []}
use aurora_data_api.Base.Text.{codes}
use aurora_data_api.Base.Int.{pos}
use aurora_data_api.Base.Exec.{ok}
use aurora_data_api.Value.{Time, Value, time_value}
use aurora_data_api.Convert.{convert_value, scalar, string_field}
use aurora_data_api.Convert.Columns.{describe_column, ColumnDescription}
use aurora_data_api.Convert.Params.{prepare_param}
use aurora_data_api.Convert.Laws.{
  field_of, column_of, IsAware, convert_value-prepare_param, convert_value-IsAware,
}
use aurora_data_api.Tests.Library.{Encoded, encoded-ReadsBack, text_time}

abbrev noon : Time
noon = record { hour = 12; minute = 0; second = 0; microsecond = 0; tzinfo = none }

convert_value-prepare_param_example :
    convert_value Encoded
      (field_of (prepare_param Encoded (codes "t") (time_value noon)).value)
      (some (describe_column (column_of (codes "t") (time_value noon))))
    ≡ ok (scalar (time_value noon))
convert_value-prepare_param_example =
    convert_value-prepare_param Encoded (codes "t") (time_value noon) encoded-ReadsBack

abbrev timetz_column : ColumnDescription
timetz_column = record {
  name = codes "t";
  type_code = aurora_data_api.Convert.Columns.time;
  pg_type_name = codes "timetz";
}

abbrev aware_noon : Value
aware_noon = time_value (record noon { tzinfo = some (pos 0) })

convert_value-IsAware_example : IsAware aware_noon
unfolding convert_value text_time
convert_value-IsAware_example =
    convert_value-IsAware Encoded (string_field (12 ∷ 0 ∷ 0 ∷ 0 ∷ [])) timetz_column aware_noon refl
      refl
