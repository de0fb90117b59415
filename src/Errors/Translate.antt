-- ===== src/Errors/Translate.antt =====
-- exceptions/translate.py: the exceptions of the Data API as DB-API exceptions.
pub mod Laws
use aurora_data_api.Base.{Option, none, some}
use aurora_data_api.Base.Text.{Text, codes}
use aurora_data_api.Base.Decimal.{parse_nat}
use aurora_data_api.Base.Exec.{Result, Exec, ok}
use aurora_data_api.Errors.Classes.{
  ErrorClass, ErrorResponse, ErrorEntry, Exn, from_factory, database_error_from,
}
use aurora_data_api.Errors.Factory.{Factories, mysql_from_code, postgresql_from_code}
use aurora_data_api.Errors.Pattern.{mysql_search, postgresql_search}

abbrev message_or_empty : Option Text → Text
message_or_empty none = codes ""
message_or_empty (some text) = text

abbrev entry_message : Option ErrorEntry → Text
entry_message none = codes ""
entry_message (some entry) = message_or_empty entry.message

abbrev response_message : Option ErrorResponse → Text
response_message none = codes ""
response_message (some response) = entry_message response.error_entry

-- `getattr(original_error, "response", {}).get("Error", {}).get("Message", "")`
abbrev pub error_msg : Exn → Text
error_msg e = response_message e.response

-- `getattr(original_error, "response", {})`
abbrev response_or_empty : Option ErrorResponse → ErrorResponse
response_or_empty none = record { error_entry = none }
response_or_empty (some response) = response

-- `error_class(error_msg)` with the response of the original error.
abbrev pub coded_error : Exn → ErrorClass → Exn
coded_error original c = record {
  cls = from_factory c;
  message = error_msg original;
  response = some (response_or_empty original.response);
}

-- The end of the `try`: an exception of `from_code` is passed over.
unfoldable pub translated : Exn → Result Exn ErrorClass → Exn
translated original (ok c) = coded_error original c
translated original _ = database_error_from original

abbrev translating : Exn → Exec Exn Factories ErrorClass → Factories → Exn × Factories
translating original m f = let (r, f') = m f in (translated original r, f')

unfoldable pub from_postgresql : Exn → Option (Text × Text) → Factories → Exn × Factories
unfolding translated
from_postgresql original none f = (database_error_from original, f)
from_postgresql original (some (position, state)) f =
    translating original (postgresql_from_code state) f

unfoldable pub from_mysql : Exn → Option (Text × Text) → Factories → Exn × Factories
unfolding translated from_postgresql
from_mysql original none f = from_postgresql original (postgresql_search (error_msg original)) f
from_mysql original (some (code, state)) f =
    translating original (mysql_from_code (parse_nat code)) f

-- `translate_database_error`
unfoldable pub translate_database_error : Exn → Factories → Exn × Factories
unfolding from_mysql
translate_database_error original f = from_mysql original (mysql_search (error_msg original)) f
