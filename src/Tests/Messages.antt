-- ===== src/Tests/Messages.antt =====
-- Messages as the Data API sends them, and the exceptions that they become.
use aurora_data_api.Base.{◌≡◌, refl, some, ◌++◌}
use aurora_data_api.Base.Text.{Text, codes}
use aurora_data_api.Base.Decimal.{parse_nat, is_digit, is_word}
use aurora_data_api.Errors.Classes.{Exn, bad_request, class_name}
use aurora_data_api.Errors.Factory.{mysql_from_code, postgresql_from_code, no_classes}
use aurora_data_api.Errors.Pattern.{mysql_search, postgresql_search}
use aurora_data_api.Errors.Translate.{translate_database_error}

mysql_found :
    mysql_search (codes "Parse error; Error code: 1064; SQLState: 42000")
    ≡ some (codes "1064", codes "42000")
unfolding mysql_search is_digit
mysql_found = refl

postgresql_found :
    postgresql_search
      (codes "ERROR: relation \"t\" does not exist\n  Position: 15; SQLState: 42P01")
    ≡ some (codes "15", codes "42P01")
unfolding postgresql_search is_digit is_word
postgresql_found = refl

abbrev client_exn : Text → Exn
client_exn text = record {
  cls = bad_request;
  message = codes "An error occurred: " ++ text;
  response = some (record { error_entry = some (record { message = some text }) });
}

translated_name : Exn → Text
unfolding translate_database_error class_name mysql_search postgresql_search is_digit is_word
    parse_nat mysql_from_code postgresql_from_code
translated_name e = class_name (translate_database_error e no_classes).0.cls

parse_error_translated :
    translated_name (client_exn (codes "Parse error; Error code: 1064; SQLState: 42000"))
    ≡ codes "ER_PARSE_ERROR"
unfolding translated_name
parse_error_translated = refl

undefined_table_translated :
    translated_name
      (client_exn (codes "ERROR: relation \"t\" does not exist\n  Position: 15; SQLState: 42P01"))
    ≡ codes "ER_UNDEF_TABLE"
unfolding translated_name
undefined_table_translated = refl

no_such_table_missed :
    translated_name (client_exn (codes "No table; Error code: 1146; SQLState: 42S02"))
    ≡ codes "DatabaseError"
unfolding translated_name
no_such_table_missed = refl
