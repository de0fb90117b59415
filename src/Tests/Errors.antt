-- ===== src/Tests/Errors.antt =====
-- Messages of both databases, and the classes that the factories make for them.
use aurora_data_api.Base.{◌≡◌, refl, String, List, [], Bool, none, some, ◌==◌, arith, true, ◌≢◌}
use text.Mathlib.TextEquality.{eq_iff}
use aurora_data_api.Base.Text.{Text, codes, text_eq}
use aurora_data_api.Base.Exec.{ok}
use aurora_data_api.Base.Decimal.{is_digit, is_word, parse_nat}
use aurora_data_api.Errors.Classes.{
  ErrorClass, Exn, bad_request, database_error_from, is_instance, database_error,
}
use aurora_data_api.Errors.Enum.{name_of_value, canonical_name}
use aurora_data_api.Errors.Tables.{mysql_error_codes, postgresql_error_codes}
use aurora_data_api.Errors.Factory.{Made, find_attribute, get_attr, from_code, no_classes}
use aurora_data_api.Errors.Factory.Laws.{IsMade, from_code-get_attr, from_code-alias}
use aurora_data_api.Errors.Pattern.{mysql_search, postgresql_search}
use aurora_data_api.Errors.Pattern.Mysql.{mysql_message, mysql_search_lem}
use aurora_data_api.Errors.Pattern.Postgresql.{
  postgresql_message, postgresql_search_lem, newline_blank,
}
use aurora_data_api.Errors.Pattern.Disjoint.{mysql_search-postgresql, postgresql_search-mysql}
use aurora_data_api.Errors.Translate.{translate_database_error, coded_error}
use aurora_data_api.Errors.Translate.Laws.{
  translate-mysql, translate-postgresql, translate_alphanumeric, translate-is_instance,
}

abbrev empty_made : Made
empty_made = record { attributes = []; count = 0 }

pub nothing-IsMade :
    {V : Type 0} (eq : V → V → Bool) (err_index : List (String × V))
    → IsMade eq err_index empty_made
unfolding find_attribute
nothing-IsMade eq err_index = record {
  named = λ a c e. absurd (ground arith);
  below = λ a c e. absurd (ground arith);
  distinct = λ a b c d e f g. absurd (ground arith);
}

abbrev client_error_of : Text → Exn
client_error_of text = record {
  cls = bad_request;
  message = text;
  response = some (record { error_entry = some (record { message = some text }) });
}

abbrev mysql_text : Text → Text
mysql_text state = mysql_message (codes "Duplicate entry; ") (codes "1062") state

abbrev postgresql_text : Text
postgresql_text =
    postgresql_message [] (codes "relation \"t\" does not exist") newline_blank (codes "15")
      (codes "42P01")

mysql_search_lem_example :
    mysql_search (mysql_text (codes "23000")) ≡ some (codes "1062", codes "23000")
unfolding is_digit
mysql_search_lem_example =
    mysql_search_lem (codes "Duplicate entry; ") (codes "1062") (codes "23000") (refl, refl)
      (refl, refl)

postgresql_search_lem_example :
    (found : Text) × (postgresql_search postgresql_text ≡ some (found, codes "42P01"))
unfolding is_digit is_word
postgresql_search_lem_example =
    postgresql_search_lem [] (codes "relation \"t\" does not exist") newline_blank (codes "15")
      (codes "42P01") refl (refl, refl) (refl, refl)

mysql_search-postgresql_example : mysql_search postgresql_text ≡ none
unfolding is_digit is_word
mysql_search-postgresql_example =
    mysql_search-postgresql [] (codes "relation \"t\" does not exist") newline_blank (codes "15")
      (codes "42P01") (refl, refl) (refl, refl)

postgresql_search-mysql_example : postgresql_search (mysql_text (codes "23000")) ≡ none
unfolding is_digit is_word
postgresql_search-mysql_example =
    postgresql_search-mysql (codes "Duplicate entry; ") (codes "1062") (codes "23000") (refl, refl)
      (refl, refl)

translate-mysql_example :
    (c : ErrorClass) × ((translate_database_error
        (client_error_of (mysql_text (codes "23000")))
        no_classes).0
      ≡ coded_error (client_error_of (mysql_text (codes "23000"))) c)
    × (c.name ≡ codes "ER_DUP_ENTRY")
unfolding is_digit name_of_value mysql_error_codes parse_nat
translate-mysql_example =
    translate-mysql (client_error_of (mysql_text (codes "23000"))) no_classes
      (codes "Duplicate entry; ") (codes "1062") (codes "23000") "ER_DUP_ENTRY"
      (nothing-IsMade ◌==◌ mysql_error_codes) refl (refl, refl) (refl, refl) refl

translate-postgresql_example :
    (c : ErrorClass) × ((translate_database_error (client_error_of postgresql_text) no_classes).0
      ≡ coded_error (client_error_of postgresql_text) c)
    × (c.name ≡ codes "ER_UNDEF_TABLE")
unfolding is_digit is_word name_of_value postgresql_error_codes
translate-postgresql_example =
    translate-postgresql (client_error_of postgresql_text) no_classes []
      (codes "relation \"t\" does not exist") newline_blank (codes "15") (codes "42P01")
      "ER_UNDEF_TABLE" (nothing-IsMade text_eq postgresql_error_codes) refl refl (refl, refl)
      (refl, refl) refl

translate_alphanumeric_example :
    translate_database_error (client_error_of (mysql_text (codes "42S02"))) no_classes
    ≡ (database_error_from (client_error_of (mysql_text (codes "42S02"))), no_classes)
unfolding is_digit is_word
translate_alphanumeric_example =
    translate_alphanumeric (client_error_of (mysql_text (codes "42S02"))) no_classes
      (codes "Duplicate entry; ") (codes "1062") (codes "42S02") refl (refl, refl) (refl, refl) refl

translate-is_instance_example :
    is_instance
      (translate_database_error (client_error_of (mysql_text (codes "23000"))) no_classes).0
      database_error
    ≡ true
translate-is_instance_example =
    translate-is_instance (client_error_of (mysql_text (codes "23000"))) no_classes

abbrev duplicate_class : ErrorClass
duplicate_class = record { serial = 0; name = codes "ER_DUP_ENTRY" }

from_code-get_attr_example :
    get_attr ◌==◌ mysql_error_codes "ER_DUP_ENTRY"
      (from_code ◌==◌ mysql_error_codes 1062 empty_made).1
    ≡ (ok duplicate_class, (from_code ◌==◌ mysql_error_codes 1062 empty_made).1)
unfolding from_code name_of_value mysql_error_codes
from_code-get_attr_example =
    from_code-get_attr ◌==◌ mysql_error_codes 1062 "ER_DUP_ENTRY" empty_made
      (from_code ◌==◌ mysql_error_codes 1062 empty_made).1 duplicate_class refl refl (λ a c e. e)

abbrev partition_class : ErrorClass
partition_class = record { serial = 0; name = codes "ER_CONST_EXPR_IN_PARTITION_FUNC_ERROR" }

abbrev alias_class : ErrorClass
alias_class = record { serial = 1; name = codes "ER_CONST_EXPR_IN_PARTITION_FUNC_ERROR" }

abbrev alias_name : String
alias_name = "ER_WRONG_EXPR_IN_PARTITION_FUNC_ERROR"

abbrev member_name : String
member_name = "ER_CONST_EXPR_IN_PARTITION_FUNC_ERROR"

alias_differs : alias_name ≢ member_name
alias_differs e = ground (arith, eq_iff alias_name member_name, e)

from_code-alias_example :
    (partition_class.name ≡ alias_class.name) × (partition_class.serial ≢ alias_class.serial)
unfolding from_code get_attr name_of_value canonical_name mysql_error_codes find_attribute
from_code-alias_example =
    from_code-alias ◌==◌ mysql_error_codes 1486 member_name alias_name empty_made partition_class
      alias_class (nothing-IsMade ◌==◌ mysql_error_codes) refl refl refl alias_differs refl refl
