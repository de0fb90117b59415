-- ===== src/Errors/Translate/Laws.antt =====
-- What `translate_database_error` makes of the messages of the two databases.
use aurora_data_api.Base.{ℕ, ◌≡◌, refl, String, true, false, Option, none, some, ◌++◌, ◌==◌, all}
use aurora_data_api.Base.Text.{Text, codes, text_eq}
use aurora_data_api.Base.Decimal.{is_digit, is_word, parse_nat}
use aurora_data_api.Base.Exec.{Result, ok}
use aurora_data_api.Errors.Classes.{
  ErrorClass, Exn, database_error, database_error_from, is_instance,
}
use aurora_data_api.Errors.Enum.{name_of_value}
use aurora_data_api.Errors.Enum.Laws.{mysql_canonical, postgresql_canonical}
use aurora_data_api.Errors.Tables.{mysql_error_codes, postgresql_error_codes}
use aurora_data_api.Errors.Factory.{Made, Factories, mysql_from_code, postgresql_from_code}
use aurora_data_api.Errors.Factory.Laws.{IsMade, from_code_member, get_attr_member}
use aurora_data_api.Errors.Pattern.{code_label, not_newline, mysql_search, postgresql_search}
use aurora_data_api.Errors.Pattern.Laws.{IsRun}
use aurora_data_api.Errors.Pattern.Mysql.{mysql_message, mysql_search_lem, flat_message}
use aurora_data_api.Errors.Pattern.Postgresql.{Separator, postgresql_message, postgresql_search_lem}
use aurora_data_api.Errors.Pattern.Disjoint.{
  mysql_search-postgresql, mysql_search-alphanumeric, postgresql_search-mysql,
}
use aurora_data_api.Errors.Translate.{
  error_msg, coded_error, translated, from_postgresql, from_mysql, translate_database_error,
}

abbrev pub mysql_made : Factories → Made
mysql_made f = record { attributes = f.mysql; count = f.count }

abbrev pub postgresql_made : Factories → Made
postgresql_made f = record { attributes = f.postgresql; count = f.count }

mysql_class :
    (v : ℕ) (n : String) (f : Factories)
    → IsMade ◌==◌ mysql_error_codes (mysql_made f)
    → name_of_value ◌==◌ v mysql_error_codes ≡ some n
    → (c : ErrorClass) × ((mysql_from_code v f).0 ≡ ok c) × (c.name ≡ codes n)
unfolding mysql_from_code
mysql_class v n f h member =
    let (c, made, named) =
      get_attr_member ◌==◌ mysql_error_codes n n (mysql_made f) h (mysql_canonical v n member) in
    (c, rw (from_code_member ◌==◌ mysql_error_codes v n (mysql_made f) member) made, named)

postgresql_class :
    (v : Text) (n : String) (f : Factories)
    → IsMade text_eq postgresql_error_codes (postgresql_made f)
    → name_of_value text_eq v postgresql_error_codes ≡ some n
    → (c : ErrorClass) × ((postgresql_from_code v f).0 ≡ ok c) × (c.name ≡ codes n)
unfolding postgresql_from_code
postgresql_class v n f h member =
    let (c, made, named) =
      get_attr_member text_eq postgresql_error_codes n n (postgresql_made f) h
        (postgresql_canonical v n member) in
    (
      c,
      rw (from_code_member text_eq postgresql_error_codes v n (postgresql_made f) member) made,
      named,
    )

-- A message that ends in a code and a SQL state as MySQL writes them, both runs of digits, becomes
-- an error of the class that is named after the member of MySQLErrorCodes with that code, whatever
-- classes the factories have made before.
pub translate-mysql :
    (original : Exn) (f : Factories) (before code state : Text) (n : String)
    → IsMade ◌==◌ mysql_error_codes (mysql_made f)
    → error_msg original ≡ mysql_message before code state
    → IsRun is_digit code
    → IsRun is_digit state
    → name_of_value ◌==◌ (parse_nat code) mysql_error_codes ≡ some n
    → (c : ErrorClass) × ((translate_database_error original f).0 ≡ coded_error original c)
      × (c.name ≡ codes n)
unfolding translate_database_error from_mysql translated
translate-mysql original f before code state n h shape rc rs member =
    let (c, made, named) = mysql_class (parse_nat code) n f h member in
    let found : mysql_search (error_msg original) ≡ some (code, state) =
      rw shape (mysql_search_lem before code state rc rs) in
    (c, rw (found, made) refl, named)

-- A message that ends as PostgreSQL ends its errors with a position, with no newline between ERROR
-- and the separator, digits as position and word characters as SQL state, becomes an error of the
-- class that is named after the member of PostgreSQLErrorCodes with that SQL state, whatever
-- classes the factories have made before.
pub translate-postgresql :
    (original : Exn) (f : Factories) (before text : Text) (sep : Separator) (position state : Text)
    (n : String)
    → IsMade text_eq postgresql_error_codes (postgresql_made f)
    → error_msg original ≡ postgresql_message before text sep position state
    → all not_newline text ≡ true
    → IsRun is_digit position
    → IsRun is_word state
    → name_of_value text_eq state postgresql_error_codes ≡ some n
    → (c : ErrorClass) × ((translate_database_error original f).0 ≡ coded_error original c)
      × (c.name ≡ codes n)
unfolding translate_database_error from_mysql translated from_postgresql
translate-postgresql original f before text sep position state n h shape rt rp rs member =
    let (c, made, named) = postgresql_class state n f h member in
    let missed : mysql_search (error_msg original) ≡ none =
      rw shape (mysql_search-postgresql before text sep position state rp rs) in
    let (found, e) = postgresql_search_lem before text sep position state rt rp rs in
    let found' : postgresql_search (error_msg original) ≡ some (found, state) = rw shape e in
    (c, rw (missed, found', made) refl, named)

-- A message of MySQL whose SQL state is a run of word characters that are not all digits, like
-- 42S02, becomes a plain DatabaseError, and no class is made for its code.
pub translate_alphanumeric :
    (original : Exn) (f : Factories) (before code state : Text)
    → error_msg original ≡ mysql_message before code state
    → IsRun is_digit code
    → IsRun is_word state
    → all is_digit state ≡ false
    → translate_database_error original f ≡ (database_error_from original, f)
unfolding translate_database_error from_mysql from_postgresql
translate_alphanumeric original f before code state shape rc rs letter =
    let missed : mysql_search (error_msg original) ≡ none =
      rw (shape, ← flat_message before code state)
        (mysql_search-alphanumeric (before ++ (code_label ++ code)) state rs letter) in
    let missed' : postgresql_search (error_msg original) ≡ none =
      rw shape (postgresql_search-mysql before code state rc rs) in
    rw (missed, missed')

translated-is_instance :
    (original : Exn) (r : Result Exn ErrorClass)
    → is_instance (translated original r) database_error ≡ true
unfolding translated is_instance
translated-is_instance original (ok c) = refl
translated-is_instance original _ = refl

from_postgresql-is_instance :
    (original : Exn) (found : Option (Text × Text)) (f : Factories)
    → is_instance (from_postgresql original found f).0 database_error ≡ true
unfolding from_postgresql is_instance
from_postgresql-is_instance original none f = refl
from_postgresql-is_instance original (some (p, state)) f = translated-is_instance original _

from_mysql-is_instance :
    (original : Exn) (found : Option (Text × Text)) (f : Factories)
    → is_instance (from_mysql original found f).0 database_error ≡ true
unfolding from_mysql
from_mysql-is_instance original none f = from_postgresql-is_instance original _ f
from_mysql-is_instance original (some (code, state)) f = translated-is_instance original _

-- Whatever exception is translated, the result is an instance of DatabaseError.
pub translate-is_instance :
    (original : Exn) (f : Factories)
    → is_instance (translate_database_error original f).0 database_error ≡ true
unfolding translate_database_error
translate-is_instance original f = from_mysql-is_instance original _ f
