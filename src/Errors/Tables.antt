-- ===== src/Errors/Tables.antt =====
-- The two enumerations of error codes, put together from their parts.
mod Mysql1000
mod Mysql1134
mod Mysql1268
mod Mysql1402
mod Mysql1535
mod Mysql1670
mod PostgresqlHead
mod PostgresqlTail
use Prim.Native.Nat.{ℕ}
use Prim.Native.String.{String}
use mathlib.Core.List.{List, ◌++◌}
use aurora_data_api.Base.Text.{Text}
use Mysql1000.{mysql_from_1000}
use Mysql1134.{mysql_from_1134}
use Mysql1268.{mysql_from_1268}
use Mysql1402.{mysql_from_1402}
use Mysql1535.{mysql_from_1535}
use Mysql1670.{mysql_from_1670}
use PostgresqlHead.{postgresql_head}
use PostgresqlTail.{postgresql_tail}

-- `MySQLErrorCodes`, in definition order.
unfoldable pub mysql_error_codes : List (String × ℕ)
unfolding mysql_from_1000 mysql_from_1134 mysql_from_1268 mysql_from_1402 mysql_from_1535
    mysql_from_1670
mysql_error_codes =
    mysql_from_1000
    ++ (mysql_from_1134
        ++ (mysql_from_1268 ++ (mysql_from_1402 ++ (mysql_from_1535 ++ (mysql_from_1670)))))

-- `PostgreSQLErrorCodes`, in definition order.
unfoldable pub postgresql_error_codes : List (String × Text)
unfolding postgresql_head postgresql_tail
postgresql_error_codes = postgresql_head ++ postgresql_tail
