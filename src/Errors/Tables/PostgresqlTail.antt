-- ===== src/Errors/Tables/PostgresqlTail.antt =====
-- The members of PostgreSQLErrorCodes (exceptions/postgresql_error_codes.py) from ER_PROHIBITED_SQL_STMT_ATTEMPTED_EXT to ER_INDEX_CORRUPTED, in the order of the class.
use mathlib.Core.List.{List, [], ◌∷◌}
use Prim.Native.String.{String}
use aurora_data_api.Base.Text.{Text, codes}

unfoldable pub postgresql_tail : List (String × Text)
postgresql_tail =
    ("ER_PROHIBITED_SQL_STMT_ATTEMPTED_EXT", codes "38003")
    ∷ ("ER_READING_SQL_DATA_NOT_PERMITTED_EXT", codes "38004")
    ∷ ("ER_EXT_ROUTINE_INVOCATION_EXCEPTION", codes "39000")
    ∷ ("ER_INVALID_SQL_STATE_RETURNED", codes "39001")
    ∷ ("ER_NULL_VAL_NOT_ALLOWED_EXT", codes "39004")
    ∷ ("ER_TRIGGER_PROTOCOL_VIOLATED", codes "39P01")
    ∷ ("ER_SRF_PROTOCOL_VIOLATED", codes "39P02")
    ∷ ("ER_EVENT_TRIGGER_PROTOCOL_VIOLATE", codes "39P03")
    ∷ ("ER_SAVEPOINT_EXCEPTION", codes "3B000")
    ∷ ("ER_INVALID_SAVEPOINT_SPEC", codes "3B001")
    ∷ ("ER_INVALID_CATALOG_NAME", codes "3D000")
    ∷ ("ER_INVALID_SCHEMA_NAME", codes "3F000")
    ∷ ("ER_TRANSAC_ROLLBACK", codes "40000")
    ∷ ("ER_SERIALIZATION_FAILURE", codes "40001")
    ∷ ("ER_TRANSAC_INTEGRITY_CONSTRAINT_VIOLATION", codes "40002")
    ∷ ("ER_STMT_COMPLETION_UNKNOWN", codes "40003")
    ∷ ("ER_DEADLOCK_DETECTED", codes "40P01")
    ∷ ("ER_SYNTAX_ERR_OR_ACCESS_RULE_VIOLATION", codes "42000")
    ∷ ("ER_INSUFFICIENT_PRIVILEGE", codes "42501")
    ∷ ("ER_SYNTAX_ERR", codes "42601")
    ∷ ("ER_INVALID_NAME", codes "42602")
    ∷ ("ER_INVALID_COL_DEF", codes "42611")
    ∷ ("ER_NAME_TOO_LONG", codes "42622")
    ∷ ("ER_DUP_COL", codes "42701")
    ∷ ("ER_AMBIGUOUS_COL", codes "42702")
    ∷ ("ER_UNDEF_COL", codes "42703")
    ∷ ("ER_UNDEF_OBJ", codes "42704")
    ∷ ("ER_DUP_OBJ", codes "42710")
    ∷ ("ER_DUP_ALIAS", codes "42712")
    ∷ ("ER_DUP_FUNC", codes "42723")
    ∷ ("ER_AMBIGUOUS_FUNC", codes "42725")
    ∷ ("ER_GROUPING_ERR", codes "42803")
    ∷ ("ER_DATATYPE_MISMATCH", codes "42804")
    ∷ ("ER_WRONG_OBJ_TYPE", codes "42809")
    ∷ ("ER_INVALID_FOREIGN_KEY", codes "42830")
    ∷ ("ER_CANNOT_COERCE", codes "42846")
    ∷ ("ER_UNDEF_FUNC", codes "42883")
    ∷ ("ER_GENERATED_ALWAYS", codes "428C9")
    ∷ ("ER_RESERVED_NAME", codes "42939")
    ∷ ("ER_UNDEF_TABLE", codes "42P01")
    ∷ ("ER_UNDEF_PARAM", codes "42P02")
    ∷ ("ER_DUP_CURSOR", codes "42P03")
    ∷ ("ER_DUP_DATABASE", codes "42P04")
    ∷ ("ER_DUP_PREPARED_STMT", codes "42P05")
    ∷ ("ER_DUP_SCHEMA", codes "42P06")
    ∷ ("ER_DUP_TABLE", codes "42P07")
    ∷ ("ER_AMBIGUOUS_PARAM", codes "42P08")
    ∷ ("ER_AMBIGUOUS_ALIAS", codes "42P09")
    ∷ ("ER_INVALID_COL_REF", codes "42P10")
    ∷ ("ER_INVALID_CURSOR_DEF", codes "42P11")
    ∷ ("ER_INVALID_DATABASE_DEF", codes "42P12")
    ∷ ("ER_INVALID_FUNC_DEF", codes "42P13")
    ∷ ("ER_INVALID_PREPARED_STMT_DEF", codes "42P14")
    ∷ ("ER_INVALID_SCHEMA_DEF", codes "42P15")
    ∷ ("ER_INVALID_TABLE_DEF", codes "42P16")
    ∷ ("ER_INVALID_OBJ_DEF", codes "42P17")
    ∷ ("ER_INDETERMINATE_DATATYPE", codes "42P18")
    ∷ ("ER_INVALID_RECURSION", codes "42P19")
    ∷ ("ER_WINDOWING_ERR", codes "42P20")
    ∷ ("ER_COLLATION_MISMATCH", codes "42P21")
    ∷ ("ER_INDETERMINATE_COLLATION", codes "42P22")
    ∷ ("ER_WITH_CHECK_OPTION_VIOLATION", codes "44000")
    ∷ ("ER_INSSUFICIENT_RESOURCES", codes "53000")
    ∷ ("ER_DISK_FULL", codes "53100")
    ∷ ("ER_OUT_OF_MEMORY", codes "53200")
    ∷ ("ER_TOO_MANY_CONNS", codes "53300")
    ∷ ("ER_CONFIG_LIMIT_EXCEEDED", codes "53400")
    ∷ ("ER_PROGRAM_LIMIT_EXCEEDED", codes "54000")
    ∷ ("ER_STMT_TOO_COMPLEX", codes "54001")
    ∷ ("ER_TOO_MANY_COLS", codes "54011")
    ∷ ("ER_TOO_MANY_ARGS", codes "54023")
    ∷ ("ER_OBJ_NOT_INT_PREREQUISITE_STATE", codes "55000")
    ∷ ("ER_OBJ_IN_USE", codes "55006")
    ∷ ("ER_CANT_CHANGE_RUNTIME_PARAM", codes "55P02")
    ∷ ("ER_LOCK_NOT_AVAILABLE", codes "55P03")
    ∷ ("ER_UNSAFE_NEW_ENUM_VAL_USAGE", codes "55P04")
    ∷ ("ER_OPERATOR_INTERVENTION", codes "57000")
    ∷ ("ER_QUERY_CANCELLED", codes "57014")
    ∷ ("ER_ADMIN_SHUTDOWN", codes "57P01")
    ∷ ("ER_CRASH_SHUTDOWN", codes "57P02")
    ∷ ("ER_CANNOT_CONNECT_NOW", codes "57P03")
    ∷ ("ER_DATABASE_DROPPED", codes "57P04")
    ∷ ("ER_IDLE_SESS_TIMEOUT", codes "57P05")
    ∷ ("ER_SYS_ERR", codes "58000")
    ∷ ("ER_IO_ERR", codes "58030")
    ∷ ("ER_UNDEF_FILE", codes "58P01")
    ∷ ("ER_DUP_FILE", codes "58P02")
    ∷ ("ER_SNAPSHOT_TOO_OLD", codes "72000")
    ∷ ("ER_CONFIG_FILE_ERR", codes "F0000")
    ∷ ("ER_LOCK_FILE_EXISTS", codes "F0001")
    ∷ ("ER_FDW_ERR", codes "HV000")
    ∷ ("ER_FDW_OUT_OF_MEMORY", codes "HV001")
    ∷ ("ER_FDW_DYNAMIC_PARAM_VAL_NEEDED", codes "HV002")
    ∷ ("ER_FDW_INVALID_DATATYPE", codes "HV004")
    ∷ ("ER_FDW_CO_NAME_NOT_FOUND", codes "HV005")
    ∷ ("ER_FDW_INVALID_DATATYPE_DESCRIPTORS", codes "HV006")
    ∷ ("ER_FDW_INVALID_COL_NAME", codes "HV007")
    ∷ ("ER_FDW_INVALID_COL_NUMBER", codes "HV008")
    ∷ ("ER_FDW_INVALID_USE_OF_NULL_POINTER", codes "HV009")
    ∷ ("ER_FDW_INVALID_STR_FORMAT", codes "HV00A")
    ∷ ("ER_FDW_INVALID_HANDLE", codes "HV00B")
    ∷ ("ER_FDW_INVALID_OPTION_INDEX", codes "HV00C")
    ∷ ("ER_FDW_INVALID_OPTION_NAME", codes "HV00D")
    ∷ ("ER_FDW_OPTION_NAME_NOT_FOUND", codes "HV00J")
    ∷ ("ER_FDW_REPLY_HANDLE", codes "HV00K")
    ∷ ("ER_FDW_UNABLE_TO_CREATE_EXECUTION", codes "HV00L")
    ∷ ("ER_FDW_UNABLE_TO_CREATE_REPLY", codes "HV00M")
    ∷ ("ER_FDW_UNABLE_TO_ESTABLISH_CONN", codes "HV00N")
    ∷ ("ER_FDW_NO_SCHEMAS", codes "HV00P")
    ∷ ("ER_FDW_SCHEMA_NOT_FOUND", codes "HV00Q")
    ∷ ("ER_FDW_TABLE_NOT_FOUND", codes "HV00R")
    ∷ ("ER_FDW_FUNC_SEQ_ERR", codes "HV010")
    ∷ ("ER_FDW_TOO_MANY_HANDLES", codes "HV014")
    ∷ ("ER_FDW_INCONSISTENT_DESCRIPTOR_INFO", codes "HV021")
    ∷ ("ER_FDW_INVALID_ATTR_VAL", codes "HV024")
    ∷ ("ER_FDW_INVALID_STR_LENGTH_OR_BUFF_LENGTH", codes "HV090")
    ∷ ("ER_FDW_INVALID_DESCRIPTOR_FIELD_IDENTIFIER", codes "HV091")
    ∷ ("ER_PLPGSQL_ERR", codes "P0000")
    ∷ ("ER_RAISE_EXCEPTION", codes "P0001")
    ∷ ("ER_NO_DATA_FOUND", codes "P0002")
    ∷ ("ER_TOO_MANY_ROWS", codes "P0003")
    ∷ ("ER_ASSERT_FAILURE", codes "P0004")
    ∷ ("ER_INTERNAL_ERROR", codes "XX000")
    ∷ ("ER_DATA_CORRUPTED", codes "XX001")
    ∷ ("ER_INDEX_CORRUPTED", codes "XX002")
    ∷ []
