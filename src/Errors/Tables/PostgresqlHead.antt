-- ===== src/Errors/Tables/PostgresqlHead.antt =====
-- The members of PostgreSQLErrorCodes (exceptions/postgresql_error_codes.py) from ER_NO_DATA to ER_MODIFYING_SQL_DATA_NOT_PERMITTED_EXT, in the order of the class.
use mathlib.Core.List.{List, [], ◌∷◌}
use Prim.Native.String.{String}
use aurora_data_api.Base.Text.{Text, codes}

unfoldable pub postgresql_head : List (String × Text)
postgresql_head =
    ("ER_NO_DATA", codes "02000")
    ∷ ("ER_NO_ADD_DYN_RESSET_RET", codes "02001")
    ∷ ("ER_STMT_NOT_YET_COMPLETE", codes "03000")
    ∷ ("ER_CONN_EXCEPTION", codes "08000")
    ∷ ("ER_CLIENT_UNABLE_ESTABLISH_CONN", codes "08001")
    ∷ ("ER_CONN_NOT_EXIST", codes "08003")
    ∷ ("ER_REJECTED_SQL_CONN", codes "08004")
    ∷ ("ER_CONN_FAILURE", codes "08006")
    ∷ ("ER_TRANSAC_RESOL_UNKN", codes "08007")
    ∷ ("ER_PROTOCOL_VIOLATION", codes "08P01")
    ∷ ("ER_TRIG_ACTION_EXCEPTION", codes "09000")
    ∷ ("ER_FEATURE_NOT_SUPPORTED", codes "0A000")
    ∷ ("ER_INVALID_TRANSAC_INIT", codes "0B000")
    ∷ ("ER_LOCATOR_EXCEPTION", codes "0F000")
    ∷ ("ER_INVALID_LOCATOR_SPEC", codes "0F001")
    ∷ ("ER_INVALID_GRANTOR", codes "0L000")
    ∷ ("ER_INVALID_GRANT_OP", codes "0LP01")
    ∷ ("ER_INVALID_ROLE_SPEC", codes "0P000")
    ∷ ("ER_DIAG_EXCEPTION", codes "0Z000")
    ∷ ("ER_STACKED_DIAG_ACCESS_WO_ACTIVE_HANDLER", codes "0Z002")
    ∷ ("ER_CASE_NOT_FOUND", codes "20000")
    ∷ ("ER_CARDINALITY_VIOLATION", codes "21000")
    ∷ ("ER_DATA_EXCEPTION", codes "22000")
    ∷ ("ER_STR_DATA_RIGHT_TRUNC", codes "22001")
    ∷ ("ER_NULL_NO_INDICATOR_PARAM", codes "22002")
    ∷ ("ER_NUM_VAL_OUT_OR_RANGE", codes "22003")
    ∷ ("ER_NULL_VAL_NOT_ALLOWED", codes "22004")
    ∷ ("ER_ERR_IN_ASSIGNMENT", codes "22005")
    ∷ ("ER_INVALID_DATETIME_FORMAT", codes "22007")
    ∷ ("ER_DATETIME_FIELD_OVERFLOW", codes "22008")
    ∷ ("ER_INVALID_TZ_DISPLACEMENT_VAL", codes "22009")
    ∷ ("ER_ESC_CHAR_CONFLICT", codes "2200B")
    ∷ ("ER_INVALID_USE_OF_ESC_CHAR", codes "2200C")
    ∷ ("ER_INVALID_ESC_OCTET", codes "2200D")
    ∷ ("ER_ZERO_LENGTH_CHAR_STR", codes "2200F")
    ∷ ("ER_MOST_SPECIFIC_TYPE_MISMATCH", codes "2200G")
    ∷ ("ER_SEQ_GEN_LIMIT_EXCEEDED", codes "2200H")
    ∷ ("ER_NOT_AN_XML_DOC", codes "2200L")
    ∷ ("ER_INVALID_XML_DOC", codes "2200M")
    ∷ ("ER_INVALID_XML_CONTENT", codes "2200N")
    ∷ ("ER_INVALID_XML_COMMENT", codes "2200S")
    ∷ ("ER_INVALID_XML_PROC_INSTRUC", codes "2200T")
    ∷ ("ER_INVALID_INDICATOR_PARAM_VAL", codes "22010")
    ∷ ("ER_SUBSTR_ERR", codes "22011")
    ∷ ("ER_DIV_BY_ZERO", codes "22012")
    ∷ ("ER_INVALID_PREC_OR_FOLL_SIZE", codes "22013")
    ∷ ("ER_INVALID_ARG_FOR_NTILE_FUNC", codes "22014")
    ∷ ("ER_INTERVAL_FIELD_OVERFLOW", codes "22015")
    ∷ ("ER_INVALID_ARG_FOR_NTH_VAL_FUNC", codes "22016")
    ∷ ("ER_INVALID_CHAR_VAL_FOR_CAST", codes "22018")
    ∷ ("ER_INVALID_ESC_CHAR", codes "22019")
    ∷ ("ER_INVALID_REG_EXP", codes "2201B")
    ∷ ("ER_INVALID_ARG_FOR_LOG", codes "2201E")
    ∷ ("ER_INVALID_ARG_FOR_POW_FUNC", codes "2201F")
    ∷ ("ER_INVALID_ARG_FOR_WIDTH_BUCKET_FUNC", codes "2201G")
    ∷ ("ER_INVALID_ROW_CNT_IN_LIMIT_CLAUSE", codes "2201W")
    ∷ ("ER_INVALID_ROW_CNT_IN_RES_OFFSET_CLAUSE", codes "2201X")
    ∷ ("ER_CHAR_NOT_IN_REPERTOIRE", codes "22021")
    ∷ ("ER_INDICATOR_OVERFLOW", codes "22022")
    ∷ ("ER_INVALID_PARAM_VAL", codes "22023")
    ∷ ("ER_UNTERMINATED_CSTR", codes "22024")
    ∷ ("ER_INVALID_ESC_SEQ", codes "22025")
    ∷ ("ER_STR_DATA_LENGTH_MISMATCH", codes "22026")
    ∷ ("ER_TRIM_ERR", codes "22027")
    ∷ ("ER_ARR_SUBSCRIPT_ERR", codes "2202E")
    ∷ ("ER_INVALID_TABLESAMPLE_REPEAT", codes "2202G")
    ∷ ("ER_INVALID_TABLESAMPLE_ARG", codes "2202H")
    ∷ ("ER_DUPE_JSON_OBJ_KEY_VAL", codes "22030")
    ∷ ("ER_INVALID_ARG_FOR_SQL_JSON_DATETIME_FUNC", codes "22031")
    ∷ ("ER_INVALID_JSON_TEXT", codes "22032")
    ∷ ("ER_INVALID_JSON_SUBSCRIPT", codes "22033")
    ∷ ("ER_MORE_THAN_ONE_SQL_JSON_ITEM", codes "22034")
    ∷ ("ER_NO_SQL_JSON_ITEM", codes "22035")
    ∷ ("ER_NON_NUM_SQL_JSON_ITEM", codes "22036")
    ∷ ("ER_NON_UNIQUE_KEYS_IN_JSON_OBJ", codes "22037")
    ∷ ("ER_SINGLETON_SQL_JSON_ITEM_REQ", codes "22038")
    ∷ ("ER_SQL_JSON_ARR_NOT_FOUND", codes "22039")
    ∷ ("ER_SQL_JSON_MEMBER_NOT_FOUND", codes "2203A")
    ∷ ("ER_SQL_JSON_NUMBER_NOT_FOUND", codes "2203B")
    ∷ ("ER_SQL_JSON_OBJ_NOT_FOUND", codes "2203C")
    ∷ ("ER_TOO_MANY_JSON_ARR_ELEMS", codes "2203D")
    ∷ ("ER_TOO_MANY_JSON_OBJ_MEMBERS", codes "2203E")
    ∷ ("ER_SQL_JSON_SCALAR_REQ", codes "2203F")
    ∷ ("ER_FLOATING_POINT_EXCEPTION", codes "22P01")
    ∷ ("ER_INVALID_TEXT_REPR", codes "22P02")
    ∷ ("ER_INVALID_BINARY_REPR", codes "22P03")
    ∷ ("ER_BAD_COPY_FILE_FORMAT", codes "22P04")
    ∷ ("ER_UNTRANSLATABLE_CHAR", codes "22P05")
    ∷ ("ER_NONSTD_USE_OF_ESC_CHAR", codes "22P06")
    ∷ ("ER_INTEGRITY_CONSTRAINT_VIOLATION", codes "23000")
    ∷ ("ER_RESTRICT_VIOLATION", codes "23001")
    ∷ ("ER_NOT_NULL_VIOLATION", codes "23502")
    ∷ ("ER_FOREIGN_KEY_VIOLATION", codes "23503")
    ∷ ("ER_UNIQUE_VIOLATION", codes "23505")
    ∷ ("ER_CHECK_VIOLATION", codes "23514")
    ∷ ("ER_EXCLUSION_VIOLATION", codes "23P01")
    ∷ ("ER_INVALID_CURSOR_STATE", codes "24000")
    ∷ ("ER_INVALID_TRANSAC_STATE", codes "25000")
    ∷ ("ER_ACTIVE_SQL_TRANSAC", codes "25001")
    ∷ ("ER_BRANCH_TRANSAC_ALREADY_ACTIVE", codes "25002")
    ∷ ("ER_INAPPROPRIATE_ACCESS_MODE_FOR_BRANCH_TRANSAC", codes "25003")
    ∷ ("ER_INAPPROPRIATE_ISOLATION_LVL_FOR_BRANCH_TRANSAC", codes "25004")
    ∷ ("ER_NO_ACTIVE_SQL_TRANSAC_FOR_BRANCH_TRANSAC", codes "25005")
    ∷ ("ER_READONLY_SQL_TRANSAC", codes "25006")
    ∷ ("ER_SCHEMA_AND_DATA_STMT_MIXING_NOT_SUPPORTED", codes "25007")
    ∷ ("ER_HELD_CURSOR_REQUIRES_SAME_ISOLATION_LVL", codes "25008")
    ∷ ("ER_NO_ACTIVE_SQL_TRANSAC", codes "25P01")
    ∷ ("ER_IN_FAILED_SQL_TRANSAC", codes "25P02")
    ∷ ("ER_IDLE_IN_TRANSAC_SESS_TIMEOUT", codes "25P03")
    ∷ ("ER_INVALID_SQL_STMT_NAME", codes "26000")
    ∷ ("ER_TRIGGERED_DATA_CHANGE_VIOLATION", codes "27000")
    ∷ ("ER_INVALID_AUTHORIZATION_SPEC", codes "28000")
    ∷ ("ER_INVALID_PASSWORD", codes "28P01")
    ∷ ("ER_DEPENDENT_PRIVILEGE_DESCRIPTORS_STILL_EXIST", codes "2B000")
    ∷ ("ER_DEPENDENT_OBJS_STILL_EXIST", codes "2BP01")
    ∷ ("ER_INVALID_TRANSAC_TERMINATION", codes "2D000")
    ∷ ("ER_SQL_ROUTINE_EXCEPTION", codes "2F000")
    ∷ ("ER_MODIFYING_SQL_DATA_NOT_PERMITTED", codes "2F002")
    ∷ ("ER_PROHIBITED_SQL_STMT_ATTEMPTED", codes "2F003")
    ∷ ("ER_READING_SQL_DATA_NOT_PERMITTED", codes "2F004")
    ∷ ("ER_FUNC_EXECUTED_NO_RETURN_STMT", codes "2F005")
    ∷ ("ER_INVALID_CURSOR_NAME", codes "34000")
    ∷ ("ER_EXT_ROUTINE_EXCEPTION", codes "38000")
    ∷ ("ER_CONTAINING_SQL_NOT_PERMITTED", codes "38001")
    ∷ ("ER_MODIFYING_SQL_DATA_NOT_PERMITTED_EXT", codes "38002")
    ∷ []
