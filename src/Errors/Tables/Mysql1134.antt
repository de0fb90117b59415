-- ===== src/Errors/Tables/Mysql1134.antt =====
-- The members of MySQLErrorCodes (exceptions/mysql_error_codes.py) from ER_UPDATE_INF to ER_CANT_AGGREGATE_2COLLATIONS, in the order of the class.
use mathlib.Core.List.{List, [], ◌∷◌}
use Prim.Native.String.{String}
use Prim.Native.Nat.{ℕ}

unfoldable pub mysql_from_1134 : List (String × ℕ)
mysql_from_1134 =
    ("ER_UPDATE_INF", 1134)
    ∷ ("ER_CANT_CREATE_THREAD", 1135)
    ∷ ("ER_WRONG_VALUE_COUNT_ON_ROW", 1136)
    ∷ ("ER_CANT_REOPEN_TABLE", 1137)
    ∷ ("ER_INVALID_USE_OF_NULL", 1138)
    ∷ ("ER_REGEXP_ERROR", 1139)
    ∷ ("ER_MIX_OF_GROUP_FUNC_AND_FIELDS", 1140)
    ∷ ("ER_NONEXISTING_GRANT", 1141)
    ∷ ("ER_TABLEACCESS_DENIED_ERROR", 1142)
    ∷ ("ER_COLUMNACCESS_DENIED_ERROR", 1143)
    ∷ ("ER_ILLEGAL_GRANT_FOR_TABLE", 1144)
    ∷ ("ER_GRANT_WRONG_HOST_OR_USER", 1145)
    ∷ ("ER_NO_SUCH_TABLE", 1146)
    ∷ ("ER_NONEXISTING_TABLE_GRANT", 1147)
    ∷ ("ER_NOT_ALLOWED_COMMAND", 1148)
    ∷ ("ER_SYNTAX_ERROR", 1149)
    ∷ ("ER_DELAYED_CANT_CHANGE_LOCK", 1150)
    ∷ ("ER_TOO_MANY_DELAYED_THREADS", 1151)
    ∷ ("ER_ABORTING_CONNECTION", 1152)
    ∷ ("ER_NET_PACKET_TOO_LARGE", 1153)
    ∷ ("ER_NET_READ_ERROR_FROM_PIPE", 1154)
    ∷ ("ER_NET_FCNTL_ERROR", 1155)
    ∷ ("ER_NET_PACKETS_OUT_OF_ORDER", 1156)
    ∷ ("ER_NET_UNCOMPRESS_ERROR", 1157)
    ∷ ("ER_NET_READ_ERROR", 1158)
    ∷ ("ER_NET_READ_INTERRUPTED", 1159)
    ∷ ("ER_NET_ERROR_ON_WRITE", 1160)
    ∷ ("ER_NET_WRITE_INTERRUPTED", 1161)
    ∷ ("ER_TOO_LONG_STRING", 1162)
    ∷ ("ER_TABLE_CANT_HANDLE_BLOB", 1163)
    ∷ ("ER_TABLE_CANT_HANDLE_AUTO_INCREMENT", 1164)
    ∷ ("ER_DELAYED_INSERT_TABLE_LOCKED", 1165)
    ∷ ("ER_WRONG_COLUMN_NAME", 1166)
    ∷ ("ER_WRONG_KEY_COLUMN", 1167)
    ∷ ("ER_WRONG_MRG_TABLE", 1168)
    ∷ ("ER_DUP_UNIQUE", 1169)
    ∷ ("ER_BLOB_KEY_WITHOUT_LENGTH", 1170)
    ∷ ("ER_PRIMARY_CANT_HAVE_NULL", 1171)
    ∷ ("ER_TOO_MANY_ROWS", 1172)
    ∷ ("ER_REQUIRES_PRIMARY_KEY", 1173)
    ∷ ("ER_NO_RAID_COMPILED", 1174)
    ∷ ("ER_UPDATE_WITHOUT_KEY_IN_SAFE_MODE", 1175)
    ∷ ("ER_KEY_DOES_NOT_EXITS", 1176)
    ∷ ("ER_CHECK_NO_SUCH_TABLE", 1177)
    ∷ ("ER_CHECK_NOT_IMPLEMENTED", 1178)
    ∷ ("ER_CANT_DO_THIS_DURING_AN_TRANSACTION", 1179)
    ∷ ("ER_ERROR_DURING_COMMIT", 1180)
    ∷ ("ER_ERROR_DURING_ROLLBACK", 1181)
    ∷ ("ER_ERROR_DURING_FLUSH_LOGS", 1182)
    ∷ ("ER_ERROR_DURING_CHECKPOINT", 1183)
    ∷ ("ER_NEW_ABORTING_CONNECTION", 1184)
    ∷ ("ER_DUMP_NOT_IMPLEMENTED", 1185)
    ∷ ("ER_FLUSH_MASTER_BINLOG_CLOSED", 1186)
    ∷ ("ER_INDEX_REBUILD", 1187)
    ∷ ("ER_MASTER", 1188)
    ∷ ("ER_MASTER_NET_READ", 1189)
    ∷ ("ER_MASTER_NET_WRITE", 1190)
    ∷ ("ER_FT_MATCHING_KEY_NOT_FOUND", 1191)
    ∷ ("ER_LOCK_OR_ACTIVE_TRANSACTION", 1192)
    ∷ ("ER_UNKNOWN_SYSTEM_VARIABLE", 1193)
    ∷ ("ER_CRASHED_ON_USAGE", 1194)
    ∷ ("ER_CRASHED_ON_REPAIR", 1195)
    ∷ ("ER_WARNING_NOT_COMPLETE_ROLLBACK", 1196)
    ∷ ("ER_TRANS_CACHE_FULL", 1197)
    ∷ ("ER_SLAVE_MUST_STOP", 1198)
    ∷ ("ER_SLAVE_NOT_RUNNING", 1199)
    ∷ ("ER_BAD_SLAVE", 1200)
    ∷ ("ER_MASTER_INF", 1201)
    ∷ ("ER_SLAVE_THREAD", 1202)
    ∷ ("ER_TOO_MANY_USER_CONNECTIONS", 1203)
    ∷ ("ER_SET_CONSTANTS_ONLY", 1204)
    ∷ ("ER_LOCK_WAIT_TIMEOUT", 1205)
    ∷ ("ER_LOCK_TABLE_FULL", 1206)
    ∷ ("ER_READ_ONLY_TRANSACTION", 1207)
    ∷ ("ER_DROP_DB_WITH_READ_LOCK", 1208)
    ∷ ("ER_CREATE_DB_WITH_READ_LOCK", 1209)
    ∷ ("ER_WRONG_ARGUMENTS", 1210)
    ∷ ("ER_NO_PERMISSION_TO_CREATE_USER", 1211)
    ∷ ("ER_UNION_TABLES_IN_DIFFERENT_DIR", 1212)
    ∷ ("ER_LOCK_DEADLOCK", 1213)
    ∷ ("ER_TABLE_CANT_HANDLE_FT", 1214)
    ∷ ("ER_CANNOT_ADD_FOREIGN", 1215)
    ∷ ("ER_NO_REFERENCED_ROW", 1216)
    ∷ ("ER_ROW_IS_REFERENCED", 1217)
    ∷ ("ER_CONNECT_TO_MASTER", 1218)
    ∷ ("ER_QUERY_ON_MASTER", 1219)
    ∷ ("ER_ERROR_WHEN_EXECUTING_COMMAND", 1220)
    ∷ ("ER_WRONG_USAGE", 1221)
    ∷ ("ER_WRONG_NUMBER_OF_COLUMNS_IN_SELECT", 1222)
    ∷ ("ER_CANT_UPDATE_WITH_READLOCK", 1223)
    ∷ ("ER_MIXING_NOT_ALLOWED", 1224)
    ∷ ("ER_DUP_ARGUMENT", 1225)
    ∷ ("ER_USER_LIMIT_REACHED", 1226)
    ∷ ("ER_SPECIFIC_ACCESS_DENIED_ERROR", 1227)
    ∷ ("ER_LOCAL_VARIABLE", 1228)
    ∷ ("ER_GLOBAL_VARIABLE", 1229)
    ∷ ("ER_NO_DEFAULT", 1230)
    ∷ ("ER_WRONG_VALUE_FOR_VAR", 1231)
    ∷ ("ER_WRONG_TYPE_FOR_VAR", 1232)
    ∷ ("ER_VAR_CANT_BE_READ", 1233)
    ∷ ("ER_CANT_USE_OPTION_HERE", 1234)
    ∷ ("ER_NOT_SUPPORTED_YET", 1235)
    ∷ ("ER_MASTER_FATAL_ERROR_READING_BINLOG", 1236)
    ∷ ("ER_SLAVE_IGNORED_TABLE", 1237)
    ∷ ("ER_INCORRECT_GLOBAL_LOCAL_VAR", 1238)
    ∷ ("ER_WRONG_FK_DEF", 1239)
    ∷ ("ER_KEY_REF_DO_NOT_MATCH_TABLE_REF", 1240)
    ∷ ("ER_OPERAND_COLUMNS", 1241)
    ∷ ("ER_SUBQUERY_NO_1_ROW", 1242)
    ∷ ("ER_UNKNOWN_STMT_HANDLER", 1243)
    ∷ ("ER_CORRUPT_HELP_DB", 1244)
    ∷ ("ER_CYCLIC_REFERENCE", 1245)
    ∷ ("ER_AUTO_CONVERT", 1246)
    ∷ ("ER_ILLEGAL_REFERENCE", 1247)
    ∷ ("ER_DERIVED_MUST_HAVE_ALIAS", 1248)
    ∷ ("ER_SELECT_REDUCED", 1249)
    ∷ ("ER_TABLENAME_NOT_ALLOWED_HERE", 1250)
    ∷ ("ER_NOT_SUPPORTED_AUTH_MODE", 1251)
    ∷ ("ER_SPATIAL_CANT_HAVE_NULL", 1252)
    ∷ ("ER_COLLATION_CHARSET_MISMATCH", 1253)
    ∷ ("ER_SLAVE_WAS_RUNNING", 1254)
    ∷ ("ER_SLAVE_WAS_NOT_RUNNING", 1255)
    ∷ ("ER_TOO_BIG_FOR_UNCOMPRESS", 1256)
    ∷ ("ER_ZLIB_Z_MEM_ERROR", 1257)
    ∷ ("ER_ZLIB_Z_BUF_ERROR", 1258)
    ∷ ("ER_ZLIB_Z_DATA_ERROR", 1259)
    ∷ ("ER_CUT_VALUE_GROUP_CONCAT", 1260)
    ∷ ("ER_WARN_TOO_FEW_RECORDS", 1261)
    ∷ ("ER_WARN_TOO_MANY_RECORDS", 1262)
    ∷ ("ER_WARN_NULL_TO_NOTNULL", 1263)
    ∷ ("ER_WARN_DATA_OUT_OF_RANGE", 1264)
    ∷ ("WARN_DATA_TRUNCATED", 1265)
    ∷ ("ER_WARN_USING_OTHER_HANDLER", 1266)
    ∷ ("ER_CANT_AGGREGATE_2COLLATIONS", 1267)
    ∷ []
