-- ===== src/Errors/Tables/Mysql1268.antt =====
-- The members of MySQLErrorCodes (exceptions/mysql_error_codes.py) from ER_DROP_USER to ER_XAER_RMERR, in the order of the class.
use mathlib.Core.List.{List, [], ◌∷◌}
use Prim.Native.String.{String}
use Prim.Native.Nat.{ℕ}

unfoldable pub mysql_from_1268 : List (String × ℕ)
mysql_from_1268 =
    ("ER_DROP_USER", 1268)
    ∷ ("ER_REVOKE_GRANTS", 1269)
    ∷ ("ER_CANT_AGGREGATE_3COLLATIONS", 1270)
    ∷ ("ER_CANT_AGGREGATE_NCOLLATIONS", 1271)
    ∷ ("ER_VARIABLE_IS_NOT_STRUCT", 1272)
    ∷ ("ER_UNKNOWN_COLLATION", 1273)
    ∷ ("ER_SLAVE_IGNORED_SSL_PARAMS", 1274)
    ∷ ("ER_SERVER_IS_IN_SECURE_AUTH_MODE", 1275)
    ∷ ("ER_WARN_FIELD_RESOLVED", 1276)
    ∷ ("ER_BAD_SLAVE_UNTIL_COND", 1277)
    ∷ ("ER_MISSING_SKIP_SLAVE", 1278)
    ∷ ("ER_UNTIL_COND_IGNORED", 1279)
    ∷ ("ER_WRONG_NAME_FOR_INDEX", 1280)
    ∷ ("ER_WRONG_NAME_FOR_CATALOG", 1281)
    ∷ ("ER_WARN_QC_RESIZE", 1282)
    ∷ ("ER_BAD_FT_COLUMN", 1283)
    ∷ ("ER_UNKNOWN_KEY_CACHE", 1284)
    ∷ ("ER_WARN_HOSTNAME_WONT_WORK", 1285)
    ∷ ("ER_UNKNOWN_STORAGE_ENGINE", 1286)
    ∷ ("ER_WARN_DEPRECATED_SYNTAX", 1287)
    ∷ ("ER_NON_UPDATABLE_TABLE", 1288)
    ∷ ("ER_FEATURE_DISABLED", 1289)
    ∷ ("ER_OPTION_PREVENTS_STATEMENT", 1290)
    ∷ ("ER_DUPLICATED_VALUE_IN_TYPE", 1291)
    ∷ ("ER_TRUNCATED_WRONG_VALUE", 1292)
    ∷ ("ER_TOO_MUCH_AUTO_TIMESTAMP_COLS", 1293)
    ∷ ("ER_INVALID_ON_UPDATE", 1294)
    ∷ ("ER_UNSUPPORTED_PS", 1295)
    ∷ ("ER_GET_ERRMSG", 1296)
    ∷ ("ER_GET_TEMPORARY_ERRMSG", 1297)
    ∷ ("ER_UNKNOWN_TIME_ZONE", 1298)
    ∷ ("ER_WARN_INVALID_TIMESTAMP", 1299)
    ∷ ("ER_INVALID_CHARACTER_STRING", 1300)
    ∷ ("ER_WARN_ALLOWED_PACKET_OVERFLOWED", 1301)
    ∷ ("ER_CONFLICTING_DECLARATIONS", 1302)
    ∷ ("ER_SP_NO_RECURSIVE_CREATE", 1303)
    ∷ ("ER_SP_ALREADY_EXISTS", 1304)
    ∷ ("ER_SP_DOES_NOT_EXIST", 1305)
    ∷ ("ER_SP_DROP_FAILED", 1306)
    ∷ ("ER_SP_STORE_FAILED", 1307)
    ∷ ("ER_SP_LILABEL_MISMATCH", 1308)
    ∷ ("ER_SP_LABEL_REDEFINE", 1309)
    ∷ ("ER_SP_LABEL_MISMATCH", 1310)
    ∷ ("ER_SP_UNINIT_VAR", 1311)
    ∷ ("ER_SP_BADSELECT", 1312)
    ∷ ("ER_SP_BADRETURN", 1313)
    ∷ ("ER_SP_BADSTATEMENT", 1314)
    ∷ ("ER_UPDATE_LOG_DEPRECATED_IGNORED", 1315)
    ∷ ("ER_UPDATE_LOG_DEPRECATED_TRANSLATED", 1316)
    ∷ ("ER_QUERY_INTERRUPTED", 1317)
    ∷ ("ER_SP_WRONG_NO_OF_ARGS", 1318)
    ∷ ("ER_SP_COND_MISMATCH", 1319)
    ∷ ("ER_SP_NORETURN", 1320)
    ∷ ("ER_SP_NORETURNEND", 1321)
    ∷ ("ER_SP_BAD_CURSOR_QUERY", 1322)
    ∷ ("ER_SP_BAD_CURSOR_SELECT", 1323)
    ∷ ("ER_SP_CURSOR_MISMATCH", 1324)
    ∷ ("ER_SP_CURSOR_ALREADY_OPEN", 1325)
    ∷ ("ER_SP_CURSOR_NOT_OPEN", 1326)
    ∷ ("ER_SP_UNDECLARED_VAR", 1327)
    ∷ ("ER_SP_WRONG_NO_OF_FETCH_ARGS", 1328)
    ∷ ("ER_SP_FETCH_NO_DATA", 1329)
    ∷ ("ER_SP_DUP_PARAM", 1330)
    ∷ ("ER_SP_DUP_VAR", 1331)
    ∷ ("ER_SP_DUP_COND", 1332)
    ∷ ("ER_SP_DUP_CURS", 1333)
    ∷ ("ER_SP_CANT_ALTER", 1334)
    ∷ ("ER_SP_SUBSELECT_NYI", 1335)
    ∷ ("ER_STMT_NOT_ALLOWED_IN_SF_OR_TRG", 1336)
    ∷ ("ER_SP_VARCOND_AFTER_CURSHNDLR", 1337)
    ∷ ("ER_SP_CURSOR_AFTER_HANDLER", 1338)
    ∷ ("ER_SP_CASE_NOT_FOUND", 1339)
    ∷ ("ER_FPARSER_TOO_BIG_FILE", 1340)
    ∷ ("ER_FPARSER_BAD_HEADER", 1341)
    ∷ ("ER_FPARSER_EOF_IN_COMMENT", 1342)
    ∷ ("ER_FPARSER_ERROR_IN_PARAMETER", 1343)
    ∷ ("ER_FPARSER_EOF_IN_UNKNOWN_PARAMETER", 1344)
    ∷ ("ER_VIEW_NO_EXPLAIN", 1345)
    ∷ ("ER_FRM_UNKNOWN_TYPE", 1346)
    ∷ ("ER_WRONG_OBJECT", 1347)
    ∷ ("ER_NONUPDATEABLE_COLUMN", 1348)
    ∷ ("ER_VIEW_SELECT_DERIVED", 1349)
    ∷ ("ER_VIEW_SELECT_CLAUSE", 1350)
    ∷ ("ER_VIEW_SELECT_VARIABLE", 1351)
    ∷ ("ER_VIEW_SELECT_TMPTABLE", 1352)
    ∷ ("ER_VIEW_WRONG_LIST", 1353)
    ∷ ("ER_WARN_VIEW_MERGE", 1354)
    ∷ ("ER_WARN_VIEW_WITHOUT_KEY", 1355)
    ∷ ("ER_VIEW_INVALID", 1356)
    ∷ ("ER_SP_NO_DROP_SP", 1357)
    ∷ ("ER_SP_GOTO_IN_HNDLR", 1358)
    ∷ ("ER_TRG_ALREADY_EXISTS", 1359)
    ∷ ("ER_TRG_DOES_NOT_EXIST", 1360)
    ∷ ("ER_TRG_ON_VIEW_OR_TEMP_TABLE", 1361)
    ∷ ("ER_TRG_CANT_CHANGE_ROW", 1362)
    ∷ ("ER_TRG_NO_SUCH_ROW_IN_TRG", 1363)
    ∷ ("ER_NO_DEFAULT_FOR_FIELD", 1364)
    ∷ ("ER_DIVISION_BY_ZER", 1365)
    ∷ ("ER_TRUNCATED_WRONG_VALUE_FOR_FIELD", 1366)
    ∷ ("ER_ILLEGAL_VALUE_FOR_TYPE", 1367)
    ∷ ("ER_VIEW_NONUPD_CHECK", 1368)
    ∷ ("ER_VIEW_CHECK_FAILED", 1369)
    ∷ ("ER_PROCACCESS_DENIED_ERROR", 1370)
    ∷ ("ER_RELAY_LOG_FAIL", 1371)
    ∷ ("ER_PASSWD_LENGTH", 1372)
    ∷ ("ER_UNKNOWN_TARGET_BINLOG", 1373)
    ∷ ("ER_IO_ERR_LOG_INDEX_READ", 1374)
    ∷ ("ER_BINLOG_PURGE_PROHIBITED", 1375)
    ∷ ("ER_FSEEK_FAIL", 1376)
    ∷ ("ER_BINLOG_PURGE_FATAL_ERR", 1377)
    ∷ ("ER_LOG_IN_USE", 1378)
    ∷ ("ER_LOG_PURGE_UNKNOWN_ERR", 1379)
    ∷ ("ER_RELAY_LOG_INIT", 1380)
    ∷ ("ER_NO_BINARY_LOGGING", 1381)
    ∷ ("ER_RESERVED_SYNTAX", 1382)
    ∷ ("ER_WSAS_FAILED", 1383)
    ∷ ("ER_DIFF_GROUPS_PROC", 1384)
    ∷ ("ER_NO_GROUP_FOR_PROC", 1385)
    ∷ ("ER_ORDER_WITH_PROC", 1386)
    ∷ ("ER_LOGGING_PROHIBIT_CHANGING_OF", 1387)
    ∷ ("ER_NO_FILE_MAPPING", 1388)
    ∷ ("ER_WRONG_MAGIC", 1389)
    ∷ ("ER_PS_MANY_PARAM", 1390)
    ∷ ("ER_KEY_PART_0", 1391)
    ∷ ("ER_VIEW_CHECKSUM", 1392)
    ∷ ("ER_VIEW_MULTIUPDATE", 1393)
    ∷ ("ER_VIEW_NO_INSERT_FIELD_LIST", 1394)
    ∷ ("ER_VIEW_DELETE_MERGE_VIEW", 1395)
    ∷ ("ER_CANNOT_USER", 1396)
    ∷ ("ER_XAER_NOTA", 1397)
    ∷ ("ER_XAER_INVAL", 1398)
    ∷ ("ER_XAER_RMFAIL", 1399)
    ∷ ("ER_XAER_OUTSIDE", 1400)
    ∷ ("ER_XAER_RMERR", 1401)
    ∷ []
