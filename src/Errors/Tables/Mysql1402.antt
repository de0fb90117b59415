-- ===== src/Errors/Tables/Mysql1402.antt =====
-- The members of MySQLErrorCodes (exceptions/mysql_error_codes.py) from ER_XA_RBROLLBACK to ER_BINLOG_ROW_LOGGING_FAILED, in the order of the class.
use mathlib.Core.List.{List, [], ◌∷◌}
use Prim.Native.String.{String}
use Prim.Native.Nat.{ℕ}

unfoldable pub mysql_from_1402 : List (String × ℕ)
mysql_from_1402 =
    ("ER_XA_RBROLLBACK", 1402)
    ∷ ("ER_NONEXISTING_PROC_GRANT", 1403)
    ∷ ("ER_PROC_AUTO_GRANT_FAIL", 1404)
    ∷ ("ER_PROC_AUTO_REVOKE_FAIL", 1405)
    ∷ ("ER_DATA_TOO_LONG", 1406)
    ∷ ("ER_SP_BAD_SQLSTATE", 1407)
    ∷ ("ER_STARTUP", 1408)
    ∷ ("ER_LOAD_FROM_FIXED_SIZE_ROWS_TO_VAR", 1409)
    ∷ ("ER_CANT_CREATE_USER_WITH_GRANT", 1410)
    ∷ ("ER_WRONG_VALUE_FOR_TYPE", 1411)
    ∷ ("ER_TABLE_DEF_CHANGED", 1412)
    ∷ ("ER_SP_DUP_HANDLER", 1413)
    ∷ ("ER_SP_NOT_VAR_ARG", 1414)
    ∷ ("ER_SP_NO_RETSET", 1415)
    ∷ ("ER_CANT_CREATE_GEOMETRY_OBJECT", 1416)
    ∷ ("ER_FAILED_ROUTINE_BREAK_BINLOG", 1417)
    ∷ ("ER_BINLOG_UNSAFE_ROUTINE", 1418)
    ∷ ("ER_BINLOG_CREATE_ROUTINE_NEED_SUPER", 1419)
    ∷ ("ER_EXEC_STMT_WITH_OPEN_CURSOR", 1420)
    ∷ ("ER_STMT_HAS_NO_OPEN_CURSOR", 1421)
    ∷ ("ER_COMMIT_NOT_ALLOWED_IN_SF_OR_TRG", 1422)
    ∷ ("ER_NO_DEFAULT_FOR_VIEW_FIELD", 1423)
    ∷ ("ER_SP_NO_RECURSION", 1424)
    ∷ ("ER_TOO_BIG_SCALE", 1425)
    ∷ ("ER_TOO_BIG_PRECISION", 1426)
    ∷ ("ER_M_BIGGER_THAN_D", 1427)
    ∷ ("ER_WRONG_LOCK_OF_SYSTEM_TABLE", 1428)
    ∷ ("ER_CONNECT_TO_FOREIGN_DATA_SOURCE", 1429)
    ∷ ("ER_QUERY_ON_FOREIGN_DATA_SOURCE", 1430)
    ∷ ("ER_FOREIGN_DATA_SOURCE_DOESNT_EXIST", 1431)
    ∷ ("ER_FOREIGN_DATA_STRING_INVALID_CANT_CREATE", 1432)
    ∷ ("ER_FOREIGN_DATA_STRING_INVALID", 1433)
    ∷ ("ER_CANT_CREATE_FEDERATED_TABLE", 1434)
    ∷ ("ER_TRG_IN_WRONG_SCHEMA", 1435)
    ∷ ("ER_STACK_OVERRUN_NEED_MORE", 1436)
    ∷ ("ER_TOO_LONG_BODY", 1437)
    ∷ ("ER_WARN_CANT_DROP_DEFAULT_KEYCACHE", 1438)
    ∷ ("ER_TOO_BIG_DISPLAYWIDTH", 1439)
    ∷ ("ER_XAER_DUPID", 1440)
    ∷ ("ER_DATETIME_FUNCTION_OVERFLOW", 1441)
    ∷ ("ER_CANT_UPDATE_USED_TABLE_IN_SF_OR_TRG", 1442)
    ∷ ("ER_VIEW_PREVENT_UPDATE", 1443)
    ∷ ("ER_PS_NO_RECURSION", 1444)
    ∷ ("ER_SP_CANT_SET_AUTOCOMMIT", 1445)
    ∷ ("ER_MALFORMED_DEFINER", 1446)
    ∷ ("ER_VIEW_FRM_NO_USER", 1447)
    ∷ ("ER_VIEW_OTHER_USER", 1448)
    ∷ ("ER_NO_SUCH_USER", 1449)
    ∷ ("ER_FORBID_SCHEMA_CHANGE", 1450)
    ∷ ("ER_ROW_IS_REFERENCED_2", 1451)
    ∷ ("ER_NO_REFERENCED_ROW_2", 1452)
    ∷ ("ER_SP_BAD_VAR_SHADOW", 1453)
    ∷ ("ER_TRG_NO_DEFINER", 1454)
    ∷ ("ER_OLD_FILE_FORMAT", 1455)
    ∷ ("ER_SP_RECURSION_LIMIT", 1456)
    ∷ ("ER_SP_PROC_TABLE_CORRUPT", 1457)
    ∷ ("ER_SP_WRONG_NAME", 1458)
    ∷ ("ER_TABLE_NEEDS_UPGRADE", 1459)
    ∷ ("ER_SP_NO_AGGREGATE", 1460)
    ∷ ("ER_MAX_PREPARED_STMT_COUNT_REACHED", 1461)
    ∷ ("ER_VIEW_RECURSIVE", 1462)
    ∷ ("ER_NON_GROUPING_FIELD_USED", 1463)
    ∷ ("ER_TABLE_CANT_HANDLE_SPKEYS", 1464)
    ∷ ("ER_NO_TRIGGERS_ON_SYSTEM_SCHEMA", 1465)
    ∷ ("ER_REMOVED_SPACES", 1466)
    ∷ ("ER_AUTOINC_READ_FAILED", 1467)
    ∷ ("ER_USERNAME", 1468)
    ∷ ("ER_HOSTNAME", 1469)
    ∷ ("ER_WRONG_STRING_LENGTH", 1470)
    ∷ ("ER_NON_INSERTABLE_TABLE", 1471)
    ∷ ("ER_ADMIN_WRONG_MRG_TABLE", 1472)
    ∷ ("ER_TOO_HIGH_LEVEL_OF_NESTING_FOR_SELECT", 1473)
    ∷ ("ER_NAME_BECOMES_EMPTY", 1474)
    ∷ ("ER_AMBIGUOUS_FIELD_TERM", 1475)
    ∷ ("ER_FOREIGN_SERVER_EXISTS", 1476)
    ∷ ("ER_FOREIGN_SERVER_DOESNT_EXIST", 1477)
    ∷ ("ER_ILLEGAL_HA_CREATE_OPTION", 1478)
    ∷ ("ER_PARTITION_REQUIRES_VALUES_ERROR", 1479)
    ∷ ("ER_PARTITION_WRONG_VALUES_ERROR", 1480)
    ∷ ("ER_PARTITION_MAXVALUE_ERROR", 1481)
    ∷ ("ER_PARTITION_SUBPARTITION_ERROR", 1482)
    ∷ ("ER_PARTITION_SUBPART_MIX_ERROR", 1483)
    ∷ ("ER_PARTITION_WRONG_NO_PART_ERROR", 1484)
    ∷ ("ER_PARTITION_WRONG_NO_SUBPART_ERROR", 1485)
    ∷ ("ER_CONST_EXPR_IN_PARTITION_FUNC_ERROR", 1486)
    ∷ ("ER_WRONG_EXPR_IN_PARTITION_FUNC_ERROR", 1486)
    ∷ ("ER_NO_CONST_EXPR_IN_RANGE_OR_LIST_ERROR", 1487)
    ∷ ("ER_FIELD_NOT_FOUND_PART_ERROR", 1488)
    ∷ ("ER_LIST_OF_FIELDS_ONLY_IN_HASH_ERROR", 1489)
    ∷ ("ER_INCONSISTENT_PARTITION_INFO_ERROR", 1490)
    ∷ ("ER_PARTITION_FUNC_NOT_ALLOWED_ERROR", 1491)
    ∷ ("ER_PARTITIONS_MUST_BE_DEFINED_ERROR", 1492)
    ∷ ("ER_RANGE_NOT_INCREASING_ERROR", 1493)
    ∷ ("ER_INCONSISTENT_TYPE_OF_FUNCTIONS_ERROR", 1494)
    ∷ ("ER_MULTIPLE_DEF_CONST_IN_LIST_PART_ERROR", 1495)
    ∷ ("ER_PARTITION_ENTRY_ERROR", 1496)
    ∷ ("ER_MIX_HANDLER_ERROR", 1497)
    ∷ ("ER_PARTITION_NOT_DEFINED_ERROR", 1498)
    ∷ ("ER_TOO_MANY_PARTITIONS_ERROR", 1499)
    ∷ ("ER_SUBPARTITION_ERROR", 1500)
    ∷ ("ER_CANT_CREATE_HANDLER_FILE", 1501)
    ∷ ("ER_BLOB_FIELD_IN_PART_FUNC_ERROR", 1502)
    ∷ ("ER_UNIQUE_KEY_NEED_ALL_FIELDS_IN_PF", 1503)
    ∷ ("ER_NO_PARTS_ERROR", 1504)
    ∷ ("ER_PARTITION_MGMT_ON_NONPARTITIONED", 1505)
    ∷ ("ER_FOREIGN_KEY_ON_PARTITIONED", 1506)
    ∷ ("ER_DROP_PARTITION_NON_EXISTENT", 1507)
    ∷ ("ER_DROP_LAST_PARTITION", 1508)
    ∷ ("ER_COALESCE_ONLY_ON_HASH_PARTITION", 1509)
    ∷ ("ER_REORG_HASH_ONLY_ON_SAME_N", 1510)
    ∷ ("ER_REORG_NO_PARAM_ERROR", 1511)
    ∷ ("ER_ONLY_ON_RANGE_LIST_PARTITION", 1512)
    ∷ ("ER_ADD_PARTITION_SUBPART_ERROR", 1513)
    ∷ ("ER_ADD_PARTITION_NO_NEW_PARTITION", 1514)
    ∷ ("ER_COALESCE_PARTITION_NO_PARTITION", 1515)
    ∷ ("ER_REORG_PARTITION_NOT_EXIST", 1516)
    ∷ ("ER_SAME_NAME_PARTITION", 1517)
    ∷ ("ER_NO_BINLOG_ERROR", 1518)
    ∷ ("ER_CONSECUTIVE_REORG_PARTITIONS", 1519)
    ∷ ("ER_REORG_OUTSIDE_RANGE", 1520)
    ∷ ("ER_PARTITION_FUNCTION_FAILURE", 1521)
    ∷ ("ER_PART_STATE_ERROR", 1522)
    ∷ ("ER_LIMITED_PART_RANGE", 1523)
    ∷ ("ER_PLUGIN_IS_NOT_LOADED", 1524)
    ∷ ("ER_WRONG_VALUE", 1525)
    ∷ ("ER_NO_PARTITION_FOR_GIVEN_VALUE", 1526)
    ∷ ("ER_FILEGROUP_OPTION_ONLY_ONCE", 1527)
    ∷ ("ER_CREATE_FILEGROUP_FAILED", 1528)
    ∷ ("ER_DROP_FILEGROUP_FAILED", 1529)
    ∷ ("ER_TABLESPACE_AUTO_EXTEND_ERROR", 1530)
    ∷ ("ER_WRONG_SIZE_NUMBER", 1531)
    ∷ ("ER_SIZE_OVERFLOW_ERROR", 1532)
    ∷ ("ER_ALTER_FILEGROUP_FAILED", 1533)
    ∷ ("ER_BINLOG_ROW_LOGGING_FAILED", 1534)
    ∷ []
