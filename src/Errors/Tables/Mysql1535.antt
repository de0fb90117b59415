-- ===== src/Errors/Tables/Mysql1535.antt =====
-- The members of MySQLErrorCodes (exceptions/mysql_error_codes.py) from ER_BINLOG_ROW_WRONG_TABLE_DEF to ER_BINLOG_UNSAFE_INSERT_DELAYED, in the order of the class.
use mathlib.Core.List.{List, [], ◌∷◌}
use Prim.Native.String.{String}
use Prim.Native.Nat.{ℕ}

unfoldable pub mysql_from_1535 : List (String × ℕ)
mysql_from_1535 =
    ("ER_BINLOG_ROW_WRONG_TABLE_DEF", 1535)
    ∷ ("ER_BINLOG_ROW_RBR_TO_SBR", 1536)
    ∷ ("ER_EVENT_ALREADY_EXISTS", 1537)
    ∷ ("ER_EVENT_STORE_FAILED", 1538)
    ∷ ("ER_EVENT_DOES_NOT_EXIST", 1539)
    ∷ ("ER_EVENT_CANT_ALTER", 1540)
    ∷ ("ER_EVENT_DROP_FAILED", 1541)
    ∷ ("ER_EVENT_INTERVAL_NOT_POSITIVE_OR_TOO_BIG", 1542)
    ∷ ("ER_EVENT_ENDS_BEFORE_STARTS", 1543)
    ∷ ("ER_EVENT_EXEC_TIME_IN_THE_PAST", 1544)
    ∷ ("ER_EVENT_OPEN_TABLE_FAILED", 1545)
    ∷ ("ER_EVENT_NEITHER_M_EXPR_NOR_M_AT", 1546)
    ∷ ("ER_COL_COUNT_DOESNT_MATCH_CORRUPTED", 1547)
    ∷ ("ER_CANNOT_LOAD_FROM_TABLE", 1548)
    ∷ ("ER_EVENT_CANNOT_DELETE", 1549)
    ∷ ("ER_EVENT_COMPILE_ERROR", 1550)
    ∷ ("ER_EVENT_SAME_NAME", 1551)
    ∷ ("ER_EVENT_DATA_TOO_LONG", 1552)
    ∷ ("ER_DROP_INDEX_FK", 1553)
    ∷ ("ER_WARN_DEPRECATED_SYNTAX_WITH_VER", 1554)
    ∷ ("ER_CANT_WRITE_LOCK_LOG_TABLE", 1555)
    ∷ ("ER_CANT_LOCK_LOG_TABLE", 1556)
    ∷ ("ER_FOREIGN_DUPLICATE_KEY", 1557)
    ∷ ("ER_COL_COUNT_DOESNT_MATCH_PLEASE_UPDATE", 1558)
    ∷ ("ER_TEMP_TABLE_PREVENTS_SWITCH_OUT_OF_RBR", 1559)
    ∷ ("ER_STORED_FUNCTION_PREVENTS_SWITCH_BINLOG_FORMAT", 1560)
    ∷ ("ER_NDB_CANT_SWITCH_BINLOG_FORMAT", 1561)
    ∷ ("ER_PARTITION_NO_TEMPORARY", 1562)
    ∷ ("ER_PARTITION_CONST_DOMAIN_ERROR", 1563)
    ∷ ("ER_PARTITION_FUNCTION_IS_NOT_ALLOWED", 1564)
    ∷ ("ER_DDL_LOG_ERROR", 1565)
    ∷ ("ER_NULL_IN_VALUES_LESS_THAN", 1566)
    ∷ ("ER_WRONG_PARTITION_NAME", 1567)
    ∷ ("ER_CANT_CHANGE_TX_ISOLATION", 1568)
    ∷ ("ER_DUP_ENTRY_AUTOINCREMENT_CASE", 1569)
    ∷ ("ER_EVENT_MODIFY_QUEUE_ERROR", 1570)
    ∷ ("ER_EVENT_SET_VAR_ERROR", 1571)
    ∷ ("ER_PARTITION_MERGE_ERROR", 1572)
    ∷ ("ER_CANT_ACTIVATE_LOG", 1573)
    ∷ ("ER_RBR_NOT_AVAILABLE", 1574)
    ∷ ("ER_BASE64_DECODE_ERROR", 1575)
    ∷ ("ER_EVENT_RECURSION_FORBIDDEN", 1576)
    ∷ ("ER_EVENTS_DB_ERROR", 1577)
    ∷ ("ER_ONLY_INTEGERS_ALLOWED", 1578)
    ∷ ("ER_UNSUPORTED_LOG_ENGINE", 1579)
    ∷ ("ER_BAD_LOG_STATEMENT", 1580)
    ∷ ("ER_CANT_RENAME_LOG_TABLE", 1581)
    ∷ ("ER_WRONG_PARAMCOUNT_TO_NATIVE_FCT", 1582)
    ∷ ("ER_WRONG_PARAMETERS_TO_NATIVE_FCT", 1583)
    ∷ ("ER_WRONG_PARAMETERS_TO_STORED_FCT", 1584)
    ∷ ("ER_NATIVE_FCT_NAME_COLLISION", 1585)
    ∷ ("ER_DUP_ENTRY_WITH_KEY_NAME", 1586)
    ∷ ("ER_BINLOG_PURGE_EMFILE", 1587)
    ∷ ("ER_EVENT_CANNOT_CREATE_IN_THE_PAST", 1588)
    ∷ ("ER_EVENT_CANNOT_ALTER_IN_THE_PAST", 1589)
    ∷ ("ER_SLAVE_INCIDENT", 1590)
    ∷ ("ER_NO_PARTITION_FOR_GIVEN_VALUE_SILENT", 1591)
    ∷ ("ER_BINLOG_UNSAFE_STATEMENT", 1592)
    ∷ ("ER_SLAVE_FATAL_ERROR", 1593)
    ∷ ("ER_SLAVE_RELAY_LOG_READ_FAILURE", 1594)
    ∷ ("ER_SLAVE_RELAY_LOG_WRITE_FAILURE", 1595)
    ∷ ("ER_SLAVE_CREATE_EVENT_FAILURE", 1596)
    ∷ ("ER_SLAVE_MASTER_COM_FAILURE", 1597)
    ∷ ("ER_BINLOG_LOGGING_IMPOSSIBLE", 1598)
    ∷ ("ER_VIEW_NO_CREATION_CTX", 1599)
    ∷ ("ER_VIEW_INVALID_CREATION_CTX", 1600)
    ∷ ("ER_SR_INVALID_CREATION_CTX", 1601)
    ∷ ("ER_TRG_CORRUPTED_FILE", 1602)
    ∷ ("ER_TRG_NO_CREATION_CTX", 1603)
    ∷ ("ER_TRG_INVALID_CREATION_CTX", 1604)
    ∷ ("ER_EVENT_INVALID_CREATION_CTX", 1605)
    ∷ ("ER_TRG_CANT_OPEN_TABLE", 1606)
    ∷ ("ER_CANT_CREATE_SROUTINE", 1607)
    ∷ ("ER_NO_FORMAT_DESCRIPTION_EVENT_BEFORE_BINLOG_STATEMENT", 1609)
    ∷ ("ER_SLAVE_CORRUPT_EVENT", 1610)
    ∷ ("ER_LOAD_DATA_INVALID_COLUMN", 1611)
    ∷ ("ER_LOG_PURGE_NO_FILE", 1612)
    ∷ ("ER_XA_RBTIMEOUT", 1613)
    ∷ ("ER_XA_RBDEADLOCK", 1614)
    ∷ ("ER_NEED_REPREPARE", 1615)
    ∷ ("ER_DELAYED_NOT_SUPPORTED", 1616)
    ∷ ("WARN_NO_MASTER_INF", 1617)
    ∷ ("WARN_OPTION_IGNORED", 1618)
    ∷ ("WARN_PLUGIN_DELETE_BUILTIN", 1619)
    ∷ ("WARN_PLUGIN_BUSY", 1620)
    ∷ ("ER_VARIABLE_IS_READONLY", 1621)
    ∷ ("ER_WARN_ENGINE_TRANSACTION_ROLLBACK", 1622)
    ∷ ("ER_SLAVE_HEARTBEAT_FAILURE", 1623)
    ∷ ("ER_SLAVE_HEARTBEAT_VALUE_OUT_OF_RANGE", 1624)
    ∷ ("ER_NDB_REPLICATION_SCHEMA_ERROR", 1625)
    ∷ ("ER_CONFLICT_FN_PARSE_ERROR", 1626)
    ∷ ("ER_EXCEPTIONS_WRITE_ERROR", 1627)
    ∷ ("ER_TOO_LONG_TABLE_COMMENT", 1628)
    ∷ ("ER_TOO_LONG_FIELD_COMMENT", 1629)
    ∷ ("ER_FUNC_INEXISTENT_NAME_COLLISION", 1630)
    ∷ ("ER_DATABASE_NAME", 1631)
    ∷ ("ER_TABLE_NAME", 1632)
    ∷ ("ER_PARTITION_NAME", 1633)
    ∷ ("ER_SUBPARTITION_NAME", 1634)
    ∷ ("ER_TEMPORARY_NAME", 1635)
    ∷ ("ER_RENAMED_NAME", 1636)
    ∷ ("ER_TOO_MANY_CONCURRENT_TRXS", 1637)
    ∷ ("WARN_NON_ASCII_SEPARATOR_NOT_IMPLEMENTED", 1638)
    ∷ ("ER_DEBUG_SYNC_TIMEOUT", 1639)
    ∷ ("ER_DEBUG_SYNC_HIT_LIMIT", 1640)
    ∷ ("ER_DUP_SIGNAL_SET", 1641)
    ∷ ("ER_SIGNAL_WARN", 1642)
    ∷ ("ER_SIGNAL_NOT_FOUND", 1643)
    ∷ ("ER_SIGNAL_EXCEPTION", 1644)
    ∷ ("ER_RESIGNAL_WITHOUT_ACTIVE_HANDLER", 1645)
    ∷ ("ER_SIGNAL_BAD_CONDITION_TYPE", 1646)
    ∷ ("WARN_COND_ITEM_TRUNCATED", 1647)
    ∷ ("ER_COND_ITEM_TOO_LONG", 1648)
    ∷ ("ER_UNKNOWN_LOCALE", 1649)
    ∷ ("ER_SLAVE_IGNORE_SERVER_IDS", 1650)
    ∷ ("ER_QUERY_CACHE_DISABLED", 1651)
    ∷ ("ER_SAME_NAME_PARTITION_FIELD", 1652)
    ∷ ("ER_PARTITION_COLUMN_LIST_ERROR", 1653)
    ∷ ("ER_WRONG_TYPE_COLUMN_VALUE_ERROR", 1654)
    ∷ ("ER_TOO_MANY_PARTITION_FUNC_FIELDS_ERROR", 1655)
    ∷ ("ER_MAXVALUE_IN_VALUES_IN", 1656)
    ∷ ("ER_TOO_MANY_VALUES_ERROR", 1657)
    ∷ ("ER_ROW_SINGLE_PARTITION_FIELD_ERROR", 1658)
    ∷ ("ER_FIELD_TYPE_NOT_ALLOWED_AS_PARTITION_FIELD", 1659)
    ∷ ("ER_PARTITION_FIELDS_TOO_LONG", 1660)
    ∷ ("ER_BINLOG_ROW_ENGINE_AND_STMT_ENGINE", 1661)
    ∷ ("ER_BINLOG_ROW_MODE_AND_STMT_ENGINE", 1662)
    ∷ ("ER_BINLOG_UNSAFE_AND_STMT_ENGINE", 1663)
    ∷ ("ER_BINLOG_ROW_INJECTION_AND_STMT_ENGINE", 1664)
    ∷ ("ER_BINLOG_STMT_MODE_AND_ROW_ENGINE", 1665)
    ∷ ("ER_BINLOG_ROW_INJECTION_AND_STMT_MODE", 1666)
    ∷ ("ER_BINLOG_MULTIPLE_ENGINES_AND_SELF_LOGGING_ENGINE", 1667)
    ∷ ("ER_BINLOG_UNSAFE_LIMIT", 1668)
    ∷ ("ER_BINLOG_UNSAFE_INSERT_DELAYED", 1669)
    ∷ []
