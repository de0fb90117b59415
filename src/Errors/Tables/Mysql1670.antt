-- ===== src/Errors/Tables/Mysql1670.antt =====
-- The members of MySQLErrorCodes (exceptions/mysql_error_codes.py) from ER_BINLOG_UNSAFE_SYSTEM_TABLE to ER_INNODB_ONLINE_LOG_TOO_BIG, in the order of the class.
use mathlib.Core.List.{List, [], ◌∷◌}
use Prim.Native.String.{String}
use Prim.Native.Nat.{ℕ}

unfoldable pub mysql_from_1670 : List (String × ℕ)
mysql_from_1670 =
    ("ER_BINLOG_UNSAFE_SYSTEM_TABLE", 1670)
    ∷ ("ER_BINLOG_UNSAFE_AUTOINC_COLUMNS", 1671)
    ∷ ("ER_BINLOG_UNSAFE_UDF", 1672)
    ∷ ("ER_BINLOG_UNSAFE_SYSTEM_VARIABLE", 1673)
    ∷ ("ER_BINLOG_UNSAFE_SYSTEM_FUNCTION", 1674)
    ∷ ("ER_BINLOG_UNSAFE_NONTRANS_AFTER_TRANS", 1675)
    ∷ ("ER_MESSAGE_AND_STATEMENT", 1676)
    ∷ ("ER_SLAVE_CONVERSION_FAILED", 1677)
    ∷ ("ER_SLAVE_CANT_CREATE_CONVERSION", 1678)
    ∷ ("ER_INSIDE_TRANSACTION_PREVENTS_SWITCH_BINLOG_FORMAT", 1679)
    ∷ ("ER_PATH_LENGTH", 1680)
    ∷ ("ER_WARN_DEPRECATED_SYNTAX_NO_REPLACEMENT", 1681)
    ∷ ("ER_WRONG_NATIVE_TABLE_STRUCTURE", 1682)
    ∷ ("ER_WRONG_PERFSCHEMA_USAGE", 1683)
    ∷ ("ER_WARN_I_S_SKIPPED_TABLE", 1684)
    ∷ ("ER_INSIDE_TRANSACTION_PREVENTS_SWITCH_BINLOG_DIRECT", 1685)
    ∷ ("ER_STORED_FUNCTION_PREVENTS_SWITCH_BINLOG_DIRECT", 1686)
    ∷ ("ER_SPATIAL_MUST_HAVE_GEOM_COL", 1687)
    ∷ ("ER_TOO_LONG_INDEX_COMMENT", 1688)
    ∷ ("ER_LOCK_ABORTED", 1689)
    ∷ ("ER_DATA_OUT_OF_RANGE", 1690)
    ∷ ("ER_WRONG_SPVAR_TYPE_IN_LIMIT", 1691)
    ∷ ("ER_BINLOG_UNSAFE_MULTIPLE_ENGINES_AND_SELF_LOGGING_ENGINE", 1692)
    ∷ ("ER_BINLOG_UNSAFE_MIXED_STATEMENT", 1693)
    ∷ ("ER_INSIDE_TRANSACTION_PREVENTS_SWITCH_SQL_LOG_BIN", 1694)
    ∷ ("ER_STORED_FUNCTION_PREVENTS_SWITCH_SQL_LOG_BIN", 1695)
    ∷ ("ER_FAILED_READ_FROM_PAR_FILE", 1696)
    ∷ ("ER_VALUES_IS_NOT_INT_TYPE_ERROR", 1697)
    ∷ ("ER_ACCESS_DENIED_NO_PASSWORD_ERROR", 1698)
    ∷ ("ER_SET_PASSWORD_AUTH_PLUGIN", 1699)
    ∷ ("ER_GRANT_PLUGIN_USER_EXISTS", 1700)
    ∷ ("ER_TRUNCATE_ILLEGAL_FK", 1701)
    ∷ ("ER_PLUGIN_IS_PERMANENT", 1702)
    ∷ ("ER_SLAVE_HEARTBEAT_VALUE_OUT_OF_RANGE_MIN", 1703)
    ∷ ("ER_SLAVE_HEARTBEAT_VALUE_OUT_OF_RANGE_MAX", 1704)
    ∷ ("ER_STMT_CACHE_FULL", 1705)
    ∷ ("ER_MULTI_UPDATE_KEY_CONFLICT", 1706)
    ∷ ("ER_TABLE_NEEDS_REBUILD", 1707)
    ∷ ("WARN_OPTION_BELOW_LIMIT", 1708)
    ∷ ("ER_INDEX_COLUMN_TOO_LONG", 1709)
    ∷ ("ER_ERROR_IN_TRIGGER_BODY", 1710)
    ∷ ("ER_ERROR_IN_UNKNOWN_TRIGGER_BODY", 1711)
    ∷ ("ER_INDEX_CORRUPT", 1712)
    ∷ ("ER_UNDO_RECORD_TOO_BIG", 1713)
    ∷ ("ER_BINLOG_UNSAFE_INSERT_IGNORE_SELECT", 1714)
    ∷ ("ER_BINLOG_UNSAFE_INSERT_SELECT_UPDATE", 1715)
    ∷ ("ER_BINLOG_UNSAFE_REPLACE_SELECT", 1716)
    ∷ ("ER_BINLOG_UNSAFE_CREATE_IGNORE_SELECT", 1717)
    ∷ ("ER_BINLOG_UNSAFE_CREATE_REPLACE_SELECT", 1718)
    ∷ ("ER_BINLOG_UNSAFE_UPDATE_IGNORE", 1719)
    ∷ ("ER_PLUGIN_NO_UNINSTALL", 1720)
    ∷ ("ER_PLUGIN_NO_INSTALL", 1721)
    ∷ ("ER_BINLOG_UNSAFE_WRITE_AUTOINC_SELECT", 1722)
    ∷ ("ER_BINLOG_UNSAFE_CREATE_SELECT_AUTOINC", 1723)
    ∷ ("ER_BINLOG_UNSAFE_INSERT_TWO_KEYS", 1724)
    ∷ ("ER_TABLE_IN_FK_CHECK", 1725)
    ∷ ("ER_UNSUPPORTED_ENGINE", 1726)
    ∷ ("ER_BINLOG_UNSAFE_AUTOINC_NOT_FIRST", 1727)
    ∷ ("ER_CANNOT_LOAD_FROM_TABLE_V2", 1728)
    ∷ ("ER_MASTER_DELAY_VALUE_OUT_OF_RANGE", 1729)
    ∷ ("ER_ONLY_FD_AND_RBR_EVENTS_ALLOWED_IN_BINLOG_STATEMENT", 1730)
    ∷ ("ER_PARTITION_EXCHANGE_DIFFERENT_OPTION", 1731)
    ∷ ("ER_PARTITION_EXCHANGE_PART_TABLE", 1732)
    ∷ ("ER_PARTITION_EXCHANGE_TEMP_TABLE", 1733)
    ∷ ("ER_PARTITION_INSTEAD_OF_SUBPARTITION", 1734)
    ∷ ("ER_UNKNOWN_PARTITION", 1735)
    ∷ ("ER_TABLES_DIFFERENT_METADATA", 1736)
    ∷ ("ER_ROW_DOES_NOT_MATCH_PARTITION", 1737)
    ∷ ("ER_BINLOG_CACHE_SIZE_GREATER_THAN_MAX", 1738)
    ∷ ("ER_WARN_INDEX_NOT_APPLICABLE", 1739)
    ∷ ("ER_PARTITION_EXCHANGE_FOREIGN_KEY", 1740)
    ∷ ("ER_NO_SUCH_KEY_VALUE", 1741)
    ∷ ("ER_RPL_INFO_DATA_TOO_LONG", 1742)
    ∷ ("ER_NETWORK_READ_EVENT_CHECKSUM_FAILURE", 1743)
    ∷ ("ER_BINLOG_READ_EVENT_CHECKSUM_FAILURE", 1744)
    ∷ ("ER_BINLOG_STMT_CACHE_SIZE_GREATER_THAN_MAX", 1745)
    ∷ ("ER_CANT_UPDATE_TABLE_IN_CREATE_TABLE_SELECT", 1746)
    ∷ ("ER_PARTITION_CLAUSE_ON_NONPARTITIONED", 1747)
    ∷ ("ER_ROW_DOES_NOT_MATCH_GIVEN_PARTITION_SET", 1748)
    ∷ ("ER_NO_SUCH_PARTITION_UNUSED", 1749)
    ∷ ("ER_CHANGE_RPL_INFO_REPOSITORY_FAILURE", 1750)
    ∷ ("ER_WARNING_NOT_COMPLETE_ROLLBACK_WITH_CREATED_TEMP_TABLE", 1751)
    ∷ ("ER_WARNING_NOT_COMPLETE_ROLLBACK_WITH_DROPPED_TEMP_TABLE", 1752)
    ∷ ("ER_MTS_FEATURE_IS_NOT_SUPPORTED", 1753)
    ∷ ("ER_MTS_UPDATED_DBS_GREATER_MAX", 1754)
    ∷ ("ER_MTS_CANT_PARALLEL", 1755)
    ∷ ("ER_MTS_INCONSISTENT_DATA", 1756)
    ∷ ("ER_FULLTEXT_NOT_SUPPORTED_WITH_PARTITIONING", 1757)
    ∷ ("ER_DA_INVALID_CONDITION_NUMBER", 1758)
    ∷ ("ER_INSECURE_PLAIN_TEXT", 1759)
    ∷ ("ER_INSECURE_CHANGE_MASTER", 1760)
    ∷ ("ER_FOREIGN_DUPLICATE_KEY_WITH_CHILD_INFO", 1761)
    ∷ ("ER_FOREIGN_DUPLICATE_KEY_WITHOUT_CHILD_INFO", 1762)
    ∷ ("ER_SQLTHREAD_WITH_SECURE_SLAVE", 1763)
    ∷ ("ER_TABLE_HAS_NO_FT", 1764)
    ∷ ("ER_VARIABLE_NOT_SETTABLE_IN_SF_OR_TRIGGER", 1765)
    ∷ ("ER_VARIABLE_NOT_SETTABLE_IN_TRANSACTION", 1766)
    ∷ ("ER_GTID_NEXT_IS_NOT_IN_GTID_NEXT_LIST", 1767)
    ∷ ("ER_CANT_CHANGE_GTID_NEXT_IN_TRANSACTION_WHEN_GTID_NEXT_LIST_IS_NULL", 1768)
    ∷ ("ER_SET_STATEMENT_CANNOT_INVOKE_FUNCTION", 1769)
    ∷ ("ER_GTID_NEXT_CANT_BE_AUTOMATIC_IF_GTID_NEXT_LIST_IS_NON_NULL", 1770)
    ∷ ("ER_SKIPPING_LOGGED_TRANSACTION", 1771)
    ∷ ("ER_MALFORMED_GTID_SET_SPECIFICATION", 1772)
    ∷ ("ER_MALFORMED_GTID_SET_ENCODING", 1773)
    ∷ ("ER_MALFORMED_GTID_SPECIFICATION", 1774)
    ∷ ("ER_GNO_EXHAUSTED", 1775)
    ∷ ("ER_BAD_SLAVE_AUTO_POSITION", 1776)
    ∷ ("ER_AUTO_POSITION_REQUIRES_GTID_MODE_ON", 1777)
    ∷ ("ER_CANT_DO_IMPLICIT_COMMIT_IN_TRX_WHEN_GTID_NEXT_IS_SET", 1778)
    ∷ ("ER_GTID_MODE_2_OR_3_REQUIRES_DISABLE_GTID_UNSAFE_STATEMENTS_ON", 1779)
    ∷ ("ER_GTID_MODE_2_OR_3_REQUIRES_ENFORCE_GTID_CONSISTENCY_ON", 1779)
    ∷ ("ER_GTID_MODE_REQUIRES_BINLOG", 1780)
    ∷ ("ER_CANT_SET_GTID_NEXT_TO_GTID_WHEN_GTID_MODE_IS_OFF", 1781)
    ∷ ("ER_CANT_SET_GTID_NEXT_TO_ANONYMOUS_WHEN_GTID_MODE_IS_ON", 1782)
    ∷ ("ER_CANT_SET_GTID_NEXT_LIST_TO_NON_NULL_WHEN_GTID_MODE_IS_OFF", 1783)
    ∷ ("ER_FOUND_GTID_EVENT_WHEN_GTID_MODE_IS_OFF", 1784)
    ∷ ("ER_GTID_UNSAFE_NON_TRANSACTIONAL_TABLE", 1785)
    ∷ ("ER_GTID_UNSAFE_CREATE_SELECT", 1786)
    ∷ ("ER_GTID_UNSAFE_CREATE_DROP_TEMPORARY_TABLE_IN_TRANSACTION", 1787)
    ∷ ("ER_GTID_MODE_CAN_ONLY_CHANGE_ONE_STEP_AT_A_TIME", 1788)
    ∷ ("ER_MASTER_HAS_PURGED_REQUIRED_GTIDS", 1789)
    ∷ ("ER_CANT_SET_GTID_NEXT_WHEN_OWNING_GTID", 1790)
    ∷ ("ER_UNKNOWN_EXPLAIN_FORMAT", 1791)
    ∷ ("ER_CANT_EXECUTE_IN_READ_ONLY_TRANSACTION", 1792)
    ∷ ("ER_TOO_LONG_TABLE_PARTITION_COMMENT", 1793)
    ∷ ("ER_SLAVE_CONFIGURATION", 1794)
    ∷ ("ER_INNODB_FT_LIMIT", 1795)
    ∷ ("ER_INNODB_NO_FT_TEMP_TABLE", 1796)
    ∷ ("ER_INNODB_FT_WRONG_DOCID_COLUMN", 1797)
    ∷ ("ER_INNODB_FT_WRONG_DOCID_INDEX", 1798)
    ∷ ("ER_INNODB_ONLINE_LOG_TOO_BIG", 1799)
    ∷ []
