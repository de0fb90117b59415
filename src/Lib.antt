-- ===== src/Lib.antt =====
-- aurora-data-api: a Python DB-API driver for the RDS Data API. A connection
-- (aurora_data_api/__init__.py, AuroraDataAPIClient) keeps a transaction and opens cursors
-- (AuroraDataAPICursor), which send statements through the boto3 client and hand out the rows of the
-- responses. The methods that a paused database may refuse are decorated with `retry_exceptions`
-- (aurora_data_api/retry.py). Errors of the client are translated to DB-API exceptions
-- (aurora_data_api/exceptions/), and values are converted on their way out and back
-- (aurora_data_api/type_conversion.py). The asynchronous driver (aurora_data_api/async_driver.py) has a
-- connection and a cursor of its own over an aioboto3 client, and synchronous faces of both for
-- SQLAlchemy.
--
-- The files:
--   Base: shared types. A text is the list of its code points (Base/Text). A method that mutates
--     objects and may raise is a function from the state to a result and the state it leaves, also
--     beside an exception (Base/Exec); Base/Keeps is about what such a method keeps.
--   Errors/Tables: MySQLErrorCodes and PostgreSQLErrorCodes. Errors/Classes: exception objects and
--     classes; a class object has the number of the call that made it. Errors/Enum: look-up in an
--     Enum. Errors/Factory: _DatabaseErrorFactory, its made classes as state. Errors/Pattern: the two
--     regular expressions as matchers. Errors/Translate: translate_database_error.
--   Retry: retry.py; the loop of the wrapper recurs on the delays that are left.
--   Value, Convert: the values of Python, and type_conversion.py (build_description in Convert/Columns,
--     _prepare_param and format_parameters in Convert/Params, convert_value in Convert).
--   Platform: the boto3 client, time.sleep and the random names, as parameters over a state of the
--     outside world. Env: the attributes of a connection and a cursor, the factories and that state.
--   Connect: connect, the constructor of the connection and _region_from_arn.
--   Connection: start_transaction, commit, rollback, __exit__, _prepare_execute_args.
--   Statements: the SQL texts of the cursor, and _render_response.
--   Cursor: the buffer, scroll and _fetch_next_page_into_buffer. Cursor/Fetch: fetchone, fetchmany,
--     fetchall and __iter__. Cursor/Execute: execute and _start_paginated_query. Cursor/Batch:
--     _page_input and executemany. Cursor/Report: rowcount, lastrowid, close and cursor(). Cursor/Frame:
--     the invariant of a cursor and what its methods leave alone.
--   Source: what the fetch methods promise for any sequence of calls, as a record of laws over a cursor
--     and its abstract value, the rows that are left. Cursor/Fetch/Stream fills it from fetchone alone,
--     and Async/Adapted/Drained for a drained face. Cursor/Fetch/Server: a server with cursors over one
--     result, as a record of laws about the calls of DECLARE, FETCH and MOVE that return, and about a
--     FETCH that is refused for its size; Tests/Servers has one that runs. Cursor/Execute/Paged: execute
--     against such a server. Cursor/Execute/Terminated: where the refusal has cost the transaction.
--   Async/Lifecycle: connect and close of AsyncAuroraDataAPIClient, and what the driver calls besides
--     the client. Async/Connection: its transactions, __aexit__ and _prepare_execute_args.
--     Async/Connect: connect and _region_from_arn of async_driver.py. Async/Cursor: the buffer and the
--     page loop of AsyncAuroraDataAPICursor; Async/Cursor/Fetch, Execute, Batch and Report as for the
--     synchronous cursor; Async/Cursor/Same: where both agree. Async/Adapted: SyncAdaptedConnection and
--     SyncAdaptedCursor.
--   Tests: the theorems at concrete inputs, and the clients and the library they run with.
--
-- Fuel: the loop of _fetch_next_page_into_buffer gets one round more than the page size, which is
-- enough since a round that goes on has halved a page size above one. The loop of fetchall gets a
-- number of rounds from its caller, since a server may have rows without end, and so does the loop of
-- _async_soft_close. The batches of _page_input get the number of items, since each batch takes at
-- least one.
--
-- Bounds: numbers are unbounded, as in Python. fetchmany takes a size that is not negative; a
-- negative size gives no rows in the cursors of the source, as zero does, and counts from the end of
-- the drained rows of SyncAdaptedCursor. The texts that are compared in upper or
-- lower case, and the digits and word characters of the patterns, are those of ASCII. The parameters
-- of executemany are a sequence that can be read again.
--
-- A task of the asynchronous driver runs alone on its connection. It can be cancelled where the driver
-- provides for it, in the shielded wait of rollback; whether it is, and what has become of the request
-- by then, is a parameter (Async.Lifecycle.Loop): the request may have landed, or not, when the event
-- loop is torn down.
--
-- Not modelled: logging, locks, cancellation at other waits, an aioboto3 client that the caller brings,
-- and object identity beyond that of the made classes. Of the standard library, str, Decimal,
-- fromisoformat and strptime are parameters (Value.Stdlib); the round trip of values assumes that they
-- read back their own texts (Value.ReadsBack).
--
-- A result that holds only where the server of a paged cursor answers says so. On a FETCH that is
-- refused for its size the server either has deleted the cursor with its transaction, as the reason for
-- skipping test_pagination_backoff in test/test.py says of the API, or keeps it moved by the size of the
-- page (Cursor.Fetch.Server.Serves): the driver moves back by that size, which would be too far after a
-- page that the end of the rows has cut short.
pub mod Base
pub mod Errors
pub mod Retry
pub mod Value
pub mod Convert
pub mod Platform
pub mod Env
pub mod Connection
pub mod Connect
pub mod Statements
pub mod Source
pub mod Cursor
pub mod Async
pub mod Tests
