-- ===== src/Async.antt =====
-- aurora_data_api/async_driver.py: the asynchronous driver. A method that awaits is a method whose
-- calls of the client come one after the other; a task that is cancelled while it waits for the client
-- gets an exception from the call.
pub mod Lifecycle
pub mod Connection
pub mod Connect
pub mod Cursor
pub mod Adapted
