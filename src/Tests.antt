-- ===== src/Tests.antt =====
-- Concrete runs: each theorem of the library at an input that exercises the code.
mod Clients
mod Library
mod Errors
mod Messages
mod Retries
mod Transactions
mod Cursors
mod Conversion
mod Connecting
mod AsyncDriver
mod Servers
mod Paging
