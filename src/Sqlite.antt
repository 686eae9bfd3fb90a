-- ===== src/Sqlite.antt =====
-- src/sqlite/repository.rs: the accounts part of the SQLite repository, one function for each
-- method, over a database of tables. A transaction runs alone, as SQLite runs its writers.
pub mod Query
pub mod Tables
pub mod Claims
pub mod Registration
pub mod Transfer
pub mod Mode
pub mod Blink
pub mod Recipient
pub mod Integrity
pub mod History
pub mod Tests
