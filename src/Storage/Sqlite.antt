-- ===== src/Storage/Sqlite.antt =====
-- `SQLiteStore` of src/reliamesh/storage.py: the tables, the transactions and the methods.
pub mod Tables
pub mod Methods
pub mod Rollback
pub mod Credentials
pub mod Additions
pub mod Isolation
pub mod States
pub mod Invariant
