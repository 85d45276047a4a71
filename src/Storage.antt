-- ===== src/Storage.antt =====
-- src/reliamesh/storage.py: the tenant store, its SQLite adapter and its Firestore adapter.
pub mod Common
pub mod Sqlite
pub mod Firestore
