-- ===== src/Storage/Firestore.antt =====
-- `FirestoreStore` of src/reliamesh/storage.py.
pub mod Documents
pub mod Methods
pub mod Credentials
