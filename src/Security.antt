-- ===== src/Security.antt =====
-- The limiter of src/reliamesh/security.py.
pub mod Limiter
pub mod Bounds
