-- ===== src/Api.antt =====
-- src/reliamesh/api.py: the bound on bodies, the access rules and the endpoints over `SQLiteStore`.
pub mod Body
pub mod Middleware
pub mod Messages
pub mod Responses
pub mod Access
pub mod Endpoints
pub mod Quota
