-- ===== src/Sdk.antt =====
-- The client and the events of sdk/python/src/reliamesh_sdk.
pub mod Client
pub mod Batches
pub mod Accounts
pub mod Flushes
pub mod Fields
pub mod Events
pub mod Correspondence
pub mod Acceptance
pub mod Prepared
pub mod Attributes
pub mod Mapping
pub mod Agreement
