-- ===== src/Protocol.antt =====
-- src/reliamesh/protocol.py: the event of schema 1.0, its canonical encoding and its hash.
pub mod Json
pub mod Event
pub mod Fields
pub mod Validation
