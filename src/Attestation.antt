-- ===== src/Attestation.antt =====
-- The commitments of src/reliamesh/solana_attest.py.
pub mod Base58
pub mod Base64
pub mod Values
pub mod Transaction
pub mod Canonical
pub mod Writes
pub mod Replies
pub mod Rpc
pub mod Receipt
pub mod Status
pub mod Finality
pub mod Steps
pub mod Guard
pub mod Finalized
pub mod Classified
pub mod Submitted
pub mod Report
pub mod Capacity
pub mod Totals
