-- ===== src/Tests.antt =====
-- Concrete runs of the model, and its theorems at concrete inputs.
mod Toy
mod Detector
mod Stores
mod Requests
mod Middleware
mod Delivery
mod Devnet
mod Network
mod Reports
mod Events
