-- ===== src/Stores.antt =====
-- Stores and their paired nodes: src/admin_backend/repositories/stores.py.
pub mod Transition
pub mod Lifecycle
pub mod Cascade
pub mod Invariant
pub mod Outcome
pub mod Create
pub mod Paired
pub mod Growth
pub mod Codes
mod Tests
mod CreateTests
