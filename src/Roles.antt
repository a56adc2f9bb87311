-- ===== src/Roles.antt =====
-- Roles and what they grant: src/admin_backend/repositories/roles.py.
pub mod Sets
pub mod Holders
pub mod Detail
pub mod Update
pub mod Editing
pub mod Counting
pub mod Bootstrap
pub mod Refusals
pub mod LastCheck
pub mod LastHolder
pub mod Tripwire
pub mod Grants
pub mod Invariant
mod Tests
