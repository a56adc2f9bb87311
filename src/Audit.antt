-- ===== src/Audit.antt =====
-- The audit trail: src/admin_backend/audit/emit.py, and its listing,
-- src/admin_backend/repositories/audit_logs.py.
pub mod Labels
pub mod Details
pub mod Emit
pub mod Keeps
pub mod Cursor
pub mod Activities
pub mod Keyset
pub mod Listing
pub mod Paging
pub mod Audience
mod Tests
mod ListingTests
