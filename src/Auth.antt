-- ===== src/Auth.antt =====
-- Who calls: src/admin_backend/auth (context, claims, the two verifiers) and
-- src/admin_backend/middleware/auth.py.
pub mod Email
pub mod Context
pub mod Claims
pub mod Verify
pub mod Middleware
mod Tests
