-- ===== src/Tenants.antt =====
-- Tenants: src/admin_backend/repositories/tenants.py.
pub mod Transition
pub mod Lifecycle
pub mod Slug
mod Tests
