-- ===== src/Permission.antt =====
-- Who may do what: src/admin_backend/auth/permissions.py, permission_grant.py, reason_code.py and
-- anchor_deps.py.
pub mod Catalogue
pub mod Scope
pub mod Join
pub mod Resolve
pub mod Isolation
pub mod Cascade
pub mod Grants
pub mod Anchors
pub mod Gate
mod Tests
