-- ===== src/Users.antt =====
-- The repository of tenants' users (src/admin_backend/repositories/tenant_users.py).
pub mod Pairs
pub mod Detail
pub mod Validate
pub mod Diff
pub mod Report
pub mod Create
pub mod Update
pub mod Transition
pub mod Accept
pub mod Revoked
pub mod Inserted
pub mod Reconciled
pub mod Tenancy
pub mod Conflict
pub mod Checks
pub mod Editing
pub mod Effect
pub mod Alone
pub mod Lifecycle
pub mod Creation
pub mod Acceptance
pub mod Accepted
pub mod Invariant
pub mod Emails
pub mod Reachable
mod Tests
