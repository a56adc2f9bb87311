-- ===== src/Models.antt =====
-- The rows of the tables, one record for each class of src/admin_backend/models.
pub mod Columns
pub mod Tenants
pub mod Stores
pub mod Checks
pub mod OrgNodes
pub mod TenantUsers
pub mod Roles
pub mod Permissions
pub mod ModuleAccess
pub mod Assignments
pub mod PlatformUsers
pub mod AuditLogs
