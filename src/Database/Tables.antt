-- ===== src/Database/Tables.antt =====
-- The tables as lists of rows. `next_id` numbers the ids that the `uuidv7()` defaults give out, and
-- `now` is the time of the transaction.
use cortex_cm.Base.{List, []}
use cortex_cm.Models.Columns.{Uuid, Timestamp}
use cortex_cm.Models.Tenants.{Tenant}
use cortex_cm.Models.Stores.{Store}
use cortex_cm.Models.OrgNodes.{OrgNode}
use cortex_cm.Models.TenantUsers.{TenantUser}
use cortex_cm.Models.PlatformUsers.{PlatformUser}
use cortex_cm.Models.Roles.{Role, RolePermission}
use cortex_cm.Models.Permissions.{Permission}
use cortex_cm.Models.ModuleAccess.{TenantModuleAccess}
use cortex_cm.Models.Assignments.{PlatformUserRoleAssignment, TenantUserRoleAssignment}
use cortex_cm.Models.AuditLogs.{TenantActivityAuditLog, PlatformActivityAuditLog}

pub record Db : Type 0 where
  pub tenants : List Tenant
  pub stores : List Store
  pub org_nodes : List OrgNode
  pub tenant_users : List TenantUser
  pub platform_users : List PlatformUser
  pub roles : List Role
  pub role_permissions : List RolePermission
  pub permissions : List Permission
  pub tenant_module_access : List TenantModuleAccess
  pub platform_user_role_assignments : List PlatformUserRoleAssignment
  pub tenant_user_role_assignments : List TenantUserRoleAssignment
  pub tenant_activity_audit_logs : List TenantActivityAuditLog
  pub platform_activity_audit_logs : List PlatformActivityAuditLog
  pub next_id : Uuid
  pub now : Timestamp

abbrev pub empty_db : Db
empty_db = record {
  tenants = [];
  stores = [];
  org_nodes = [];
  tenant_users = [];
  platform_users = [];
  roles = [];
  role_permissions = [];
  permissions = [];
  tenant_module_access = [];
  platform_user_role_assignments = [];
  tenant_user_role_assignments = [];
  tenant_activity_audit_logs = [];
  platform_activity_audit_logs = [];
  next_id = 1000;
  now = 0;
}
