-- ===== src/Samples.antt =====
-- A small tenant for the tests: a root, a region and a store, a user with a role on the region.
use cortex_cm.Base.{Option, none, some, [], ◌∷◌, Text, codes}
use cortex_cm.Models.Columns.{Uuid}
use cortex_cm.Models.OrgNodes.{OrgNode, OrgNodeType, OrgNodeStatus}
use cortex_cm.Models.Tenants.{Tenant, TenantStatus, us}
use cortex_cm.Models.Stores.{Store, StoreStatus, TaxTreatment}
use cortex_cm.Models.TenantUsers.{tenant}
use cortex_cm.Models.Roles.{RolePermission}
use cortex_cm.Models.Permissions.{Permission, PermissionResource, PermissionAction, PermissionScope}
use cortex_cm.Models.ModuleAccess.{TenantModuleAccess, ModuleCode, ModuleAccessStatus}
use cortex_cm.Models.Assignments.{TenantUserRoleAssignment, UserRoleAssignmentStatus}
use cortex_cm.Auth.Context.{AuthContext, one}
use cortex_cm.Database.Tables.{Db, empty_db}
use cortex_cm.Permission.Resolve.{Request}

abbrev pub acme_tenant : Tenant
acme_tenant = record {
  id = 1;
  name = codes "Acme";
  display_code = none;
  country = none;
  region = us;
  tier = none;
  industry = none;
  monthly_revenue_usd = none;
  monthly_revenue_as_of_date = none;
  number_of_stores = none;
  number_of_stores_as_of_date = none;
  primary_contact_name = none;
  contact_email = none;
  status = TenantStatus.active;
  created_at = 0;
  created_by_user_id = none;
  updated_at = 0;
  updated_by_user_id = none;
  suspended_at = none;
  suspended_by_user_id = none;
  terminated_at = none;
  terminated_by_user_id = none;
}

abbrev pub node : Uuid → Option Uuid → OrgNodeType → Text → Text → OrgNode
node id parent type path code = record {
  id = id;
  tenant_id = 1;
  parent_id = parent;
  path = path;
  node_type = type;
  name = code;
  code = code;
  status = OrgNodeStatus.active;
  created_at = 0;
  created_by_user_id = none;
  created_by_user_type = none;
  updated_at = 0;
  updated_by_user_id = none;
  updated_by_user_type = none;
  archived_at = none;
  archived_by_user_id = none;
  archived_by_user_type = none;
}

abbrev pub root_node : OrgNode
root_node = node 10 none OrgNodeType.tenant (codes "acme") (codes "ACME")

abbrev pub east : OrgNode
east = node 11 (some 10) OrgNodeType.region (codes "acme.east") (codes "EAST")

abbrev pub corner : OrgNode
corner = node 12 (some 11) OrgNodeType.store (codes "acme.east.s_1") (codes "S-1")

abbrev pub corner_store : Store
corner_store = record {
  id = 20;
  tenant_id = 1;
  org_node_id = some 12;
  name = codes "Corner";
  store_code = some (codes "S-1");
  country = codes "US";
  timezone = codes "UTC";
  address = none;
  latitude = none;
  longitude = none;
  currency = codes "USD";
  tax_treatment = TaxTreatment.exclusive;
  status = StoreStatus.active;
  created_at = 0;
  created_by_user_id = none;
  created_by_user_type = none;
  updated_at = 0;
  updated_by_user_id = none;
  updated_by_user_type = none;
  closed_at = none;
  closed_by_user_id = none;
  closed_by_user_type = none;
}

abbrev pub view_stores : Permission
view_stores = record {
  id = 200;
  module_code = ModuleCode.admin;
  resource = PermissionResource.stores;
  action = PermissionAction.view;
  scope = PermissionScope.tenant;
  code = codes "admin.stores.view.tenant";
  description = none;
  created_at = 0;
  updated_at = 0;
}

abbrev pub link : RolePermission
link = record {
  role_id = 100;
  permission_id = 200;
  created_at = 0;
  created_by_user_id = none;
  created_by_user_type = none;
}

abbrev pub at_east : TenantUserRoleAssignment
at_east = record {
  id = 300;
  tenant_user_id = 7;
  tenant_id = 1;
  org_node_id = 11;
  role_id = 100;
  status = UserRoleAssignmentStatus.active;
  granted_at = 0;
  granted_by_user_id = none;
  granted_by_user_type = none;
  revoked_at = none;
  revoked_by_user_id = none;
  revoked_by_user_type = none;
  updated_at = 0;
}

abbrev pub entitlement : TenantModuleAccess
entitlement = record {
  id = 400;
  tenant_id = 1;
  module_code = ModuleCode.admin;
  status = ModuleAccessStatus.enabled;
  enabled_at = 0;
  enabled_by_user_id = 9;
  disabled_at = none;
  disabled_by_user_id = none;
  created_at = 0;
  created_by_user_id = 9;
  updated_at = 0;
  updated_by_user_id = 9;
}

abbrev pub acme : Db
acme = record empty_db {
  org_nodes = root_node ∷ east ∷ corner ∷ [];
  stores = corner_store ∷ [];
  role_permissions = link ∷ [];
  permissions = view_stores ∷ [];
  tenant_module_access = entitlement ∷ [];
  tenant_user_role_assignments = at_east ∷ [];
}

-- The user 7 of tenant 1.
abbrev pub member : AuthContext
member = record {
  sub = codes "auth0|7";
  iss = codes "https://issuer/";
  aud = one (codes "api");
  exp = 99;
  user_id = 7;
  tenant_id = some 1;
  user_type = tenant;
  email = codes "a@b.co";
}

-- `view` on stores at the level of one store.
abbrev pub view_store : Request
view_store = record {
  module_code = ModuleCode.admin;
  resource = PermissionResource.stores;
  action = PermissionAction.view;
  scope = PermissionScope.store;
}

abbrev pub view_tenant : Request
view_tenant = record view_store { scope = PermissionScope.tenant }
