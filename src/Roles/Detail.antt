-- ===== src/Roles/Detail.antt =====
-- What is read of a role: `get_by_id`, `get_detail_by_id`, `_user_count_subquery` and
-- `_select_permissions_with_labels` of src/admin_backend/repositories/roles.py.
use cortex_cm.Base.{
  ℕ, Bool, true, false, not, ◌+◌, ◌&&◌, Option, none, some, List, map, Text, codes, length, any,
  find, select, ◌==◌,
}
use cortex_cm.Models.Columns.{Uuid}
use cortex_cm.Models.Permissions.{
  Permission, PermissionScope, global, PermissionResource, pricing_rules, markdowns, expiring_items,
  waste_log, donation_routing, campaigns, users, roles, audit_log, tenants, stores, org_nodes,
  PermissionAction, view, configure, execute, approve, override, audit,
}
use cortex_cm.Models.Roles.{Role, RolePermission, RoleAudience, platform, tenant}
use cortex_cm.Models.Assignments.{PlatformUserRoleAssignment, TenantUserRoleAssignment}
use cortex_cm.Database.Tables.{Db}
use cortex_cm.Database.Session.{Session, admits}
use cortex_cm.Permission.Catalogue.{is_active}
use cortex_cm.Permission.Scope.{value}
use cortex_cm.Modules.Rows.{module_value}

-- `PermissionResource.value` and `PermissionAction.value`
abbrev resource_value : PermissionResource → Text
resource_value pricing_rules = codes "PRICING_RULES"
resource_value markdowns = codes "MARKDOWNS"
resource_value expiring_items = codes "EXPIRING_ITEMS"
resource_value waste_log = codes "WASTE_LOG"
resource_value donation_routing = codes "DONATION_ROUTING"
resource_value campaigns = codes "CAMPAIGNS"
resource_value users = codes "USERS"
resource_value roles = codes "ROLES"
resource_value audit_log = codes "AUDIT_LOG"
resource_value tenants = codes "TENANTS"
resource_value stores = codes "STORES"
resource_value org_nodes = codes "ORG_NODES"

abbrev action_value : PermissionAction → Text
action_value view = codes "VIEW"
action_value configure = codes "CONFIGURE"
action_value execute = codes "EXECUTE"
action_value approve = codes "APPROVE"
action_value override = codes "OVERRIDE"
action_value audit = codes "AUDIT"

abbrev pub is_global : PermissionScope → Bool
is_global global = true
is_global _ = false

abbrev pub is_tenant_audience : RoleAudience → Bool
is_tenant_audience tenant = true
is_tenant_audience platform = false

-- A filter that is not given lets every audience pass.
abbrev pub is_audience : Option RoleAudience → RoleAudience → Bool
is_audience none a = true
is_audience (some tenant) a = is_tenant_audience a
is_audience (some platform) a = not (is_tenant_audience a)

abbrev user_count : Session → Db → Role → ℕ
user_count s db r =
    length (
      select (λ (g : PlatformUserRoleAssignment). g.role_id == r.id && is_active g.status)
        db.platform_user_role_assignments)
    + length (
        select
          (λ (g : TenantUserRoleAssignment).
            admits s g.tenant_id && (g.role_id == r.id && is_active g.status))
          db.tenant_user_role_assignments)

abbrev counted : Session → Db → Option Role → Option (Role × ℕ)
counted s db none = none
counted s db (some r) = some (r, user_count s db r)

abbrev pub is_role : Uuid → Option RoleAudience → Role → Bool
is_role role_id audience_filter r = r.id == role_id && is_audience audience_filter r.audience

abbrev pub get_by_id : Session → Uuid → Option RoleAudience → Db → Option (Role × ℕ)
get_by_id s role_id audience_filter db =
    counted s db (find (is_role role_id audience_filter) db.roles)

-- A permission with the labels of its module, resource, action and scope.
pub record LabelledPermission : Type 0 where
  pub permission : Permission
  pub module_label : Text
  pub resource_label : Text
  pub action_label : Text
  pub scope_label : Text

pub record RoleDetail : Type 0 where
  pub role : Role
  pub user_count : ℕ
  pub permissions : List LabelledPermission
  pub available_permissions : List LabelledPermission

-- Role and permission are the key of `role_permissions`: a join finds at most one row.
abbrev pub is_held : Uuid → Db → Permission → Bool
is_held role_id db p =
    any (λ (rp : RolePermission). rp.permission_id == p.id && rp.role_id == role_id)
      db.role_permissions

abbrev is_available : Uuid → Bool → Db → Permission → Bool
is_available role_id exclude_global db p =
    not (is_held role_id db p) && not (exclude_global && is_global p.scope)

abbrev coalesce : Option Text → Text → Text
coalesce none t = t
coalesce (some l) t = l

-- `display list_name code` is the display name in the lookups table, `order_by` the ORDER BY.
module _ (display : Text → Text → Option Text) (order_by : List Permission → List Permission) where
  abbrev with_labels : Permission → LabelledPermission
  with_labels p = record {
    permission = p;
    module_label =
        coalesce (display (codes "module_code") (module_value p.module_code))
          (module_value p.module_code);
    resource_label =
        coalesce (display (codes "resource") (resource_value p.resource))
          (resource_value p.resource);
    action_label =
        coalesce (display (codes "permission_action") (action_value p.action))
          (action_value p.action);
    scope_label = coalesce (display (codes "permission_scope") (value p.scope)) (value p.scope);
  }

  abbrev detail_of : Db → Option (Role × ℕ) → Option RoleDetail
  detail_of db none = none
  detail_of db (some (r, n)) = some (record {
    role = r;
    user_count = n;
    permissions = map with_labels (order_by (select (is_held r.id db) db.permissions));
    available_permissions =
        map with_labels
          (order_by (select (is_available r.id (is_tenant_audience r.audience) db) db.permissions));
  })

  abbrev pub get_detail_by_id : Session → Uuid → Option RoleAudience → Db → Option RoleDetail
  get_detail_by_id s role_id audience_filter db =
      detail_of db (get_by_id s role_id audience_filter db)
