-- ===== src/Roles/Holders.antt =====
-- The count of active holders of `ADMIN.ROLES.OVERRIDE.GLOBAL`, and the id of that permission:
-- `_count_override_global_active_holders` and `_resolve_override_global_permission_id` of
-- src/admin_backend/repositories/roles.py.
use cortex_cm.Base.{
  ℕ, Bool, true, false, not, ◌&&◌, Option, none, some, List, ◌++◌, map, Text, codes, text_eq,
  length, any, find, select, ◌==◌,
}
use cortex_cm.Errors.{admin, server, internal_invariant_violation}
use cortex_cm.Models.Columns.{Uuid}
use cortex_cm.Models.Permissions.{Permission}
use cortex_cm.Models.Roles.{RolePermission}
use cortex_cm.Models.TenantUsers.{TenantUser, TenantUserStatus}
use cortex_cm.Models.PlatformUsers.{PlatformUser, PlatformUserStatus}
use cortex_cm.Models.Assignments.{PlatformUserRoleAssignment, TenantUserRoleAssignment}
use cortex_cm.Database.Tables.{Db}
use cortex_cm.Database.Session.{Session, admits}
use cortex_cm.Database.Txn.{Txn, gets, or_throw, ◌>>=◌}
use cortex_cm.Permission.Catalogue.{is_active}
use cortex_cm.Roles.Sets.{elem, distinct}

abbrev pub override_global_code : Text
override_global_code = codes "ADMIN.ROLES.OVERRIDE.GLOBAL"

abbrev pub is_override : Permission → Bool
is_override p = text_eq p.code override_global_code

abbrev id_of : Option Permission → Option Uuid
id_of none = none
id_of (some p) = some p.id

abbrev pub resolve_override_global_permission_id : Txn Uuid
resolve_override_global_permission_id = do
  row ← gets (λ db. id_of (find is_override db.permissions))
  or_throw row (admin (server internal_invariant_violation))

abbrev pub is_excluded : Option Uuid → Uuid → Bool
is_excluded none role_id = false
is_excluded (some e) role_id = role_id == e

-- A row that `override_role_ids` joins with the permission.
abbrev pub grants_override : Db → Option Uuid → RolePermission → Bool
grants_override db exclude rp =
    any (λ p. p.id == rp.permission_id && is_override p) db.permissions
    && not (is_excluded exclude rp.role_id)

abbrev pub override_role_ids : Db → Option Uuid → List Uuid
override_role_ids db exclude =
    map (λ (rp : RolePermission). rp.role_id)
      (select (grants_override db exclude) db.role_permissions)

abbrev pub is_active_platform_user : PlatformUserStatus → Bool
is_active_platform_user PlatformUserStatus.active = true
is_active_platform_user _ = false

abbrev pub is_active_tenant_user : TenantUserStatus → Bool
is_active_tenant_user TenantUserStatus.active = true
is_active_tenant_user _ = false

module _ (s : Session) where
  -- The two branches of the union; the tables of tenants' users are filtered by their policies.
  abbrev pub is_platform_holder : Db → List Uuid → PlatformUserRoleAssignment → Bool
  is_platform_holder db role_ids g =
      elem g.role_id role_ids
      && any (λ (u : PlatformUser). u.id == g.platform_user_id && is_active_platform_user u.status)
          db.platform_users
      && is_active g.status

  abbrev pub is_tenant_holder : Db → List Uuid → TenantUserRoleAssignment → Bool
  is_tenant_holder db role_ids g =
      admits s g.tenant_id
      && elem g.role_id role_ids
      && any
          (λ (u : TenantUser).
            admits s u.tenant_id && (u.id == g.tenant_user_id && is_active_tenant_user u.status))
          db.tenant_users
      && is_active g.status

  abbrev pub holders_through : Db → List Uuid → List Uuid
  holders_through db role_ids =
      map (λ (g : PlatformUserRoleAssignment). g.platform_user_id)
        (select (is_platform_holder db role_ids) db.platform_user_role_assignments)
      ++ map (λ (g : TenantUserRoleAssignment). g.tenant_user_id)
          (select (is_tenant_holder db role_ids) db.tenant_user_role_assignments)

  unfoldable pub count_override_global_active_holders : Option Uuid → Db → ℕ
  count_override_global_active_holders exclude db =
      length (distinct (holders_through db (override_role_ids db exclude)))
