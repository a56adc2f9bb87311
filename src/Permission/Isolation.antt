-- ===== src/Permission/Isolation.antt =====
-- `has_permission` (src/admin_backend/auth/permissions.py) under the policies that the session of
-- src/admin_backend/db/session.py is subject to: tenants, and the table of roles.
use cortex_cm.Base.{◌≡◌, refl, true, Option, some, List, Text, arith}
use cortex_cm.Models.TenantUsers.{tenant}
use cortex_cm.Models.Roles.{Role}
use cortex_cm.Auth.Context.{AuthContext, is_valid_context}
use cortex_cm.Database.Tables.{Db}
use cortex_cm.Database.Session.{session_of, admits_tenant}
use cortex_cm.Permission.Join.{platform_join, tenant_join}
use cortex_cm.Permission.Resolve.{
  Request, TenantGrant, has_permission, has_permission_tenant, has_permission_tenant_iff,
}

-- A valid caller of a tenant is let through only by a grant whose assignment, node and entitlement
-- all belong to that tenant.
pub has_permission_own_tenant :
    (db : Db) (a : AuthContext) (q : Request) (target : Option Text)
    → is_valid_context a ≡ true
    → a.user_type ≡ tenant
    → (has_permission (session_of a) db a q target).0 ≡ true
    → (g : TenantGrant (session_of a) db a.user_id q target) × (a.tenant_id
        ≡ some g.row.tura.tenant_id)
      × (a.tenant_id ≡ some g.row.on_.tenant_id)
      × (a.tenant_id ≡ some g.row.tma.tenant_id)
unfolding has_permission
has_permission_own_tenant db a q target v ty e =
    let e' : (has_permission_tenant (session_of a) db a.user_id q target).0 ≡ true = ground arith in
    let g = (has_permission_tenant_iff (session_of a) db a.user_id q target).0 e' in
    (
      g,
      admits_tenant a g.row.tura.tenant_id v ty g.is_row.sees_assignment,
      admits_tenant a g.row.on_.tenant_id v ty g.is_row.sees_node,
      admits_tenant a g.row.tma.tenant_id v ty g.is_row.sees_entitlement,
    )

-- The verdict stays the same whatever the table of roles is replaced by.
pub has_permission-roles :
    (db : Db) (a : AuthContext) (q : Request) (target : Option Text) (rs : List Role)
    → has_permission (session_of a) (record db { roles = rs }) a q target
      ≡ has_permission (session_of a) db a q target
unfolding has_permission platform_join tenant_join
has_permission-roles db a q target rs = refl
