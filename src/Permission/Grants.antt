-- ===== src/Permission/Grants.antt =====
-- `get_permissions_for_user` of src/admin_backend/auth/permissions.py beside the gate's query.
use cortex_cm.Base.{
  ◌≡◌, ◌∙◌, sym, Bool, true, ◌&&◌, Option, none, some, List, map, Text, any, select, arith, any-map,
  any-select,
}
use mathlib.Core.Path.{fun_ext, ap}
use cortex_cm.Models.Columns.{Uuid}
use cortex_cm.Models.TenantUsers.{ActorUserType, platform, tenant}
use cortex_cm.Models.Permissions.{PermissionResource, PermissionAction, PermissionScope}
use cortex_cm.Models.ModuleAccess.{ModuleCode}
use cortex_cm.Auth.Context.{AuthContext}
use cortex_cm.Database.Tables.{Db}
use cortex_cm.Database.Session.{Session}
use cortex_cm.Permission.Resolve.{
  Request, is_requested, is_covered, has_permission, has_permission_platform, has_permission_tenant,
  platform_where, tenant_where, build_result-true, by_audience,
}
use cortex_cm.Permission.Join.{PlatformRow, TenantRow, platform_join, tenant_join}

pub record PermissionGrant : Type 0 where
  pub module_code : ModuleCode
  pub resource : PermissionResource
  pub action : PermissionAction
  pub scope : PermissionScope
  pub anchor_path : Option Text

abbrev platform_grant : PlatformRow → PermissionGrant
platform_grant r = record {
  module_code = r.p.module_code;
  resource = r.p.resource;
  action = r.p.action;
  scope = r.p.scope;
  anchor_path = none;
}

abbrev tenant_grant : TenantRow → PermissionGrant
tenant_grant r = record {
  module_code = r.p.module_code;
  resource = r.p.resource;
  action = r.p.action;
  scope = r.p.scope;
  anchor_path = some r.on_.path;
}

unfoldable pub get_permissions_platform : Db → Uuid → List PermissionGrant
get_permissions_platform db user =
    map platform_grant (select (platform_where user) (platform_join db))

unfoldable pub get_permissions_tenant : Session → Db → Uuid → List PermissionGrant
get_permissions_tenant s db user = map tenant_grant (select (tenant_where user) (tenant_join s db))

unfoldable pub get_permissions_for_user : Session → Db → AuthContext → List PermissionGrant
unfolding get_permissions_platform get_permissions_tenant
get_permissions_for_user s db auth =
    by_audience auth.user_type (get_permissions_platform db auth.user_id)
      (get_permissions_tenant s db auth.user_id)

-- A grant without an anchor reaches everywhere.
abbrev reaches : Option Text → Option Text → Bool
reaches target none = true
reaches target (some path) = is_covered target path

-- The grant lets the request through.
abbrev pub allows : Request → Option Text → PermissionGrant → Bool
allows q target g =
    is_requested q g.module_code g.resource g.action g.scope && reaches target g.anchor_path

-- `has_permission` answers that one of the grants that `get_permissions_for_user` lists allows the
-- request: its tuple fits, and its anchor, where it has one, covers the target.
pub has_permission-grants :
    (s : Session) (db : Db) (a : AuthContext) (q : Request) (target : Option Text)
    → (has_permission s db a q target).0 ≡ any (allows q target) (get_permissions_for_user s db a)
unfolding has_permission get_permissions_for_user has_permission_platform has_permission_tenant
has_permission-grants s db a q target = go a.user_type
  where
    go :
        (ty : ActorUserType)
        → (by_audience ty
            (has_permission_platform db a.user_id q)
            (has_permission_tenant s db a.user_id q target)).0
          ≡ any (allows q target) (
              by_audience ty
                (get_permissions_platform db a.user_id)
                (get_permissions_tenant s db a.user_id))
    go platform =
        build_result-true _
        ∙ ap (λ (f : PlatformRow → Bool). any f (platform_join db)) (fun_ext λ r. ground arith)
        ∙ sym (
            any-select (platform_where a.user_id) (λ r. allows q target (platform_grant r))
              (platform_join db))
        ∙ sym (
            any-map (allows q target) platform_grant
              (select (platform_where a.user_id) (platform_join db)))
    go tenant =
        build_result-true _
        ∙ sym (
            any-select (tenant_where a.user_id) (λ r. allows q target (tenant_grant r))
              (tenant_join s db))
        ∙ sym (
            any-map (allows q target) tenant_grant
              (select (tenant_where a.user_id) (tenant_join s db)))
