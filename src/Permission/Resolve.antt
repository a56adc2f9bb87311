-- ===== src/Permission/Resolve.antt =====
-- `has_permission` of src/admin_backend/auth/permissions.py.
use cortex_cm.Base.{
  ◌≡◌, ◌↔◌, refl, sym, ◌∙◌, Bool, true, false, ◌&&◌, Option, none, some, ◌==◌, ==_iff, any,
  In_of_any, any_of_In, Text, and-split, and-join,
}
use cortex_cm.Models.Columns.{Uuid}
use cortex_cm.Models.TenantUsers.{ActorUserType, platform, tenant}
use cortex_cm.Models.Permissions.{Permission, PermissionResource, PermissionAction, PermissionScope}
use cortex_cm.Models.ModuleAccess.{ModuleCode}
use cortex_cm.Auth.Context.{AuthContext}
use cortex_cm.Database.Tables.{Db}
use cortex_cm.Database.Session.{Session}
use cortex_cm.OrgTree.Ltree.{is_contained}
use cortex_cm.Permission.Catalogue.{module_eq, resource_eq, action_eq, is_active, is_enabled}
use cortex_cm.Permission.Scope.{is_satisfied}
use cortex_cm.Permission.Join.{
  PlatformRow, platform_join, TenantRow, tenant_join, IsTenantRow, tenant_join_sound,
  tenant_join_complete,
}

-- The tuple that a caller asks for.
pub record Request : Type 0 where
  pub module_code : ModuleCode
  pub resource : PermissionResource
  pub action : PermissionAction
  pub scope : PermissionScope

-- `p.module = :module AND p.resource = :resource AND p.action = :action AND p.scope = ANY(...)`
unfoldable pub is_requested :
    Request → ModuleCode → PermissionResource → PermissionAction → PermissionScope → Bool
is_requested q m r a s =
    module_eq m q.module_code
    && (resource_eq r q.resource && (action_eq a q.action && is_satisfied s q.scope))

abbrev pub is_requested_by : Request → Permission → Bool
is_requested_by q p = is_requested q p.module_code p.resource p.action p.scope

-- `:target_anchor IS NULL OR :target_anchor <@ on_.path`
abbrev pub is_covered : Option Text → Text → Bool
is_covered none path = true
is_covered (some target) path = is_contained target path

pub data ReasonCode : Type 0 where
  grant_matched no_matching_grant_or_out_of_scope : ReasonCode

-- `_build_result` without the detail for the log.
abbrev pub build_result : Bool → Bool × ReasonCode
build_result true = (true, grant_matched)
build_result false = (false, no_matching_grant_or_out_of_scope)

abbrev pub platform_where : Uuid → PlatformRow → Bool
platform_where user r = r.pura.platform_user_id == user && is_active r.pura.status

abbrev pub tenant_where : Uuid → TenantRow → Bool
tenant_where user r =
    r.tura.tenant_user_id == user && (is_active r.tura.status && is_enabled r.tma.status)

unfoldable pub has_permission_platform : Db → Uuid → Request → Bool × ReasonCode
has_permission_platform db user q =
    build_result (any (λ r. platform_where user r && is_requested_by q r.p) (platform_join db))

unfoldable pub has_permission_tenant :
    Session → Db → Uuid → Request → Option Text → Bool × ReasonCode
has_permission_tenant s db user q target = build_result (
    any (λ r. tenant_where user r && (is_requested_by q r.p && is_covered target r.on_.path))
      (tenant_join s db))

abbrev pub by_audience {ℓ} : {A : Type ℓ} → ActorUserType → A → A → A
by_audience platform x y = x
by_audience tenant x y = y

unfoldable pub has_permission :
    Session → Db → AuthContext → Request → Option Text → Bool × ReasonCode
unfolding has_permission_platform has_permission_tenant
has_permission s db auth q target =
    by_audience auth.user_type (has_permission_platform db auth.user_id q)
      (has_permission_tenant s db auth.user_id q target)

pub build_result-true : (b : Bool) → (build_result b).0 ≡ b
build_result-true true = refl
build_result-true false = refl

-- What lets a tenant's user through: a row of the join that passes the WHERE clause.
pub record TenantGrant (s : Session) (db : Db) (user : Uuid) (q : Request) (target : Option Text)
    : Type 0 where
  pub row : TenantRow
  pub is_row : IsTenantRow s db row
  pub for_user : row.tura.tenant_user_id ≡ user
  pub assignment_active : is_active row.tura.status ≡ true
  pub module_enabled : is_enabled row.tma.status ≡ true
  pub requested : is_requested_by q row.p ≡ true
  pub covered : is_covered target row.on_.path ≡ true

passes_where : Uuid → Request → Option Text → TenantRow → Bool
passes_where user q target r =
    tenant_where user r && (is_requested_by q r.p && is_covered target r.on_.path)

passes_where_sound :
    (user : Uuid) (q : Request) (target : Option Text) (r : TenantRow)
    → passes_where user q target r ≡ true
    → (r.tura.tenant_user_id ≡ user)
      × (is_active r.tura.status ≡ true)
      × (is_enabled r.tma.status ≡ true)
      × (is_requested_by q r.p ≡ true)
      × (is_covered target r.on_.path ≡ true)
unfolding passes_where
passes_where_sound user q target r e =
    let (w, e') = and-split (tenant_where user r) _ e in
    let (u, w') = and-split (r.tura.tenant_user_id == user) _ w in
    let (a, m) = and-split (is_active r.tura.status) _ w' in
    let (x, y) = and-split (is_requested_by q r.p) _ e' in ((==_iff _ _).0 u, a, m, x, y)

-- A tenant's user is let through exactly if there are, all visible to the session: an active
-- assignment of the user, a permission of its role that the request asks for, the node of the
-- assignment with a path that covers the target, and an enabled entitlement of the assignment's
-- tenant to the permission's module.
pub has_permission_tenant_iff :
    (s : Session) (db : Db) (user : Uuid) (q : Request) (target : Option Text)
    → ((has_permission_tenant s db user q target).0 ≡ true) ↔ TenantGrant s db user q target
unfolding has_permission_tenant passes_where
has_permission_tenant_iff s db user q target = (
  λ e.
      let (r, i, w) =
        In_of_any (passes_where user q target) (tenant_join s db) (sym (build_result-true _) ∙ e) in
      let (u, a, m, x, y) = passes_where_sound user q target r w in
      record {
        row = r;
        is_row = tenant_join_sound s db r i;
        for_user = u;
        assignment_active = a;
        module_enabled = m;
        requested = x;
        covered = y;
      },
  λ g.
      build_result-true _
      ∙ any_of_In (passes_where user q target) (tenant_join_complete s db g.row g.is_row) (
          and-join
            (and-join ((==_iff _ _).1 g.for_user) (and-join g.assignment_active g.module_enabled))
            (and-join g.requested g.covered)),
)
