-- ===== src/Permission/Cascade.antt =====
-- The two cascades of `has_permission` (src/admin_backend/auth/permissions.py): down the scopes,
-- and down the organisation tree.
use cortex_cm.Base.{
  ◌≡◌, refl, ◌∙◌, sym, true, ◌&&◌, ◌≤◌, Option, none, some, arith, Text, any-imp, and-split,
  and-join,
}
use cortex_cm.Models.TenantUsers.{ActorUserType, platform, tenant}
use cortex_cm.Models.Permissions.{PermissionScope, Permission}
use cortex_cm.Auth.Context.{AuthContext}
use cortex_cm.Database.Tables.{Db}
use cortex_cm.Database.Session.{Session}
use cortex_cm.OrgTree.Ltree.{labels, is_contained, is_prefix_trans}
use cortex_cm.Permission.Scope.{depth, is_satisfied-down}
use cortex_cm.Permission.Resolve.{
  Request, is_requested, is_requested_by, is_covered, has_permission, has_permission_platform,
  has_permission_tenant, platform_where, tenant_where, build_result-true, by_audience,
}
use cortex_cm.Permission.Join.{PlatformRow, TenantRow, platform_join, tenant_join}

-- The same tuple at another scope.
abbrev pub at_scope : Request → PermissionScope → Request
at_scope q s = record q { scope = s }

is_requested_by-down :
    (q : Request) (s : PermissionScope) (p : Permission)
    → depth q.scope ≤ depth s
    → is_requested_by q p ≡ true
    → is_requested_by (at_scope q s) p ≡ true
unfolding is_requested
is_requested_by-down q s p le e = ground (arith, is_satisfied-down p.scope q.scope s le)

-- A target that a check can move to: from any to none, and from a path to one that it contains.
abbrev pub IsBelow : Option Text → Option Text → Type 0
IsBelow none target = Unit
IsBelow (some b) none = ⊥
IsBelow (some b) (some t) = is_contained b t ≡ true

is_covered-below :
    (below target : Option Text) (path : Text)
    → IsBelow below target
    → is_covered target path ≡ true
    → is_covered below path ≡ true
unfolding is_contained
is_covered-below none target path b e = refl
is_covered-below (some x) none path b e = absurd b
is_covered-below (some x) (some t) path b e =
    is_prefix_trans (labels path) (labels t) (labels x) e b

-- Who may do something at a scope and a target may do it at every scope that is no higher, and at
-- every target path below it, or at no target in particular.
pub has_permission-down :
    (s : Session) (db : Db) (a : AuthContext) (q : Request) (target : Option Text)
    (scope : PermissionScope) (below : Option Text)
    → depth q.scope ≤ depth scope
    → IsBelow below target
    → (has_permission s db a q target).0 ≡ true
    → (has_permission s db a (at_scope q scope) below).0 ≡ true
unfolding has_permission has_permission_platform has_permission_tenant
has_permission-down s db a q target scope below le b e = go a.user_type e
  where
    go :
        (ty : ActorUserType)
        → (by_audience ty
            (has_permission_platform db a.user_id q)
            (has_permission_tenant s db a.user_id q target)).0
          ≡ true
        → (by_audience ty
            (has_permission_platform db a.user_id (at_scope q scope))
            (has_permission_tenant s db a.user_id (at_scope q scope) below)).0
          ≡ true
    go platform e' =
        build_result-true _
        ∙ any-imp (λ (r : PlatformRow). platform_where a.user_id r && is_requested_by q r.p)
            (λ r. platform_where a.user_id r && is_requested_by (at_scope q scope) r.p)
            (platform_join db)
            (λ r h.
              let (w, m) = and-split (platform_where a.user_id r) _ h in
              and-join w (is_requested_by-down q scope r.p le m))
            (sym (build_result-true _) ∙ e')
    go tenant e' =
        build_result-true _
        ∙ any-imp
            (λ (r : TenantRow).
              tenant_where a.user_id r && (is_requested_by q r.p && is_covered target r.on_.path))
            (λ r.
              tenant_where a.user_id r
              && (is_requested_by (at_scope q scope) r.p && is_covered below r.on_.path))
            (tenant_join s db)
            (λ r h.
              let (w, h') = and-split (tenant_where a.user_id r) _ h in
              let (m, c) = and-split (is_requested_by q r.p) _ h' in
              and-join w (
                and-join (is_requested_by-down q scope r.p le m)
                  (is_covered-below below target r.on_.path b c)))
            (sym (build_result-true _) ∙ e')
