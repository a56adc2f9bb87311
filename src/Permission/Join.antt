-- ===== src/Permission/Join.antt =====
-- The FROM and JOIN clauses of the permission queries (src/admin_backend/auth/permissions.py),
-- under row-level security, and what a joined row stands for.
use cortex_cm.Base.{
  ◌≡◌, Bool, true, ◌&&◌, List, [], ◌∷◌, ◌==◌, ==_iff, collect, In, here, join_on, In-join_on,
  join_on-In, In-one, and-split, and-join,
}
use cortex_cm.Models.Columns.{Uuid}
use cortex_cm.Models.OrgNodes.{OrgNode}
use cortex_cm.Models.Roles.{RolePermission}
use cortex_cm.Models.Permissions.{Permission}
use cortex_cm.Models.ModuleAccess.{TenantModuleAccess}
use cortex_cm.Models.Assignments.{PlatformUserRoleAssignment, TenantUserRoleAssignment}
use cortex_cm.Database.Tables.{Db}
use cortex_cm.Database.Session.{Session, admits}
use cortex_cm.Permission.Catalogue.{module_eq}

-- `pura JOIN rp ON rp.role_id = pura.role_id JOIN p ON p.id = rp.permission_id`
pub record PlatformRow : Type 0 where
  pub pura : PlatformUserRoleAssignment
  pub p : Permission

pub record TenantRow : Type 0 where
  pub tura : TenantUserRoleAssignment
  pub p : Permission
  pub on_ : OrgNode
  pub tma : TenantModuleAccess

-- The tables of the platform's query have no policy.
module _ (db : Db) where
  abbrev permissions_of : {B : Type 0} → Uuid → (Permission → List B) → List B
  permissions_of role f =
      join_on (λ rp. rp.role_id == role) db.role_permissions
        (λ rp. join_on (λ p. p.id == rp.permission_id) db.permissions f)

  unfoldable pub platform_join : List PlatformRow
  platform_join =
      collect
        (λ (a : PlatformUserRoleAssignment).
          permissions_of a.role_id (λ p. record { pura = a; p = p } ∷ []))
        db.platform_user_role_assignments

-- Assignments, nodes and entitlements are read under their policies.
module _ (s : Session) (db : Db) where
  abbrev entitlement_on : TenantUserRoleAssignment → Permission → TenantModuleAccess → Bool
  entitlement_on a p m =
      admits s m.tenant_id && (m.tenant_id == a.tenant_id && module_eq m.module_code p.module_code)

  abbrev node_on : TenantUserRoleAssignment → OrgNode → Bool
  node_on a n = admits s n.tenant_id && (n.tenant_id == a.tenant_id && n.id == a.org_node_id)

  abbrev as_row :
      TenantUserRoleAssignment → Permission → OrgNode → TenantModuleAccess → List TenantRow
  as_row a p n m = record { tura = a; p = p; on_ = n; tma = m } ∷ []

  abbrev with_entitlement : TenantUserRoleAssignment → Permission → OrgNode → List TenantRow
  with_entitlement a p n = join_on (entitlement_on a p) db.tenant_module_access (as_row a p n)

  abbrev with_node : TenantUserRoleAssignment → Permission → List TenantRow
  with_node a p = join_on (node_on a) db.org_nodes (with_entitlement a p)

  unfoldable pub tenant_join : List TenantRow
  tenant_join =
      join_on (λ a. admits s a.tenant_id) db.tenant_user_role_assignments
        (λ a. permissions_of db a.role_id (with_node a))

-- What is true of a row of the tenant query: where its parts are, and how they hang together.
pub record IsTenantRow (s : Session) (db : Db) (r : TenantRow) : Type 0 where
  pub rp : RolePermission
  pub has_assignment : In r.tura db.tenant_user_role_assignments
  pub has_link : In rp db.role_permissions
  pub has_permission : In r.p db.permissions
  pub has_node : In r.on_ db.org_nodes
  pub has_entitlement : In r.tma db.tenant_module_access
  pub sees_assignment : admits s r.tura.tenant_id ≡ true
  pub sees_node : admits s r.on_.tenant_id ≡ true
  pub sees_entitlement : admits s r.tma.tenant_id ≡ true
  pub same_role : rp.role_id ≡ r.tura.role_id
  pub same_permission : r.p.id ≡ rp.permission_id
  pub same_node : r.on_.id ≡ r.tura.org_node_id
  pub node_tenant : r.on_.tenant_id ≡ r.tura.tenant_id
  pub entitlement_tenant : r.tma.tenant_id ≡ r.tura.tenant_id
  pub same_module : module_eq r.tma.module_code r.p.module_code ≡ true

In-permissions_of :
    {B : Type 0} (db : Db) (role : Uuid) (f : Permission → List B) {y : B}
    → In y (permissions_of db role f)
    → (rp : RolePermission) × (p : Permission) × In rp db.role_permissions
      × In p db.permissions
      × (rp.role_id ≡ role)
      × (p.id ≡ rp.permission_id)
      × In y (f p)
In-permissions_of db role f i =
    let (rp, irp, e, i1) = In-join_on _ db.role_permissions _ i in
    let (p, ip, e', i2) = In-join_on _ db.permissions f i1 in
    (rp, p, irp, ip, (==_iff _ _).0 e, (==_iff _ _).0 e', i2)

pub tenant_join_sound :
    (s : Session) (db : Db) (r : TenantRow) → In r (tenant_join s db) → IsTenantRow s db r
unfolding tenant_join
tenant_join_sound s db r i =
    let (a, ia, sa, i1) = In-join_on _ db.tenant_user_role_assignments _ i in
    let (rp, p, irp, ip, er, ep, i2) = In-permissions_of db a.role_id (with_node s db a) i1 in
    let (n, ino, on, i3) =
      In-join_on (node_on s db a) db.org_nodes (with_entitlement s db a p) i2 in
    let (m, im, om, i4) =
      In-join_on (entitlement_on s db a p) db.tenant_module_access (as_row s db a p n) i3 in
    let e : r ≡ record { tura = a; p = p; on_ = n; tma = m } = In-one i4 in
    let (sn, on') = and-split (admits s n.tenant_id) _ on in
    let (nt, nid) = and-split (n.tenant_id == a.tenant_id) _ on' in
    let (sm, om') = and-split (admits s m.tenant_id) _ om in
    let (mt, mm) = and-split (m.tenant_id == a.tenant_id) _ om' in
    rw e (record {
      rp = rp;
      has_assignment = ia;
      has_link = irp;
      has_permission = ip;
      has_node = ino;
      has_entitlement = im;
      sees_assignment = sa;
      sees_node = sn;
      sees_entitlement = sm;
      same_role = er;
      same_permission = ep;
      same_node = (==_iff _ _).0 nid;
      node_tenant = (==_iff _ _).0 nt;
      entitlement_tenant = (==_iff _ _).0 mt;
      same_module = mm;
    })

pub tenant_join_complete :
    (s : Session) (db : Db) (r : TenantRow) → IsTenantRow s db r → In r (tenant_join s db)
unfolding tenant_join
tenant_join_complete s db r v =
    join_on-In (λ a. admits s a.tenant_id) (λ a. permissions_of db a.role_id (with_node s db a))
      v.has_assignment v.sees_assignment
      (join_on-In (λ rp. rp.role_id == r.tura.role_id) _ v.has_link ((==_iff _ _).1 v.same_role)
        (join_on-In (λ p. p.id == v.rp.permission_id) (with_node s db r.tura) v.has_permission
          ((==_iff _ _).1 v.same_permission)
          (join_on-In (node_on s db r.tura) (with_entitlement s db r.tura r.p) v.has_node
            (and-join v.sees_node
              (and-join ((==_iff _ _).1 v.node_tenant) ((==_iff _ _).1 v.same_node)))
            (join_on-In (entitlement_on s db r.tura r.p) (as_row s db r.tura r.p r.on_)
              v.has_entitlement
              (and-join v.sees_entitlement
                (and-join ((==_iff _ _).1 v.entitlement_tenant) v.same_module))
              here))))
