-- ===== src/Users/Detail.antt =====
-- What is read of a tenant's user: `get_by_id` and `_roles_subq` of
-- src/admin_backend/repositories/tenant_users.py.
use cortex_cm.Base.{
  Bool, ◌&&◌, ◌||◌, Option, none, some, List, [], ◌∷◌, Text, ltb, leb, find, ◌==◌, if◌then◌else◌,
  join_on,
}
use cortex_cm.Models.Columns.{Uuid, Timestamp}
use cortex_cm.Models.OrgNodes.{OrgNode}
use cortex_cm.Models.Roles.{Role}
use cortex_cm.Models.TenantUsers.{TenantUser}
use cortex_cm.Models.Assignments.{TenantUserRoleAssignment, UserRoleAssignmentStatus}
use cortex_cm.Database.Tables.{Db}
use cortex_cm.Database.Session.{Session, admits}
use cortex_cm.Database.Txn.{Txn, gets}

-- The 8 fields of one item of the aggregate.
pub record RoleItem : Type 0 where
  pub assignment_id : Uuid
  pub role_id : Uuid
  pub role_name : Text
  pub role_code : Text
  pub status : UserRoleAssignmentStatus
  pub granted_at : Timestamp
  pub org_node_id : Uuid
  pub org_node_name : Text

pub record TenantUserDetailRow : Type 0 where
  pub user : TenantUser
  pub roles : List RoleItem

-- `ORDER BY granted_at DESC, id ASC`
abbrev is_first : TenantUserRoleAssignment → TenantUserRoleAssignment → Bool
is_first g h = ltb h.granted_at g.granted_at || (g.granted_at == h.granted_at && leb g.id h.id)

abbrev insert_grant :
    TenantUserRoleAssignment → List TenantUserRoleAssignment → List TenantUserRoleAssignment
insert_grant g [] = g ∷ []
insert_grant g (h ∷ rows) =
    let rest = insert_grant g rows in if is_first g h then g ∷ h ∷ rows else h ∷ rest

abbrev by_time : List TenantUserRoleAssignment → List TenantUserRoleAssignment
by_time [] = []
by_time (g ∷ rows) = insert_grant g (by_time rows)

abbrev item_of : TenantUserRoleAssignment → Role → OrgNode → RoleItem
item_of g r n = record {
  assignment_id = g.id;
  role_id = r.id;
  role_name = r.name;
  role_code = r.code;
  status = g.status;
  granted_at = g.granted_at;
  org_node_id = n.id;
  org_node_name = n.name;
}

abbrev pub is_user : Session → Uuid → TenantUser → Bool
is_user s user_id u = admits s u.tenant_id && u.id == user_id

module _ (s : Session) where
  abbrev node_on : TenantUserRoleAssignment → OrgNode → Bool
  node_on g n = admits s n.tenant_id && (n.tenant_id == g.tenant_id && n.id == g.org_node_id)

  abbrev grant_on : TenantUser → TenantUserRoleAssignment → Bool
  grant_on u g = admits s g.tenant_id && (g.tenant_id == u.tenant_id && g.tenant_user_id == u.id)

  abbrev items_of : Db → TenantUserRoleAssignment → List RoleItem
  items_of db g =
      join_on (λ (r : Role). r.id == g.role_id) db.roles
        (λ r. join_on (node_on g) db.org_nodes (λ n. item_of g r n ∷ []))

  abbrev roles_of : Db → TenantUser → List RoleItem
  roles_of db u = join_on (grant_on u) (by_time db.tenant_user_role_assignments) (items_of db)

  abbrev pub detail_of : Db → Option TenantUser → Option TenantUserDetailRow
  detail_of db none = none
  detail_of db (some u) = some (record { user = u; roles = roles_of db u })

  abbrev pub get_by_id : Uuid → Txn (Option TenantUserDetailRow)
  get_by_id user_id = gets (λ db. detail_of db (find (is_user s user_id) db.tenant_users))
