-- ===== src/Users/Diff.antt =====
-- The reconciliation of the roles of a tenant's user: `_apply_role_assignments_diff` and
-- `_select_current_active_assignments_for_update` of
-- src/admin_backend/repositories/tenant_users.py, with the constraints of the table
-- (migrations/versions/3e05299cb533*).
use cortex_cm.Base.{
  suc, Bool, not, ◌&&◌, ◌||◌, none, some, List, [], ◌∷◌, map, any, select, update_where, ◌==◌,
}
use cortex_cm.Errors.{client_error, uncaught, role_assignment_conflict}
use cortex_cm.Models.Columns.{Uuid}
use cortex_cm.Models.TenantUsers.{TenantUser, ActorUserType}
use cortex_cm.Models.OrgNodes.{OrgNode}
use cortex_cm.Models.Assignments.{TenantUserRoleAssignment, UserRoleAssignmentStatus}
use cortex_cm.Database.Tables.{Db}
use cortex_cm.Database.Session.{Session, admits}
use cortex_cm.Database.Txn.{Txn, pure, gets, modify, throw_if, ◌>>=◌, ◌>>◌}
use cortex_cm.Permission.Catalogue.{is_active}
use cortex_cm.Users.Pairs.{RoleAssignmentTuple, is_same, set_of, difference}
use cortex_cm.Users.Validate.{is_tenant_role}

abbrev pub pair_of : TenantUserRoleAssignment → RoleAssignmentTuple
pair_of g = record { role_id = g.role_id; org_node_id = g.org_node_id }

-- `uq_tenant_user_role_assignments_active`
abbrev pub is_duplicate : Uuid → RoleAssignmentTuple → TenantUserRoleAssignment → Bool
is_duplicate user_id a g =
    g.tenant_user_id == user_id && (is_same (pair_of g) a && is_active g.status)

abbrev pub set_revoked :
    Uuid → ActorUserType → Db → TenantUserRoleAssignment → TenantUserRoleAssignment
set_revoked actor actor_type db g = record g {
  status = UserRoleAssignmentStatus.inactive;
  revoked_at = some db.now;
  revoked_by_user_id = some actor;
  revoked_by_user_type = some actor_type;
  updated_at = db.now;
}

abbrev pub new_assignment :
    Uuid → Uuid → Uuid → ActorUserType → RoleAssignmentTuple → Db → TenantUserRoleAssignment
new_assignment t user_id actor actor_type a db = record {
  id = db.next_id;
  tenant_user_id = user_id;
  tenant_id = t;
  org_node_id = a.org_node_id;
  role_id = a.role_id;
  status = UserRoleAssignmentStatus.active;
  granted_at = db.now;
  granted_by_user_id = some actor;
  granted_by_user_type = some actor_type;
  revoked_at = none;
  revoked_by_user_id = none;
  revoked_by_user_type = none;
  updated_at = db.now;
}

abbrev pub add_assignment : TenantUserRoleAssignment → Db → Db
add_assignment g db = record db {
  tenant_user_role_assignments = g ∷ db.tenant_user_role_assignments;
  next_id = suc db.next_id;
}

-- The foreign keys of a new row to its user and its node.
abbrev pub is_anchored : Uuid → Uuid → RoleAssignmentTuple → Db → Bool
is_anchored t user_id a db =
    any (λ (u : TenantUser). u.tenant_id == t && u.id == user_id) db.tenant_users
    && any (λ (n : OrgNode). n.tenant_id == t && n.id == a.org_node_id) db.org_nodes

module _ (s : Session) (user_id : Uuid) where
  abbrev pub is_current : TenantUserRoleAssignment → Bool
  is_current g = admits s g.tenant_id && (g.tenant_user_id == user_id && is_active g.status)

  -- The row that one UPDATE of the loop reaches.
  abbrev pub is_grant_of : RoleAssignmentTuple → TenantUserRoleAssignment → Bool
  is_grant_of a g = is_current g && is_same (pair_of g) a

  abbrev pub select_current : Db → List RoleAssignmentTuple
  select_current db = set_of (map pair_of (select is_current db.tenant_user_role_assignments))

  unfoldable pub revoke_each :
      Uuid
      → ActorUserType
      → List RoleAssignmentTuple
      → Db
      → List TenantUserRoleAssignment
      → List TenantUserRoleAssignment
  revoke_each actor actor_type [] db rows = rows
  revoke_each actor actor_type (a ∷ pairs) db rows =
      revoke_each actor actor_type pairs db
        (update_where (is_grant_of a) (set_revoked actor actor_type db) rows)

module _ (s : Session) (t user_id actor : Uuid) (actor_type : ActorUserType) where
  -- The INSERT, behind the trigger on audiences, the policy, the index and the foreign keys.
  abbrev pub insert_one : RoleAssignmentTuple → Txn (Unit {0})
  insert_one a = do
    barred ← gets (λ db. not (admits s t) || not (is_tenant_role db a.role_id))
    throw_if barred uncaught
    taken ← gets (λ db. any (is_duplicate user_id a) db.tenant_user_role_assignments)
    throw_if taken (client_error role_assignment_conflict)
    anchored ← gets (is_anchored t user_id a)
    throw_if (not anchored) uncaught
    modify (λ db. add_assignment (new_assignment t user_id actor actor_type a db) db)

  unfoldable pub insert_each : List RoleAssignmentTuple → Txn (Unit {0})
  insert_each [] = pure tt
  insert_each (a ∷ pairs) = insert_one a >> insert_each pairs

  abbrev pub apply_role_assignments_diff :
      List RoleAssignmentTuple → List RoleAssignmentTuple → Txn (Unit {0})
  apply_role_assignments_diff current desired = do
    modify (λ db. record db {
      tenant_user_role_assignments =
          revoke_each s user_id actor actor_type (difference current desired) db
            db.tenant_user_role_assignments;
    })
    insert_each (difference desired current)
