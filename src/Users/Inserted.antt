-- ===== src/Users/Inserted.antt =====
-- The INSERTs of `_apply_role_assignments_diff`
-- (src/admin_backend/repositories/tenant_users.py).
use cortex_cm.Base.{
  suc, ◌≡◌, refl, sym, ◌∙◌, ◌≤◌, true, not, ◌||◌, List, [], ◌∷◌, arith, any, In, there, ==_refl,
}
use mathlib.Core.Path.{subst}
use cortex_cm.Result.{ok}
use cortex_cm.Errors.{client_error, uncaught, role_assignment_conflict}
use cortex_cm.Models.Columns.{Uuid}
use cortex_cm.Models.TenantUsers.{ActorUserType}
use cortex_cm.Models.Assignments.{TenantUserRoleAssignment}
use cortex_cm.Database.Tables.{Db}
use cortex_cm.Database.Session.{Session, admits}
use cortex_cm.Database.Txn.{>>=-eq-ok, after-throw_if, pure-eq-ok}
use cortex_cm.Audit.Keeps.{SameTables, SameTables-refl}
use cortex_cm.Users.Pairs.{RoleAssignmentTuple, is_same, contains}
use cortex_cm.Users.Validate.{is_tenant_role}
use cortex_cm.Users.Diff.{
  is_duplicate, new_assignment, add_assignment, is_grant_of, is_anchored, insert_one, insert_each,
}
use cortex_cm.Users.Revoked.{others, holds}

-- The tables other than that of assignments.
abbrev pub SameButAssignments : Db → Db → Type 0
SameButAssignments db db' =
    SameTables db (record db' { tenant_user_role_assignments = db.tenant_user_role_assignments })

pub same_from :
    (db : Db) (rows : List TenantUserRoleAssignment) (n : Uuid) (db' : Db)
    → db.next_id ≤ n
    → SameButAssignments (record db { tenant_user_role_assignments = rows; next_id = n }) db'
    → SameButAssignments db db'
same_from db rows n db' above same = record {
  tenants = same.tenants;
  stores = same.stores;
  org_nodes = same.org_nodes;
  tenant_users = same.tenant_users;
  platform_users = same.platform_users;
  roles = same.roles;
  role_permissions = same.role_permissions;
  permissions = same.permissions;
  tenant_module_access = same.tenant_module_access;
  platform_assignments = same.platform_assignments;
  tenant_assignments = refl;
  next_id = let h = same.next_id in omega arith;
}

module _ (s : Session) (t user_id actor : Uuid) (actor_type : ActorUserType) where
  pub insert_one-eq-ok :
      (a : RoleAssignmentTuple) (db : Db) {u : Unit {0}} {db' : Db}
      → insert_one s t user_id actor actor_type a db ≡ ok (u, db')
      → (admits s t ≡ true)
        × (db' ≡ add_assignment (new_assignment t user_id actor actor_type a db) db)
  insert_one-eq-ok a db h =
      let new = add_assignment (new_assignment t user_id actor actor_type a db) in
      let (seen, h1) =
        after-throw_if (not (admits s t) || not (is_tenant_role db a.role_id)) uncaught _ db h in
      let (free, h2) =
        after-throw_if (any (is_duplicate user_id a) db.tenant_user_role_assignments)
          (client_error role_assignment_conflict) _ db h1 in
      let (anchored, h3) = after-throw_if (not (is_anchored t user_id a db)) uncaught _ db h2 in
      (ground arith, sym (ground arith))

  -- What the insertions leave.
  pub record IsInserted (pairs : List RoleAssignmentTuple) (db db' : Db) : Type 0 where
    pub added :
        (a : RoleAssignmentTuple)
        → holds s user_id a db'.tenant_user_role_assignments
          ≡ (contains pairs a || holds s user_id a db.tenant_user_role_assignments)
    pub other_users :
        others user_id db'.tenant_user_role_assignments
        ≡ others user_id db.tenant_user_role_assignments
    pub kept :
        (g : TenantUserRoleAssignment)
        → In g db.tenant_user_role_assignments
        → In g db'.tenant_user_role_assignments
    pub same_tables : SameButAssignments db db'

  added_holds :
      (a b : RoleAssignmentTuple) (db : Db)
      → admits s t ≡ true
      → is_grant_of s user_id a (new_assignment t user_id actor actor_type b db) ≡ is_same a b
  added_holds a b db seen = rw seen (ground arith)

  pub insert_each-IsInserted :
      (pairs : List RoleAssignmentTuple) (db : Db) {u : Unit {0}} {db' : Db}
      → insert_each s t user_id actor actor_type pairs db ≡ ok (u, db')
      → IsInserted pairs db db'
  unfolding insert_each
  insert_each-IsInserted [] db {u} {db'} h =
      subst (IsInserted [] db) (sym ((pure-eq-ok h).1)) (record {
        added = λ a. refl;
        other_users = refl;
        kept = λ g at. at;
        same_tables = SameTables-refl db;
      })
  insert_each-IsInserted (b ∷ pairs) db {u} {db'} h =
      let (_, db1, h1, h2) =
        >>=-eq-ok (insert_one s t user_id actor actor_type b)
          (λ _. insert_each s t user_id actor actor_type pairs) db h in
      let (seen, is_db1) = insert_one-eq-ok b db h1 in
      let g = new_assignment t user_id actor actor_type b db in
      let rest =
        subst (λ (d : Db). IsInserted pairs d db') is_db1 (insert_each-IsInserted pairs db1 h2) in
      record {
        added = λ a. rest.added a ∙ ground (arith, added_holds a b db seen);
        other_users = rest.other_users ∙ rw (==_refl user_id) refl;
        kept = λ x at. rest.kept x (there at);
        same_tables =
            same_from db (g ∷ db.tenant_user_role_assignments) (suc db.next_id) db' (omega arith)
              rest.same_tables;
      }
