-- ===== src/Users/Reconciled.antt =====
-- What `_apply_role_assignments_diff` of src/admin_backend/repositories/tenant_users.py leaves in
-- the table of assignments.
use cortex_cm.Base.{
  ◌≡◌, ap, ◌∙◌, Bool, false, not, ◌&&◌, List, map, arith, any, select, In, any-map, any-select,
}
use mathlib.Core.Path.{fun_ext}
use cortex_cm.Result.{ok}
use cortex_cm.Models.Columns.{Uuid}
use cortex_cm.Models.TenantUsers.{ActorUserType}
use cortex_cm.Models.Assignments.{TenantUserRoleAssignment}
use cortex_cm.Database.Tables.{Db}
use cortex_cm.Database.Session.{Session}
use cortex_cm.Users.Pairs.{
  RoleAssignmentTuple, is_same, contains, difference, contains-set_of, contains-difference,
}
use cortex_cm.Users.Diff.{
  pair_of, is_current, select_current, revoke_each, apply_role_assignments_diff,
}
use cortex_cm.Users.Revoked.{others, holds, holds-revoke_each, others-revoke_each, revoke_each-In}
use cortex_cm.Users.Inserted.{SameButAssignments, same_from, insert_each-IsInserted}

-- The rows behind a reconciliation: the user's active pairs are those desired, the rows of the
-- other users are as they were, and so is every row but the user's active ones with another pair.
pub record IsReconciled (s : Session) (user_id : Uuid) (desired : List RoleAssignmentTuple)
    (rows rows' : List TenantUserRoleAssignment) : Type 0 where
  pub exact : (a : RoleAssignmentTuple) → holds s user_id a rows' ≡ contains desired a
  pub other_users : others user_id rows' ≡ others user_id rows
  pub kept :
      (g : TenantUserRoleAssignment)
      → In g rows
      → (is_current s user_id g && not (contains desired (pair_of g))) ≡ false
      → In g rows'

module _ (s : Session) (t user_id actor : Uuid) (actor_type : ActorUserType) where
  pub any_current :
      (a : RoleAssignmentTuple) (db : Db)
      → contains (select_current s user_id db) a ≡ holds s user_id a db.tenant_user_role_assignments
  any_current a db =
      contains-set_of (map pair_of (select (is_current s user_id) db.tenant_user_role_assignments))
        a
      ∙ any-map (is_same a) pair_of (select (is_current s user_id) db.tenant_user_role_assignments)
      ∙ any-select (is_current s user_id) (λ g. is_same a (pair_of g))
          db.tenant_user_role_assignments
      ∙ ap (λ (p : TenantUserRoleAssignment → Bool). any p db.tenant_user_role_assignments)
          (fun_ext (λ (g : TenantUserRoleAssignment). ground arith))

  -- A reconciliation with what is current that returns has reconciled the rows, and has changed no
  -- other table.
  pub apply_role_assignments_diff-IsReconciled :
      (desired : List RoleAssignmentTuple) (db : Db) {u : Unit {0}} {db' : Db}
      → apply_role_assignments_diff s t user_id actor actor_type
          (select_current s user_id db)
          desired
          db
        ≡ ok (u, db')
      → IsReconciled s user_id desired db.tenant_user_role_assignments
          db'.tenant_user_role_assignments
        × SameButAssignments db db'
  apply_role_assignments_diff-IsReconciled desired db {u} {db'} h =
      let current = select_current s user_id db in
      let gone = difference current desired in
      let rows = db.tenant_user_role_assignments in
      let db1 : Db = record db {
        tenant_user_role_assignments = revoke_each s user_id actor actor_type gone db rows;
      } in
      let done =
        insert_each-IsInserted s t user_id actor actor_type (difference desired current) db1 h in
      (
        record {
          exact = λ a.
              done.added a
              ∙ ground (
                arith,
                holds-revoke_each s user_id actor actor_type db a gone rows,
                contains-difference desired current a,
                contains-difference current desired a,
                any_current a db,
              );
          other_users =
              done.other_users ∙ others-revoke_each s user_id actor actor_type db gone rows;
          kept = λ g at stays. done.kept g (
              revoke_each-In s user_id actor actor_type db gone rows at
                (ground (arith, contains-difference current desired (pair_of g))));
        },
        same_from db _ db.next_id db' (omega arith) done.same_tables,
      )

  pub apply_role_assignments_diff-same :
      (current desired : List RoleAssignmentTuple) (db : Db) {u : Unit {0}} {db' : Db}
      → apply_role_assignments_diff s t user_id actor actor_type current desired db ≡ ok (u, db')
      → SameButAssignments db db'
  apply_role_assignments_diff-same current desired db {u} {db'} h =
      let gone = difference current desired in
      let rows = revoke_each s user_id actor actor_type gone db db.tenant_user_role_assignments in
      let db1 : Db = record db { tenant_user_role_assignments = rows } in
      same_from db rows db.next_id db' (omega arith)
        (insert_each-IsInserted s t user_id actor actor_type (difference desired current) db1
          h).same_tables
