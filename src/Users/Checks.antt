-- ===== src/Users/Checks.antt =====
-- What the steps of `TenantUsersRepo.update` before and behind its write have checked when they
-- return (src/admin_backend/repositories/tenant_users.py).
use cortex_cm.Base.{◌≡◌, refl, sym, ◌∙◌, Bool, false, not, Option, none, some, List, Text, any}
use mathlib.Core.Path.{subst}
use cortex_cm.Result.{ok}
use cortex_cm.Errors.{
  client_error, invalid_role, invalid_role_audience, invalid_org_node, duplicate_tenant_user_email,
}
use cortex_cm.Models.Columns.{Uuid}
use cortex_cm.Models.TenantUsers.{ActorUserType}
use cortex_cm.Models.Assignments.{TenantUserRoleAssignment}
use cortex_cm.Database.Tables.{Db}
use cortex_cm.Database.Session.{Session}
use cortex_cm.Database.Txn.{
  pure, gets, throw_if, ◌>>=◌, >>=-eq-ok, throw_if-eq-ok, after-throw_if, pure-eq-ok,
}
use cortex_cm.Audit.Keeps.{SameTables-refl}
use cortex_cm.Users.Pairs.{RoleAssignmentTuple, set_of, contains-set_of}
use cortex_cm.Users.Validate.{validate_roles, has_email, is_live_role, is_tenant_role, is_live_node}
use cortex_cm.Users.Diff.{pair_of, select_current, apply_role_assignments_diff}
use cortex_cm.Users.Create.{role_ids, org_node_ids}
use cortex_cm.Users.Update.{read_roles, validate_anchors, validate_email, Reconciled, reconcile}
use cortex_cm.Users.Inserted.{SameButAssignments}
use cortex_cm.Users.Reconciled.{IsReconciled, apply_role_assignments_diff-IsReconciled}
use cortex_cm.Users.Tenancy.{IsOfTenant, apply_role_assignments_diff-IsOfTenant}

-- A check that returns has changed nothing.
pub validate_roles-same :
    (ids : List Uuid) (db : Db) {u : Unit {0}} {db' : Db}
    → validate_roles ids db ≡ ok (u, db')
    → db' ≡ db
validate_roles-same ids db h =
    let unfit : Bool = any (λ (i : Uuid). not (is_tenant_role db i)) ids in
    let (_, h1) =
      after-throw_if (any (λ (i : Uuid). not (is_live_role db i)) ids) (client_error invalid_role)
        (gets (λ (d : Db). any (λ (i : Uuid). not (is_tenant_role d i)) ids) >>= λ b.
          throw_if b (client_error invalid_role_audience))
        db h in
    (throw_if-eq-ok unfit (client_error invalid_role_audience) h1).1

-- The field of a request with these roles.
abbrev pub sent : Option (List RoleAssignmentTuple) → Option (Option (List RoleAssignmentTuple))
sent none = none
sent (some pairs) = some (some pairs)

pub read_roles-eq-ok :
    (raw : Option (Option (List RoleAssignmentTuple))) (db : Db)
    {new : Option (List RoleAssignmentTuple)} {db' : Db}
    → read_roles raw db ≡ ok (new, db')
    → (raw ≡ sent new) × (db' ≡ db)
read_roles-eq-ok none db h = let (e, same) = pure-eq-ok h in (rw e refl, same)
read_roles-eq-ok (some none) db h = absurd (cc)
read_roles-eq-ok (some (some pairs)) db h =
    let (_, db1, h1, h2) =
      >>=-eq-ok (validate_roles (role_ids pairs)) (λ _. pure (some pairs)) db h in
    let (e, same) = pure-eq-ok h2 in (rw e refl, same ∙ validate_roles-same (role_ids pairs) db h1)

module _ (s : Session) (t : Uuid) where
  pub validate_anchors-same :
      (new : Option (List RoleAssignmentTuple)) (db : Db) {u : Unit {0}} {db' : Db}
      → validate_anchors s t new db ≡ ok (u, db')
      → db' ≡ db
  validate_anchors-same none db h = (pure-eq-ok h).1
  validate_anchors-same (some pairs) db h =
      (throw_if-eq-ok (any (λ (i : Uuid). not (is_live_node s t db i)) (org_node_ids pairs))
        (client_error invalid_org_node) h).1

  -- A new email that no other user of the tenant has.
  abbrev pub IsFree : Uuid → Option (Option Text) → Db → Type 0
  IsFree user_id none db = Unit
  IsFree user_id (some none) db = Unit
  IsFree user_id (some (some email)) db =
      any (has_email s t email (some user_id)) db.tenant_users ≡ false

  pub validate_email-eq-ok :
      (user_id : Uuid) (raw : Option (Option Text)) (db : Db) {u : Unit {0}} {db' : Db}
      → validate_email s t user_id raw db ≡ ok (u, db')
      → IsFree user_id raw db × (db' ≡ db)
  validate_email-eq-ok user_id none db h = (tt, (pure-eq-ok h).1)
  validate_email-eq-ok user_id (some none) db h = (tt, (pure-eq-ok h).1)
  validate_email-eq-ok user_id (some (some email)) db h =
      throw_if-eq-ok (any (has_email s t email (some user_id)) db.tenant_users)
        (client_error duplicate_tenant_user_email) h

  -- What a reconciliation leaves of the rows; without roles, all of it.
  abbrev pub IsSettled :
      Uuid
      → Option (List RoleAssignmentTuple)
      → List TenantUserRoleAssignment
      → List TenantUserRoleAssignment
      → Type 0
  IsSettled user_id none rows rows' = rows' ≡ rows
  IsSettled user_id (some pairs) rows rows' = IsReconciled s user_id pairs rows rows'

  pub reconcile-eq-ok :
      (user_id actor : Uuid) (actor_type : ActorUserType) (new : Option (List RoleAssignmentTuple))
      (db : Db) {r : Reconciled} {db' : Db}
      → reconcile s t user_id actor actor_type new db ≡ ok (r, db')
      → IsSettled user_id new db.tenant_user_role_assignments db'.tenant_user_role_assignments
        × SameButAssignments db db'
        × (IsOfTenant s t user_id actor actor_type db.tenant_user_role_assignments
            → IsOfTenant s t user_id actor actor_type db'.tenant_user_role_assignments)
  reconcile-eq-ok user_id actor actor_type none db {r} {db'} h =
      let same = sym ((pure-eq-ok h).1) in
      subst
        (λ (d : Db).
          (d.tenant_user_role_assignments ≡ db.tenant_user_role_assignments)
          × SameButAssignments db d
          × (IsOfTenant s t user_id actor actor_type db.tenant_user_role_assignments
              → IsOfTenant s t user_id actor actor_type d.tenant_user_role_assignments))
        same (refl, SameTables-refl db, λ own. own)
  reconcile-eq-ok user_id actor actor_type (some pairs) db {r} {db'} h =
      let current = select_current s user_id db in
      let (_, db1, h1, h2) =
        >>=-eq-ok (apply_role_assignments_diff s t user_id actor actor_type current (set_of pairs))
          (λ _. pure (some (current, set_of pairs))) db h in
      let same = sym ((pure-eq-ok h2).1) in
      let (settled, tables) =
        apply_role_assignments_diff-IsReconciled s t user_id actor actor_type (set_of pairs) db
          h1 in
      subst
        (λ (d : Db).
          IsSettled user_id (some pairs) db.tenant_user_role_assignments
            d.tenant_user_role_assignments
          × SameButAssignments db d
          × (IsOfTenant s t user_id actor actor_type db.tenant_user_role_assignments
              → IsOfTenant s t user_id actor actor_type d.tenant_user_role_assignments))
        same
        (
          record {
            exact = λ a. settled.exact a ∙ contains-set_of pairs a;
            other_users = settled.other_users;
            kept = λ g at stays. settled.kept g at (rw (contains-set_of pairs (pair_of g)) stays);
          },
          tables,
          apply_role_assignments_diff-IsOfTenant s t user_id actor actor_type current (set_of pairs)
              db h1,
        )
