-- ===== src/Users/Tenancy.antt =====
-- The tenant of a user's assignments under `_apply_role_assignments_diff`
-- (src/admin_backend/repositories/tenant_users.py).
use cortex_cm.Base.{◌≡◌, sym, ap, ◌∙◌, inl, inr, List, [], ◌∷◌, In, In-cons, In-update_where}
use mathlib.Core.Path.{subst}
use cortex_cm.Result.{ok}
use cortex_cm.Models.Columns.{Uuid}
use cortex_cm.Models.TenantUsers.{ActorUserType}
use cortex_cm.Models.Assignments.{TenantUserRoleAssignment}
use cortex_cm.Database.Tables.{Db}
use cortex_cm.Database.Session.{Session}
use cortex_cm.Database.Txn.{>>=-eq-ok, pure-eq-ok}
use cortex_cm.Users.Pairs.{RoleAssignmentTuple, difference}
use cortex_cm.Users.Diff.{
  set_revoked, new_assignment, is_grant_of, revoke_each, insert_one, insert_each,
  apply_role_assignments_diff,
}
use cortex_cm.Users.Revoked.{revoke_one}
use cortex_cm.Users.Inserted.{insert_one-eq-ok}

module _ (s : Session) (t user_id actor : Uuid) (actor_type : ActorUserType) where
  -- The rows of the user are of one tenant.
  abbrev pub IsOfTenant : List TenantUserRoleAssignment → Type 0
  IsOfTenant rows =
      (g : TenantUserRoleAssignment) → In g rows → g.tenant_user_id ≡ user_id → g.tenant_id ≡ t

  pub revoke_each-IsOfTenant :
      (pairs : List RoleAssignmentTuple) (db : Db) (rows : List TenantUserRoleAssignment)
      → IsOfTenant rows
      → IsOfTenant (revoke_each s user_id actor actor_type pairs db rows)
  unfolding revoke_each
  revoke_each-IsOfTenant [] db rows own = own
  revoke_each-IsOfTenant (b ∷ pairs) db rows own =
      revoke_each-IsOfTenant pairs db (revoke_one s user_id actor actor_type db b rows)
        (λ g at is_user.
          let (g0, at0, c) =
            In-update_where (is_grant_of s user_id b) (set_revoked actor actor_type db) rows at in
          elim c [
            | inl (_, e) ↦
                ap (λ (x : TenantUserRoleAssignment). x.tenant_id) e
                ∙ own g0 at0
                    (sym (ap (λ (x : TenantUserRoleAssignment). x.tenant_user_id) e) ∙ is_user)
            | inr (_, e) ↦
                ap (λ (x : TenantUserRoleAssignment). x.tenant_id) e
                ∙ own g0 at0
                    (sym (ap (λ (x : TenantUserRoleAssignment). x.tenant_user_id) e) ∙ is_user)
          ])

  insert_each-IsOfTenant :
      (pairs : List RoleAssignmentTuple) (db : Db) {u : Unit {0}} {db' : Db}
      → insert_each s t user_id actor actor_type pairs db ≡ ok (u, db')
      → IsOfTenant db.tenant_user_role_assignments
      → IsOfTenant db'.tenant_user_role_assignments
  unfolding insert_each
  insert_each-IsOfTenant [] db {u} {db'} h own =
      subst (λ (d : Db). IsOfTenant d.tenant_user_role_assignments) (sym ((pure-eq-ok h).1)) own
  insert_each-IsOfTenant (b ∷ pairs) db {u} {db'} h own =
      let (_, db1, h1, h2) =
        >>=-eq-ok (insert_one s t user_id actor actor_type b)
          (λ _. insert_each s t user_id actor actor_type pairs) db h in
      let (seen, is_db1) = insert_one-eq-ok s t user_id actor actor_type b db h1 in
      let g = new_assignment t user_id actor actor_type b db in
      insert_each-IsOfTenant pairs db1 h2 (
        subst (λ (d : Db). IsOfTenant d.tenant_user_role_assignments) (sym is_db1)
          (λ x at is_user.
            In-cons (x.tenant_id ≡ t) g db.tenant_user_role_assignments
              (λ e. ap (λ (y : TenantUserRoleAssignment). y.tenant_id) e) (λ old. own x old is_user)
              at))

  pub apply_role_assignments_diff-IsOfTenant :
      (current desired : List RoleAssignmentTuple) (db : Db) {u : Unit {0}} {db' : Db}
      → apply_role_assignments_diff s t user_id actor actor_type current desired db ≡ ok (u, db')
      → IsOfTenant db.tenant_user_role_assignments
      → IsOfTenant db'.tenant_user_role_assignments
  apply_role_assignments_diff-IsOfTenant current desired db {u} {db'} h own =
      let gone = difference current desired in
      let rows = revoke_each s user_id actor actor_type gone db db.tenant_user_role_assignments in
      let db1 : Db = record db { tenant_user_role_assignments = rows } in
      insert_each-IsOfTenant (difference desired current) db1 h
        (revoke_each-IsOfTenant gone db db.tenant_user_role_assignments own)
