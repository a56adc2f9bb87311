-- ===== src/Users/Effect.antt =====
-- What `TenantUsersRepo.update` (src/admin_backend/repositories/tenant_users.py) brings about: the
-- assignments of the user, and what the permission check answers about the user afterwards.
use cortex_cm.Base.{
  ◌≡◌, sym, ◌∙◌, inl, inr, Bool, true, Option, none, some, List, Text, arith, find, find_sound,
  find-In, ==_iff, In, any_of_In, and-split, and-join,
}
use mathlib.Core.Path.{subst}
use cortex_cm.Result.{ok}
use cortex_cm.Models.Columns.{Uuid}
use cortex_cm.Models.TenantUsers.{TenantUser, ActorUserType}
use cortex_cm.Models.Assignments.{TenantUserRoleAssignment}
use cortex_cm.Auth.Context.{AuthContext}
use cortex_cm.Database.Tables.{Db}
use cortex_cm.Database.Session.{Session, admits}
use cortex_cm.Permission.Resolve.{
  Request, TenantGrant, has_permission_tenant, has_permission_tenant_iff,
}
use cortex_cm.Users.Pairs.{RoleAssignmentTuple, contains, is_same_refl}
use cortex_cm.Users.Detail.{TenantUserDetailRow, is_user}
use cortex_cm.Users.Diff.{pair_of, is_grant_of}
use cortex_cm.Users.Update.{Fields, update}
use cortex_cm.Users.Reconciled.{IsReconciled}
use cortex_cm.Users.Tenancy.{IsOfTenant}
use cortex_cm.Users.Checks.{sent}
use cortex_cm.Users.Editing.{IsEdited, update-eq-ok}

-- `fk_tenant_user_role_assignments_tenant_user_same_tenant`
abbrev pub IsSameTenant : Db → Type 0
IsSameTenant db =
    (g : TenantUserRoleAssignment) (u : TenantUser)
    → In g db.tenant_user_role_assignments
    → In u db.tenant_users
    → u.id ≡ g.tenant_user_id
    → g.tenant_id ≡ u.tenant_id

sent-eq-some :
    (new : Option (List RoleAssignmentTuple)) {pairs : List RoleAssignmentTuple}
    → sent new ≡ some (some pairs)
    → new ≡ some pairs
sent-eq-some none e = absurd (cc)
sent-eq-some (some pairs) e = ground arith

module _ (accepts_email : Text → Bool) (sort_names : List Text → List Text) (s : Session)
    (f : Fields) (actor : Uuid) (actor_type : ActorUserType) (auth : Option AuthContext)
    (rid : Option Uuid) where
  -- The user that an update with roles has found, and what it did.
  update-IsEdited :
      (user_id : Uuid) (pairs : List RoleAssignmentTuple) (db : Db) {row : TenantUserDetailRow}
      {db' : Db}
      → f.roles ≡ some (some pairs)
      → update accepts_email sort_names s f actor actor_type auth rid user_id db
        ≡ ok (some row, db')
      → (u : TenantUser) × (find (is_user s user_id) db.tenant_users ≡ some u)
        × IsEdited accepts_email sort_names s f actor actor_type auth rid user_id
            (some pairs)
            u
            db
            db'
  update-IsEdited user_id pairs db {row} {db'} with_roles h =
      elim (update-eq-ok accepts_email sort_names s f actor actor_type auth rid user_id db h) [
        | inl (_, is_none, _) ↦ absurd (cc)
        | inr (u, new, found, is_sent, edited) ↦
            let is_new : new ≡ some pairs = sent-eq-some new (sym is_sent ∙ with_roles) in
            (
              u,
              found,
              subst
                  (λ (n : Option (List RoleAssignmentTuple)).
                    IsEdited accepts_email sort_names s f actor actor_type auth rid user_id n u db
                      db')
                  is_new edited,
            )
      ]

  -- An update that returns a user, and whose request has roles, has reconciled the assignments with
  -- them: the user's active pairs of a role and a node that the session sees are those of the request
  -- and no others; the rows of other users are as they were, and so is every row of the user but the
  -- active ones with another pair, with its author and time.
  pub update-IsReconciled :
      (user_id : Uuid) (pairs : List RoleAssignmentTuple) (db : Db) {row : TenantUserDetailRow}
      {db' : Db}
      → f.roles ≡ some (some pairs)
      → update accepts_email sort_names s f actor actor_type auth rid user_id db
        ≡ ok (some row, db')
      → IsReconciled s user_id pairs db.tenant_user_role_assignments
          db'.tenant_user_role_assignments
  update-IsReconciled user_id pairs db with_roles h =
      let (u, found, edited) = update-IsEdited user_id pairs db with_roles h in edited.settled

  -- After an update that returns a user, and whose request has roles, the permission check lets the
  -- user through, in any session and at any target, only by an assignment with one of the pairs of a
  -- role and a node that the request has; where it has none, never. Before, each assignment is of the
  -- tenant of its user.
  pub update-grants :
      (user_id : Uuid) (pairs : List RoleAssignmentTuple) (db : Db) {row : TenantUserDetailRow}
      {db' : Db} (s' : Session) (q : Request) (target : Option Text)
      → f.roles ≡ some (some pairs)
      → IsSameTenant db
      → update accepts_email sort_names s f actor actor_type auth rid user_id db
        ≡ ok (some row, db')
      → (has_permission_tenant s' db' user_id q target).0 ≡ true
      → (g : TenantGrant s' db' user_id q target) × (contains pairs (pair_of g.row.tura) ≡ true)
  update-grants user_id pairs db {row} {db'} s' q target with_roles same_tenant h granted =
      let (u, found, edited) = update-IsEdited user_id pairs db with_roles h in
      let g = (has_permission_tenant_iff s' db' user_id q target).0 granted in
      let a = g.row.tura in
      let (seen, is_u) =
        and-split (admits s u.tenant_id) _ (find_sound (is_user s user_id) db.tenant_users found) in
      let before : IsOfTenant s u.tenant_id user_id actor actor_type
          db.tenant_user_role_assignments =
        λ x at is_x.
          same_tenant x u at (find-In (is_user s user_id) db.tenant_users found)
            ((==_iff u.id user_id).0 is_u ∙ sym is_x) in
      let of_tenant : a.tenant_id ≡ u.tenant_id =
        edited.own before a g.is_row.has_assignment g.for_user in
      let sees : admits s a.tenant_id ≡ true = rw of_tenant seen in
      let current : is_grant_of s user_id (pair_of a) a ≡ true =
        and-join
          (and-join sees
            (and-join ((==_iff a.tenant_user_id user_id).1 g.for_user) g.assignment_active))
          (is_same_refl (pair_of a)) in
      (
        g,
        sym (edited.settled.exact (pair_of a))
            ∙ any_of_In (is_grant_of s user_id (pair_of a)) g.is_row.has_assignment current,
      )
