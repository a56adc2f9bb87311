-- ===== src/Users/Lifecycle.antt =====
-- The rows of users under `TenantUsersRepo.transition`
-- (src/admin_backend/repositories/tenant_users.py), and what the permission check sees of it.
use cortex_cm.Base.{
  ◌≡◌, refl, ◌⊎◌, inl, inr, true, false, Option, none, some, List, Text, find, update_where,
  Option-cases, Bool-cases,
}
use cortex_cm.Result.{ok}
use cortex_cm.Models.Columns.{Uuid}
use cortex_cm.Models.TenantUsers.{TenantUser, ActorUserType}
use cortex_cm.Auth.Context.{AuthContext}
use cortex_cm.Database.Tables.{Db}
use cortex_cm.Database.Session.{Session}
use cortex_cm.Database.Txn.{pure-eq-ok}
use cortex_cm.Audit.Keeps.{SameTables}
use cortex_cm.Tenants.Transition.{Target, TransitionResult, moved, not_found, invalid_state}
use cortex_cm.Permission.Join.{tenant_join, platform_join}
use cortex_cm.Permission.Resolve.{
  Request, has_permission, has_permission_tenant, has_permission_platform,
}
use cortex_cm.Users.Detail.{TenantUserDetailRow, is_user, detail_of}
use cortex_cm.Users.Report.{emit_paired-answer}
use cortex_cm.Users.Transition.{is_source, set_target, moved_event, move, transition}
use cortex_cm.Users.Editing.{SameButUsers}

-- The answer of the permission check hangs on none of the columns of `tenant_users`.
has_permission-same :
    (s : Session) (db db' : Db) (a : AuthContext) (q : Request) (target : Option Text)
    → SameButUsers db db'
    → db'.tenant_user_role_assignments ≡ db.tenant_user_role_assignments
    → has_permission s db' a q target ≡ has_permission s db a q target
unfolding has_permission has_permission_tenant has_permission_platform tenant_join platform_join
has_permission-same s db db' a q target same rows =
    rw
      (
        rows, same.roles, same.role_permissions, same.permissions, same.org_nodes,
        same.tenant_module_access, same.platform_assignments,
      )
      refl

module _ (sort_names : List Text → List Text) (s : Session) (target : Target) (actor : Uuid)
    (actor_type : ActorUserType) (auth : Option AuthContext) (rid : Option Uuid) where
  abbrev pub moved_users : Uuid → Db → List TenantUser
  moved_users user_id db =
      update_where (is_user s user_id) (set_target target actor actor_type db) db.tenant_users

  move-eq-ok :
      (user_id : Uuid) (u : TenantUser) (db : Db)
      {x : Option TenantUserDetailRow × TransitionResult} {db' : Db}
      → move sort_names s target actor actor_type auth rid user_id u db ≡ ok (x, db')
      → (x.1 ≡ moved) × SameTables (record db { tenant_users = moved_users user_id db }) db'
  move-eq-ok user_id u db h =
      let db1 : Db = record db { tenant_users = moved_users user_id db } in
      let row = detail_of s db1 (find (is_user s user_id) db1.tenant_users) in
      let (e, same) =
        emit_paired-answer sort_names s (moved_event s target u) auth rid row (row, moved) db1 h in
      (rw e refl, same)

  -- A transition that returns has one of three outcomes: no visible user, `NOT_FOUND`, nothing
  -- changed; a status that is no source of the target, `INVALID_STATE`, nothing changed; else `OK`, and
  -- the table of users is updated in the rows with the id, beside audit rows nothing else.
  pub transition_outcomes :
      (user_id : Uuid) (db : Db) {x : Option TenantUserDetailRow × TransitionResult} {db' : Db}
      → transition sort_names s target actor actor_type auth rid user_id db ≡ ok (x, db')
      → ((find (is_user s user_id) db.tenant_users ≡ none) × (x ≡ (none, not_found)) × (db' ≡ db))
        ⊎ ((u : TenantUser) × (find (is_user s user_id) db.tenant_users ≡ some u)
            × (((is_source target u.status ≡ false) × (x ≡ (none, invalid_state)) × (db' ≡ db))
                ⊎ ((is_source target u.status ≡ true)
                    × (x.1 ≡ moved)
                    × SameTables (record db { tenant_users = moved_users user_id db }) db')))
  unfolding transition
  transition_outcomes user_id db {x} {db'} h =
      elim (Option-cases (find (is_user s user_id) db.tenant_users)) [
        | inl e ↦ let (q, same) = pure-eq-ok (rw e at h) in inl (e, q, same)
        | inr (u, e) ↦ inr (
          u,
          e,
          elim (Bool-cases (is_source target u.status)) [
            | inl q ↦
                let (is_moved, same) = move-eq-ok user_id u db (rw (e, q) at h) in
                inr (q, is_moved, same)
            | inr q ↦ let (r, same) = pure-eq-ok (rw (e, q) at h) in inl (q, r, same)
          ],
        )
      ]

  -- Suspending or activating a user changes no answer of the permission check: whatever the session,
  -- the caller, the request and the target, the answer after a transition that returns is the one
  -- before it.
  pub has_permission-transition :
      (user_id : Uuid) (db : Db) {x : Option TenantUserDetailRow × TransitionResult} {db' : Db}
      (s' : Session) (a : AuthContext) (q : Request) (at : Option Text)
      → transition sort_names s target actor actor_type auth rid user_id db ≡ ok (x, db')
      → has_permission s' db' a q at ≡ has_permission s' db a q at
  has_permission-transition user_id db {x} {db'} s' a q at h =
      elim (transition_outcomes user_id db h) [
        | inl (_, _, same) ↦ rw same refl
        | inr (u, _, outcome) ↦ elim outcome [
          | inl (_, _, same) ↦ rw same refl
          | inr (_, _, same) ↦
              has_permission-same s' db db' a q at
                (record {
                  tenants = same.tenants;
                  stores = same.stores;
                  org_nodes = same.org_nodes;
                  tenant_users = refl;
                  platform_users = same.platform_users;
                  roles = same.roles;
                  role_permissions = same.role_permissions;
                  permissions = same.permissions;
                  tenant_module_access = same.tenant_module_access;
                  platform_assignments = same.platform_assignments;
                  tenant_assignments = refl;
                  next_id = same.next_id;
                })
                same.tenant_assignments
        ]
      ]
