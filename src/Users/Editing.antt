-- ===== src/Users/Editing.antt =====
-- What `TenantUsersRepo.update` of src/admin_backend/repositories/tenant_users.py has checked and
-- written when it returns.
use cortex_cm.Base.{
  ◌≡◌, refl, sym, ◌∙◌, ◌⊎◌, inl, inr, Bool, true, false, not, Option, none, some, List, Text, arith,
  find, update_where, Option-cases,
}
use mathlib.Core.Path.{subst}
use native.Mathlib.Nat.{le_trans}
use cortex_cm.Result.{ok}
use cortex_cm.Errors.{uncaught}
use cortex_cm.Models.Columns.{Uuid}
use cortex_cm.Models.TenantUsers.{TenantUser, ActorUserType}
use cortex_cm.Auth.Context.{AuthContext}
use cortex_cm.Database.Tables.{Db}
use cortex_cm.Database.Session.{Session}
use cortex_cm.Database.Txn.{
  Txn, pure, gets, modify, ◌>>=◌, ◌>>◌, >>=-eq-ok, after-throw_if, pure-eq-ok,
}
use cortex_cm.Audit.Keeps.{SameTables}
use cortex_cm.Users.Pairs.{RoleAssignmentTuple}
use cortex_cm.Users.Detail.{TenantUserDetailRow, is_user, detail_of, get_by_id}
use cortex_cm.Users.Report.{emit_paired, emit_paired-answer}
use cortex_cm.Users.Update.{
  Fields, read_roles, validate_anchors, validate_email, is_touched, set_fields, Reconciled,
  updated_event, reconcile, is_accepted, write_fields, edit, edit_found, update,
}
use cortex_cm.Users.Tenancy.{IsOfTenant}
use cortex_cm.Users.Checks.{
  sent, IsFree, IsSettled, read_roles-eq-ok, validate_anchors-same, validate_email-eq-ok,
  reconcile-eq-ok,
}

-- The tables other than those of users and assignments.
abbrev pub SameButUsers : Db → Db → Type 0
SameButUsers db db' = SameTables db (record db' {
  tenant_users = db.tenant_users;
  tenant_user_role_assignments = db.tenant_user_role_assignments;
})

module _ (accepts_email : Text → Bool) (sort_names : List Text → List Text) (s : Session)
    (f : Fields) (actor : Uuid) (actor_type : ActorUserType) (auth : Option AuthContext)
    (rid : Option Uuid) where
  abbrev pub users_after : Uuid → Bool → Db → List TenantUser
  users_after user_id false db = db.tenant_users
  users_after user_id true db =
      update_where (is_user s user_id) (set_fields f actor actor_type db) db.tenant_users

  pub write_fields-eq-ok :
      (user_id : Uuid) (touched : Bool) (db : Db) {u : Unit {0}} {db' : Db}
      → write_fields accepts_email sort_names s f actor actor_type auth rid user_id touched db
        ≡ ok (u, db')
      → db' ≡ record db { tenant_users = users_after user_id touched db }
  write_fields-eq-ok user_id false db h = (pure-eq-ok h).1
  write_fields-eq-ok user_id true db h =
      let bad = not (is_accepted accepts_email sort_names s f actor actor_type auth rid) in
      let (_, h1) =
        after-throw_if bad uncaught
          (modify (λ db. record db {
            tenant_users =
                update_where (is_user s user_id) (set_fields f actor actor_type db) db.tenant_users;
          }))
          db h in
      sym (ground arith)

  -- What an update of a user who is found has done.
  pub record IsEdited (user_id : Uuid) (new : Option (List RoleAssignmentTuple)) (u : TenantUser)
      (db db' : Db) : Type 0 where
    pub free : IsFree s u.tenant_id user_id f.email db
    pub users : db'.tenant_users ≡ users_after user_id (is_touched f new) db
    pub settled :
        IsSettled s u.tenant_id user_id new db.tenant_user_role_assignments
          db'.tenant_user_role_assignments
    pub own :
        IsOfTenant s u.tenant_id user_id actor actor_type db.tenant_user_role_assignments
        → IsOfTenant s u.tenant_id user_id actor actor_type db'.tenant_user_role_assignments
    pub same_tables : SameButUsers db db'

  -- The statements of an edit behind each of its steps.
  abbrev pub reply : Uuid → TenantUser → Reconciled → Txn (Option TenantUserDetailRow)
  reply user_id u roles = get_by_id s user_id >>= λ row.
      emit_paired sort_names s (updated_event s f u roles) auth rid row >> pure row

  abbrev pub settled_part :
      Uuid → Option (List RoleAssignmentTuple) → TenantUser → Txn (Option TenantUserDetailRow)
  settled_part user_id new u =
      reconcile s u.tenant_id user_id actor actor_type new >>= reply user_id u

  abbrev pub written :
      Uuid → Option (List RoleAssignmentTuple) → TenantUser → Txn (Option TenantUserDetailRow)
  written user_id new u =
      write_fields accepts_email sort_names s f actor actor_type auth rid user_id (is_touched f new)
      >> settled_part user_id new u

  abbrev pub checked :
      Uuid → Option (List RoleAssignmentTuple) → TenantUser → Txn (Option TenantUserDetailRow)
  checked user_id new u = validate_email s u.tenant_id user_id f.email >> written user_id new u

  reply-eq-ok :
      (user_id : Uuid) (u : TenantUser) (roles : Reconciled) (db : Db)
      {row : Option TenantUserDetailRow} {db' : Db}
      → reply user_id u roles db ≡ ok (row, db')
      → (row ≡ detail_of s db (find (is_user s user_id) db.tenant_users)) × SameTables db db'
  reply-eq-ok user_id u roles db h =
      let row = detail_of s db (find (is_user s user_id) db.tenant_users) in
      emit_paired-answer sort_names s (updated_event s f u roles) auth rid row row db h

  edit-IsEdited :
      (user_id : Uuid) (new : Option (List RoleAssignmentTuple)) (u : TenantUser) (db : Db)
      {row : Option TenantUserDetailRow} {db' : Db}
      → edit accepts_email sort_names s f actor actor_type auth rid user_id new u db ≡ ok (row, db')
      → IsEdited user_id new u db db'
  edit-IsEdited user_id new u db {row} {db'} h =
      let t = u.tenant_id in
      let db1 : Db = record db { tenant_users = users_after user_id (is_touched f new) db } in
      let (_, a, h1, h2) = >>=-eq-ok (validate_anchors s t new) (λ _. checked user_id new u) db h in
      let h3 =
        subst (λ (d : Db). checked user_id new u d ≡ ok (row, db'))
          (validate_anchors-same s t new db h1) h2 in
      let (_, b, h4, h5) =
        >>=-eq-ok (validate_email s t user_id f.email) (λ _. written user_id new u) db h3 in
      let (free, same) = validate_email-eq-ok s t user_id f.email db h4 in
      let h6 = subst (λ (d : Db). written user_id new u d ≡ ok (row, db')) same h5 in
      let (_, c, h7, h8) =
        >>=-eq-ok
          (write_fields accepts_email sort_names s f actor actor_type auth rid user_id
            (is_touched f new))
          (λ _. settled_part user_id new u) db h6 in
      let h9 =
        subst (λ (d : Db). settled_part user_id new u d ≡ ok (row, db'))
          (write_fields-eq-ok user_id (is_touched f new) db h7) h8 in
      let (r, db2, h10, h11) =
        >>=-eq-ok (reconcile s t user_id actor actor_type new) (reply user_id u) db1 h9 in
      let (done, same1, own) = reconcile-eq-ok s t user_id actor actor_type new db1 h10 in
      let (_, same2) = reply-eq-ok user_id u r db2 h11 in
      record {
        free = free;
        users = same2.tenant_users ∙ same1.tenant_users;
        settled =
            subst (IsSettled s t user_id new db.tenant_user_role_assignments)
              (sym same2.tenant_assignments) done;
        own = λ before. rw same2.tenant_assignments (own before);
        same_tables = record {
          tenants = same2.tenants ∙ same1.tenants;
          stores = same2.stores ∙ same1.stores;
          org_nodes = same2.org_nodes ∙ same1.org_nodes;
          tenant_users = refl;
          platform_users = same2.platform_users ∙ same1.platform_users;
          roles = same2.roles ∙ same1.roles;
          role_permissions = same2.role_permissions ∙ same1.role_permissions;
          permissions = same2.permissions ∙ same1.permissions;
          tenant_module_access = same2.tenant_module_access ∙ same1.tenant_module_access;
          platform_assignments = same2.platform_assignments ∙ same1.platform_assignments;
          tenant_assignments = refl;
          next_id = le_trans same1.next_id same2.next_id;
        };
      }

  -- An update that returns has found no user and done nothing, or has edited the user that it found.
  pub update-eq-ok :
      (user_id : Uuid) (db : Db) {row : Option TenantUserDetailRow} {db' : Db}
      → update accepts_email sort_names s f actor actor_type auth rid user_id db ≡ ok (row, db')
      → ((find (is_user s user_id) db.tenant_users ≡ none) × (row ≡ none) × (db' ≡ db))
        ⊎ ((u : TenantUser) × (new : Option (List RoleAssignmentTuple)) × (find
                (is_user s user_id)
                db.tenant_users
              ≡ some u)
            × (f.roles ≡ sent new)
            × IsEdited user_id new u db db')
  unfolding update
  update-eq-ok user_id db {row} {db'} h =
      let (new, db1, h1, h2) =
        >>=-eq-ok (read_roles f.roles)
          (λ new.
            gets (λ (d : Db). find (is_user s user_id) d.tenant_users)
            >>= edit_found accepts_email sort_names s f actor actor_type auth rid user_id new)
          db h in
      let (is_sent, same) = read_roles-eq-ok f.roles db h1 in
      let h3 =
        subst
          (λ (d : Db).
            edit_found accepts_email sort_names s f actor actor_type auth rid user_id new
              (find (is_user s user_id) d.tenant_users) d
            ≡ ok (row, db'))
          same h2 in
      elim (Option-cases (find (is_user s user_id) db.tenant_users)) [
        | inl e ↦ let (is_none, kept) = pure-eq-ok (rw e at h3) in inl (e, is_none, kept)
        | inr (u, e) ↦ inr (u, new, e, is_sent, edit-IsEdited user_id new u db (rw e at h3))
      ]
