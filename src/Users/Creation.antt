-- ===== src/Users/Creation.antt =====
-- What `TenantUsersRepo.create` of src/admin_backend/repositories/tenant_users.py has checked and
-- written when it returns.
use cortex_cm.Base.{
  ◌≡◌, sym, ◌∙◌, ◌⊎◌, inl, inr, ◌<◌, ◌≤◌, suc, Bool, true, false, not, ◌&&◌, Option, none, some,
  List, [], ◌∷◌, Text, arith, any, Bool-cases, In_of_any, and-split, ==_iff, ◌==◌,
}
use mathlib.Core.Path.{subst}
use cortex_cm.Result.{ok}
use cortex_cm.Errors.{client_error, uncaught, invalid_org_node, duplicate_tenant_user_email}
use cortex_cm.Models.Columns.{Uuid}
use cortex_cm.Models.TenantUsers.{TenantUser, ActorUserType}
use cortex_cm.Auth.Context.{AuthContext}
use cortex_cm.Database.Tables.{Db}
use cortex_cm.Database.Session.{Session, admits}
use cortex_cm.Database.Txn.{Txn, throw_if, ◌>>=◌, ◌>>◌, >>=-eq-ok, after-throw_if, pure-eq-ok}
use cortex_cm.Users.Pairs.{RoleAssignmentTuple, set_of}
use cortex_cm.Users.Detail.{TenantUserDetailRow, get_by_id}
use cortex_cm.Users.Validate.{
  validate_roles, raise_if_email_taken, has_email, is_live_node, tenant_exists, is_visible_tenant,
}
use cortex_cm.Users.Diff.{apply_role_assignments_diff}
use cortex_cm.Users.Report.{emit_paired, emit_paired-SameTables}
use cortex_cm.Users.Create.{
  role_ids, org_node_ids, is_full_name, new_user, add_user, insert_user, created_event,
  respond_created, create_visible, create,
}
use cortex_cm.Users.Reconciled.{apply_role_assignments_diff-same}
use cortex_cm.Users.Checks.{validate_roles-same}

module _ (accepts_email : Text → Bool) (sort_names : List Text → List Text) (s : Session) (t : Uuid)
    (email full_name : Text) (pairs : List RoleAssignmentTuple) (actor : Uuid)
    (actor_type : ActorUserType) (auth : Option AuthContext) (rid : Option Uuid) where
  -- A creation that has gone through.
  pub record IsCreated (db db' : Db) : Type 0 where
    pub seen : admits s t ≡ true
    pub free : any (has_email s t email none) db.tenant_users ≡ false
    pub users : db'.tenant_users ≡ new_user t email full_name actor actor_type db ∷ db.tenant_users
    pub next_id : db.next_id < db'.next_id

  visible_seen : (db : Db) → any (is_visible_tenant s t) db.tenants ≡ true → admits s t ≡ true
  visible_seen db h =
      let (x, _, e) = In_of_any (is_visible_tenant s t) db.tenants h in
      let (seen, is_t) = and-split (admits s x.id) (x.id == t) e in
      let same : x.id ≡ t = (==_iff x.id t).0 is_t in
      subst (λ (i : Uuid). admits s i ≡ true) same seen

  -- The statements of a creation behind the checks.
  abbrev granted : TenantUser → Txn (Option TenantUserDetailRow)
  granted u =
      apply_role_assignments_diff s t u.id actor actor_type [] (set_of pairs)
      >> respond_created accepts_email sort_names s t email full_name pairs actor actor_type auth
          rid u

  abbrev inserted : Txn (Option TenantUserDetailRow)
  inserted =
      insert_user accepts_email sort_names s t email full_name pairs actor actor_type auth rid
      >>= granted

  abbrev named : Txn (Option TenantUserDetailRow)
  named = throw_if (not (accepts_email email && is_full_name full_name)) uncaught >> inserted

  respond-eq-ok :
      (u : TenantUser) (db : Db) {row : Option TenantUserDetailRow} {db' : Db}
      → respond_created accepts_email sort_names s t email full_name pairs actor actor_type auth rid
          u db
        ≡ ok (row, db')
      → (db'.tenant_users ≡ db.tenant_users) × (db.next_id ≤ db'.next_id)
  respond-eq-ok u db {row} {db'} h =
      let (_, db1, h1, h2) =
        >>=-eq-ok (emit_paired sort_names s (created_event s pairs) auth rid (some u))
          (λ _. get_by_id s u.id) db h in
      let same =
        emit_paired-SameTables sort_names s (created_event s pairs) auth rid (some u) db h1 in
      let (_, last) = pure-eq-ok h2 in
      subst (λ (d : Db). (d.tenant_users ≡ db.tenant_users) × (db.next_id ≤ d.next_id)) (sym last)
        (same.tenant_users, same.next_id)

  visible-IsCreated :
      (db : Db) {row : Option TenantUserDetailRow} {db' : Db}
      → admits s t ≡ true
      → create_visible accepts_email sort_names s t email full_name pairs actor actor_type auth rid
          true db
        ≡ ok (row, db')
      → IsCreated db db'
  visible-IsCreated db {row} {db'} seen h =
      let u = new_user t email full_name actor actor_type db in
      let db1 = add_user u db in
      let (_, h1) =
        after-throw_if (any (λ (i : Uuid). not (is_live_node s t db i)) (org_node_ids pairs))
          (client_error invalid_org_node) (raise_if_email_taken s t email none >> named) db h in
      let (free, h2) =
        after-throw_if (any (has_email s t email none) db.tenant_users)
          (client_error duplicate_tenant_user_email) named db h1 in
      let (_, h3) =
        after-throw_if (not (accepts_email email && is_full_name full_name)) uncaught inserted db
          h2 in
      let (_, db2, h4, h5) =
        >>=-eq-ok (apply_role_assignments_diff s t u.id actor actor_type [] (set_of pairs))
          (λ _.
            respond_created accepts_email sort_names s t email full_name pairs actor actor_type auth
              rid u)
          db1 h3 in
      let same =
        apply_role_assignments_diff-same s t u.id actor actor_type [] (set_of pairs) db1 h4 in
      let (users, later) = respond-eq-ok u db2 h5 in
      let sooner : suc db.next_id ≤ db2.next_id = same.next_id in
      record { seen = seen; free = free; users = users ∙ same.tenant_users; next_id = omega arith }

  -- A creation that returns has not seen the tenant and done nothing, or has gone through.
  pub create-eq-ok :
      (db : Db) {row : Option TenantUserDetailRow} {db' : Db}
      → create accepts_email sort_names s t email full_name pairs actor actor_type auth rid db
        ≡ ok (row, db')
      → ((any (is_visible_tenant s t) db.tenants ≡ false) × (row ≡ none) × (db' ≡ db))
        ⊎ IsCreated db db'
  unfolding create
  create-eq-ok db {row} {db'} h =
      let rest =
        create_visible accepts_email sort_names s t email full_name pairs actor actor_type auth
          rid in
      let (_, db1, h1, h2) =
        >>=-eq-ok (validate_roles (role_ids pairs)) (λ _. tenant_exists s t >>= rest) db h in
      let h3 =
        subst (λ (d : Db). rest (any (is_visible_tenant s t) d.tenants) d ≡ ok (row, db'))
          (validate_roles-same (role_ids pairs) db h1) h2 in
      elim (Bool-cases (any (is_visible_tenant s t) db.tenants)) [
        | inl e ↦ inr (visible-IsCreated db (visible_seen db e) (rw e at h3))
        | inr e ↦ let (is_none, same) = pure-eq-ok (rw e at h3) in inl (e, is_none, same)
      ]
