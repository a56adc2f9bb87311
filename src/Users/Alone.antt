-- ===== src/Users/Alone.antt =====
-- `TenantUsersRepo.update` of src/admin_backend/repositories/tenant_users.py, run alone: each of its
-- steps, and the error that it does not end in.
use cortex_cm.Base.{
  ◌≡◌, sym, ◌∙◌, inl, inr, Bool, true, false, not, Option, none, some, List, Text, any, find,
  Option-cases, ==_iff, and-split, find_sound, find-In,
}
use mathlib.Core.Path.{subst}
use cortex_cm.Result.{raise}
use cortex_cm.Errors.{
  client_error, uncaught, invalid_role, invalid_role_audience, invalid_org_node,
  duplicate_tenant_user_email,
}
use cortex_cm.Models.Columns.{Uuid}
use cortex_cm.Models.TenantUsers.{TenantUser, ActorUserType}
use cortex_cm.Auth.Context.{AuthContext}
use cortex_cm.Database.Tables.{Db}
use cortex_cm.Database.Session.{Session, admits}
use cortex_cm.Database.Txn.{pure, gets, modify, throw_if, ◌>>=◌, >>=-ne-raise}
use cortex_cm.Audit.Emit.{Event}
use cortex_cm.Audit.Keeps.{emit_audit_event-eq-raise}
use cortex_cm.Users.Pairs.{RoleAssignmentTuple, set_of}
use cortex_cm.Users.Detail.{is_user, detail_of}
use cortex_cm.Users.Validate.{validate_roles, is_live_role, is_tenant_role, is_live_node, has_email}
use cortex_cm.Users.Diff.{select_current, apply_role_assignments_diff}
use cortex_cm.Users.Report.{emit_paired}
use cortex_cm.Users.Create.{role_ids, org_node_ids}
use cortex_cm.Users.Update.{
  Fields, read_roles, validate_anchors, validate_email, is_touched, updated_event, reconcile,
  is_accepted, write_fields, edit, edit_found, update,
}
use cortex_cm.Users.Tenancy.{IsOfTenant}
use cortex_cm.Users.Conflict.{conflict, throw_if-ne-raise, apply_role_assignments_diff-ne-conflict}
use cortex_cm.Users.Checks.{read_roles-eq-ok, validate_anchors-same, validate_email-eq-ok}
use cortex_cm.Users.Editing.{users_after, write_fields-eq-ok, reply, settled_part, written, checked}
use cortex_cm.Users.Effect.{IsSameTenant}

emit_paired-ne-conflict :
    (sort_names : List Text → List Text) (s : Session) {Row : Type 0}
    (event : Row → Db → Uuid → Event) (a : Option AuthContext) (rid : Option Uuid)
    (row : Option Row) (db : Db)
    → ¬ (emit_paired sort_names s event a rid row db ≡ raise conflict)
emit_paired-ne-conflict sort_names s event none none row db h = cc
emit_paired-ne-conflict sort_names s event (some a) (some rid) (some row) db h =
    let e = emit_audit_event-eq-raise sort_names s a (event row db rid) db h in cc
emit_paired-ne-conflict sort_names s event none (some rid) row db h = cc
emit_paired-ne-conflict sort_names s event (some a) none row db h = cc
emit_paired-ne-conflict sort_names s event (some a) (some rid) none db h = cc

read_roles-ne-conflict :
    (raw : Option (Option (List RoleAssignmentTuple))) (db : Db)
    → ¬ (read_roles raw db ≡ raise conflict)
read_roles-ne-conflict none db h = cc
read_roles-ne-conflict (some none) db h = cc
read_roles-ne-conflict (some (some pairs)) db h =
    >>=-ne-raise (validate_roles ids) (λ _. pure (some pairs)) db conflict
      (λ k.
        >>=-ne-raise
          (throw_if (any (λ (i : Uuid). not (is_live_role db i)) ids) (client_error invalid_role))
          (λ _. gets (λ (d : Db). any (λ (i : Uuid). not (is_tenant_role d i)) ids) >>= λ b.
            throw_if b (client_error invalid_role_audience))
          db conflict
          (throw_if-ne-raise (any (λ (i : Uuid). not (is_live_role db i)) ids)
            (client_error invalid_role) conflict db (λ e. cc))
          (λ _ between _.
            throw_if-ne-raise (any (λ (i : Uuid). not (is_tenant_role between i)) ids)
              (client_error invalid_role_audience) conflict between (λ e. cc))
          k)
      (λ _ between _ k. cc) h
  where
    ids : List Uuid
    ids = role_ids pairs

module _ (s : Session) (t user_id : Uuid) where
  validate_anchors-ne-conflict :
      (new : Option (List RoleAssignmentTuple)) (db : Db)
      → ¬ (validate_anchors s t new db ≡ raise conflict)
  validate_anchors-ne-conflict none db h = cc
  validate_anchors-ne-conflict (some pairs) db h =
      throw_if-ne-raise (any (λ (i : Uuid). not (is_live_node s t db i)) (org_node_ids pairs))
        (client_error invalid_org_node) conflict db (λ e. cc) h

  validate_email-ne-conflict :
      (raw : Option (Option Text)) (db : Db)
      → ¬ (validate_email s t user_id raw db ≡ raise conflict)
  validate_email-ne-conflict none db h = cc
  validate_email-ne-conflict (some none) db h = cc
  validate_email-ne-conflict (some (some email)) db h =
      throw_if-ne-raise (any (has_email s t email (some user_id)) db.tenant_users)
        (client_error duplicate_tenant_user_email) conflict db (λ e. cc) h

  reconcile-ne-conflict :
      (actor : Uuid) (actor_type : ActorUserType) (new : Option (List RoleAssignmentTuple))
      (db : Db)
      → admits s t ≡ true
      → IsOfTenant s t user_id actor actor_type db.tenant_user_role_assignments
      → ¬ (reconcile s t user_id actor actor_type new db ≡ raise conflict)
  reconcile-ne-conflict actor actor_type none db seen own h = cc
  reconcile-ne-conflict actor actor_type (some pairs) db seen own h =
      let current = select_current s user_id db in
      >>=-ne-raise (apply_role_assignments_diff s t user_id actor actor_type current (set_of pairs))
        (λ _. pure (some (current, set_of pairs))) db conflict
        (apply_role_assignments_diff-ne-conflict s t user_id actor actor_type pairs db seen own)
        (λ _ between _ k. cc) h

module _ (accepts_email : Text → Bool) (sort_names : List Text → List Text) (s : Session)
    (f : Fields) (actor : Uuid) (actor_type : ActorUserType) (auth : Option AuthContext)
    (rid : Option Uuid) where
  write_fields-ne-conflict :
      (user_id : Uuid) (touched : Bool) (db : Db)
      → ¬ (
          write_fields accepts_email sort_names s f actor actor_type auth rid user_id touched db
          ≡ raise conflict)
  write_fields-ne-conflict user_id false db h = cc
  write_fields-ne-conflict user_id true db h =
      let bad = not (is_accepted accepts_email sort_names s f actor actor_type auth rid) in
      >>=-ne-raise (throw_if bad uncaught)
        (λ _. modify (λ db. record db {
          tenant_users =
              users_after accepts_email sort_names s f actor actor_type auth rid user_id true db;
        }))
        db conflict (throw_if-ne-raise bad uncaught conflict db (λ e. cc)) (λ _ between _ k. cc) h

  edit-ne-conflict :
      (user_id : Uuid) (new : Option (List RoleAssignmentTuple)) (u : TenantUser) (db : Db)
      → admits s u.tenant_id ≡ true
      → IsOfTenant s u.tenant_id user_id actor actor_type db.tenant_user_role_assignments
      → ¬ (
          edit accepts_email sort_names s f actor actor_type auth rid user_id new u db
          ≡ raise conflict)
  edit-ne-conflict user_id new u db seen own h =
      let t = u.tenant_id in
      let touched = is_touched f new in
      let answer = reply accepts_email sort_names s f actor actor_type auth rid in
      let settle = settled_part accepts_email sort_names s f actor actor_type auth rid in
      let write = written accepts_email sort_names s f actor actor_type auth rid in
      let check = checked accepts_email sort_names s f actor actor_type auth rid in
      >>=-ne-raise (validate_anchors s t new) (λ _. check user_id new u) db conflict
        (validate_anchors-ne-conflict s t user_id new db)
        (λ _ a at_a.
          let same_a = validate_anchors-same s t new db at_a in
          subst (λ (d : Db). ¬ (check user_id new u d ≡ raise conflict)) (sym same_a)
            (>>=-ne-raise (validate_email s t user_id f.email) (λ _. write user_id new u) db
              conflict (validate_email-ne-conflict s t user_id f.email db)
              (λ _ b at_b.
                let same_b = (validate_email-eq-ok s t user_id f.email db at_b).1 in
                subst (λ (d : Db). ¬ (write user_id new u d ≡ raise conflict)) (sym same_b)
                  (>>=-ne-raise
                    (write_fields accepts_email sort_names s f actor actor_type auth rid user_id
                      touched)
                    (λ _. settle user_id new u) db conflict
                    (write_fields-ne-conflict user_id touched db)
                    (λ _ c at_c.
                      subst (λ (d : Db). ¬ (settle user_id new u d ≡ raise conflict))
                        (sym (
                          write_fields-eq-ok accepts_email sort_names s f actor actor_type auth rid
                            user_id touched db at_c))
                        (settled-ne-conflict user_id new u touched db seen own))))))
        h
    where
      settled-ne-conflict :
          (user_id : Uuid) (new : Option (List RoleAssignmentTuple)) (u : TenantUser)
          (touched : Bool) (db : Db)
          → admits s u.tenant_id ≡ true
          → IsOfTenant s u.tenant_id user_id actor actor_type db.tenant_user_role_assignments
          → ¬ (
              settled_part accepts_email sort_names s f actor actor_type auth rid user_id new u
                (record db {
                  tenant_users =
                      users_after accepts_email sort_names s f actor actor_type auth rid user_id
                        touched db;
                })
              ≡ raise conflict)
      settled-ne-conflict user_id new u touched db seen own h =
          let db1 : Db = record db {
            tenant_users =
                users_after accepts_email sort_names s f actor actor_type auth rid user_id touched
                  db;
          } in
          >>=-ne-raise (reconcile s u.tenant_id user_id actor actor_type new)
            (reply accepts_email sort_names s f actor actor_type auth rid user_id u) db1 conflict
            (reconcile-ne-conflict s u.tenant_id user_id actor actor_type new db1 seen own)
            (λ roles between _ k.
              let row = detail_of s between (find (is_user s user_id) between.tenant_users) in
              >>=-ne-raise (emit_paired sort_names s (updated_event s f u roles) auth rid row)
                (λ _. pure row) between conflict
                (emit_paired-ne-conflict sort_names s (updated_event s f u roles) auth rid row
                  between)
                (λ _ _ _ q. cc) k)
            h

  -- An update that runs alone does not end in `ROLE_ASSIGNMENT_CONFLICT`, whatever its request, its
  -- session and the rows are, if each assignment is of the tenant of its user: repeated pairs in the
  -- request are inserted once, and a pair that is active already is not inserted.
  pub update-ne-conflict :
      (user_id : Uuid) (db : Db)
      → IsSameTenant db
      → ¬ (
          update accepts_email sort_names s f actor actor_type auth rid user_id db ≡ raise conflict)
  unfolding update
  update-ne-conflict user_id db same_tenant h =
      let found_part = edit_found accepts_email sort_names s f actor actor_type auth rid user_id in
      >>=-ne-raise (read_roles f.roles)
        (λ new. gets (λ (d : Db). find (is_user s user_id) d.tenant_users) >>= found_part new) db
        conflict (read_roles-ne-conflict f.roles db)
        (λ new between done.
          let (_, same) = read_roles-eq-ok f.roles db done in
          subst
            (λ (d : Db).
              ¬ (found_part new (find (is_user s user_id) d.tenant_users) d ≡ raise conflict))
            (sym same) (visible new))
        h
    where
      visible :
          (new : Option (List RoleAssignmentTuple))
          → ¬ (
              edit_found accepts_email sort_names s f actor actor_type auth rid user_id new
                (find (is_user s user_id) db.tenant_users)
                db
              ≡ raise conflict)
      visible new h = elim (Option-cases (find (is_user s user_id) db.tenant_users)) [
        | inl e ↦ let k = rw e at h in cc
        | inr (u, e) ↦
            let (seen, is_u) =
              and-split (admits s u.tenant_id) _
                (find_sound (is_user s user_id) db.tenant_users e) in
            edit-ne-conflict user_id new u db seen
              (λ g at is_g.
                same_tenant g u at (find-In (is_user s user_id) db.tenant_users e)
                  ((==_iff u.id user_id).0 is_u ∙ sym is_g))
              (rw e at h)
      ]
