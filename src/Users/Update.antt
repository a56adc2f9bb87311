-- ===== src/Users/Update.antt =====
-- `TenantUsersRepo.update` of src/admin_backend/repositories/tenant_users.py.
use Prim.Native.String.{String}
use cortex_cm.Base.{
  Bool, true, false, not, ◌&&◌, ◌||◌, is_some, Option, none, some, List, [], ◌∷◌, ◌++◌, Text, codes,
  find, update_where,
}
use cortex_cm.Errors.{uncaught}
use cortex_cm.Models.Columns.{Uuid, Json, str}
use cortex_cm.Models.TenantUsers.{TenantUser, ActorUserType}
use cortex_cm.Auth.Context.{AuthContext}
use cortex_cm.Database.Tables.{Db}
use cortex_cm.Database.Session.{Session}
use cortex_cm.Database.Txn.{Txn, pure, throw, gets, modify, throw_if, ◌>>=◌, ◌>>◌}
use cortex_cm.Audit.Details.{build_success_details_for_update}
use cortex_cm.Audit.Emit.{Event}
use cortex_cm.Users.Pairs.{RoleAssignmentTuple, set_of, sorted}
use cortex_cm.Users.Detail.{TenantUserDetailRow, is_user, get_by_id}
use cortex_cm.Users.Validate.{
  validate_roles, validate_org_nodes, raise_if_email_taken, resolve_role_labels,
}
use cortex_cm.Users.Diff.{select_current, apply_role_assignments_diff}
use cortex_cm.Users.Report.{user_event, emit_paired}
use cortex_cm.Users.Create.{role_ids, org_node_ids, is_full_name}

-- `fields`: what the request has set, a null included.
pub record Fields : Type 0 where
  pub full_name : Option (Option Text)
  pub email : Option (Option Text)
  pub roles : Option (Option (List RoleAssignmentTuple))

-- A null is no list: its iteration raises a `TypeError`.
abbrev pub read_roles :
    Option (Option (List RoleAssignmentTuple)) → Txn (Option (List RoleAssignmentTuple))
read_roles none = pure none
read_roles (some none) = throw uncaught
read_roles (some (some pairs)) = validate_roles (role_ids pairs) >> pure (some pairs)

abbrev pub validate_anchors : Session → Uuid → Option (List RoleAssignmentTuple) → Txn (Unit {0})
validate_anchors s t none = pure tt
validate_anchors s t (some pairs) = validate_org_nodes s t (org_node_ids pairs)

-- `email = NULL` is true of no row.
abbrev pub validate_email : Session → Uuid → Uuid → Option (Option Text) → Txn (Unit {0})
validate_email s t user_id none = pure tt
validate_email s t user_id (some none) = pure tt
validate_email s t user_id (some (some email)) = raise_if_email_taken s t email (some user_id)

abbrev pub is_touched : Fields → Option (List RoleAssignmentTuple) → Bool
is_touched f new = is_some f.full_name || (is_some f.email || is_some new)

abbrev passes : (Text → Bool) → Option (Option Text) → Bool
passes p none = true
passes p (some none) = false
passes p (some (some t)) = p t

abbrev pub value_or : Option (Option Text) → Text → Text
value_or (some (some new)) old = new
value_or _ old = old

-- The SET clause, with the trigger that stamps `updated_at`.
abbrev pub set_fields : Fields → Uuid → ActorUserType → Db → TenantUser → TenantUser
set_fields f actor actor_type db u = record u {
  full_name = value_or f.full_name u.full_name;
  email = value_or f.email u.email;
  updated_at = db.now;
  updated_by_user_id = some actor;
  updated_by_user_type = some actor_type;
}

abbrev text_entry : String → Option (Option Text) → Text → List (String × Json)
text_entry key none shown = []
text_entry key (some _) shown = (key, str shown) ∷ []

-- The pairs before and after, where the request has roles.
abbrev pub Reconciled : Type 0
Reconciled = Option (List RoleAssignmentTuple × List RoleAssignmentTuple)

abbrev before_roles : Session → Reconciled → Db → List (String × Json)
before_roles s none db = []
before_roles s (some (before, _)) db = resolve_role_labels s (sorted before) db

abbrev after_roles : Session → Reconciled → Db → List (String × Json)
after_roles s none db = []
after_roles s (some (_, after)) db = resolve_role_labels s (sorted after) db

abbrev pub updated_event :
    Session → Fields → TenantUser → Reconciled → TenantUserDetailRow → Db → Uuid → Event
updated_event s f old roles row db rid =
    user_event s (codes "UPDATE") old.id row.user.full_name
      (build_success_details_for_update
        (text_entry "full_name" f.full_name old.full_name
          ++ (text_entry "email" f.email old.email ++ before_roles s roles db))
        (text_entry "full_name" f.full_name row.user.full_name
          ++ (text_entry "email" f.email row.user.email ++ after_roles s roles db)))
      old.tenant_id db rid

abbrev pub reconcile :
    Session
    → Uuid
    → Uuid
    → Uuid
    → ActorUserType
    → Option (List RoleAssignmentTuple)
    → Txn Reconciled
reconcile s t user_id actor actor_type none = pure none
reconcile s t user_id actor actor_type (some pairs) = do
  current ← gets (select_current s user_id)
  apply_role_assignments_diff s t user_id actor actor_type current (set_of pairs)
  pure (some (current, set_of pairs))

module _ (accepts_email : Text → Bool) (sort_names : List Text → List Text) (s : Session)
    (f : Fields) (actor : Uuid) (actor_type : ActorUserType) (auth : Option AuthContext)
    (rid : Option Uuid) where
  abbrev pub is_accepted : Bool
  is_accepted = passes is_full_name f.full_name && passes accepts_email f.email

  -- The UPDATE of `tenant_users`, of the columns or of the actor alone.
  abbrev pub write_fields : Uuid → Bool → Txn (Unit {0})
  write_fields user_id false = pure tt
  write_fields user_id true = do
    throw_if (not is_accepted) uncaught
    modify (λ db. record db {
      tenant_users =
          update_where (is_user s user_id) (set_fields f actor actor_type db) db.tenant_users;
    })

  abbrev pub edit :
      Uuid → Option (List RoleAssignmentTuple) → TenantUser → Txn (Option TenantUserDetailRow)
  edit user_id new u = do
    validate_anchors s u.tenant_id new
    validate_email s u.tenant_id user_id f.email
    write_fields user_id (is_touched f new)
    roles ← reconcile s u.tenant_id user_id actor actor_type new
    row ← get_by_id s user_id
    emit_paired sort_names s (updated_event s f u roles) auth rid row
    pure row

  abbrev pub edit_found :
      Uuid
      → Option (List RoleAssignmentTuple)
      → Option TenantUser
      → Txn (Option TenantUserDetailRow)
  edit_found user_id new none = pure none
  edit_found user_id new (some u) = edit user_id new u

  unfoldable pub update : Uuid → Txn (Option TenantUserDetailRow)
  update user_id = do
    new ← read_roles f.roles
    found ← gets (λ db. find (is_user s user_id) db.tenant_users)
    edit_found user_id new found
