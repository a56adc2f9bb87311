-- ===== src/Users/Create.antt =====
-- `TenantUsersRepo.create` of src/admin_backend/repositories/tenant_users.py.
use Prim.Native.String.{String}
use cortex_cm.Base.{
  suc, Bool, true, false, not, ◌&&◌, Option, none, some, List, [], ◌∷◌, ◌++◌, map, Text, codes,
  length, leb,
}
use cortex_cm.Errors.{uncaught}
use cortex_cm.Models.Columns.{Uuid, Json, id, str}
use cortex_cm.Models.TenantUsers.{TenantUser, TenantUserStatus, ActorUserType}
use cortex_cm.Auth.Context.{AuthContext}
use cortex_cm.Database.Tables.{Db}
use cortex_cm.Database.Session.{Session}
use cortex_cm.Database.Txn.{Txn, pure, gets, modify, throw_if, ◌>>=◌, ◌>>◌}
use cortex_cm.Audit.Details.{build_success_details_for_create}
use cortex_cm.Audit.Emit.{Event}
use cortex_cm.Users.Pairs.{RoleAssignmentTuple, set_of}
use cortex_cm.Users.Detail.{TenantUserDetailRow, get_by_id}
use cortex_cm.Users.Validate.{
  validate_roles, validate_org_nodes, raise_if_email_taken, tenant_exists, resolve_role_labels,
}
use cortex_cm.Users.Diff.{apply_role_assignments_diff}
use cortex_cm.Users.Report.{user_event, emit_paired}

abbrev pub role_ids : List RoleAssignmentTuple → List Uuid
role_ids pairs = map (λ (a : RoleAssignmentTuple). a.role_id) pairs

abbrev pub org_node_ids : List RoleAssignmentTuple → List Uuid
org_node_ids pairs = map (λ (a : RoleAssignmentTuple). a.org_node_id) pairs

-- `ck_tenant_users_full_name_length`
abbrev pub is_full_name : Text → Bool
is_full_name name = leb 1 (length name) && leb (length name) 200

abbrev pub new_user : Uuid → Text → Text → Uuid → ActorUserType → Db → TenantUser
new_user t email full_name actor actor_type db = record {
  id = db.next_id;
  tenant_id = t;
  auth0_sub = none;
  email = email;
  full_name = full_name;
  status = TenantUserStatus.invited;
  invited_at = some db.now;
  invitation_accepted_at = none;
  suspended_at = none;
  suspended_by_user_id = none;
  suspended_by_user_type = none;
  created_at = db.now;
  created_by_user_id = some actor;
  created_by_user_type = some actor_type;
  updated_at = db.now;
  updated_by_user_id = some actor;
  updated_by_user_type = some actor_type;
}

abbrev pub add_user : TenantUser → Db → Db
add_user u db = record db { tenant_users = u ∷ db.tenant_users; next_id = suc db.next_id }

abbrev snapshot : TenantUser → List (String × Json)
snapshot u =
    ("id", id u.id)
    ∷ ("tenant_id", id u.tenant_id)
    ∷ ("email", str u.email)
    ∷ ("full_name", str u.full_name)
    ∷ ("status", str (codes "INVITED"))
    ∷ []

abbrev pub created_event : Session → List RoleAssignmentTuple → TenantUser → Db → Uuid → Event
created_event s pairs u db rid =
    user_event s (codes "CREATE") u.id u.full_name
      (build_success_details_for_create (snapshot u ++ resolve_role_labels s pairs db)) u.tenant_id
      db rid

-- `accepts_email` is the database's regular expression on emails, with `LOWER`. The tenant is
-- visible, so the check on emails sees every row that `uq_tenant_users_tenant_email` compares.
module _ (accepts_email : Text → Bool) (sort_names : List Text → List Text) (s : Session) (t : Uuid)
    (email full_name : Text) (pairs : List RoleAssignmentTuple) (actor : Uuid)
    (actor_type : ActorUserType) (auth : Option AuthContext) (rid : Option Uuid) where
  abbrev pub insert_user : Txn TenantUser
  insert_user = do
    u ← gets (new_user t email full_name actor actor_type)
    modify (add_user u)
    pure u

  abbrev pub respond_created : TenantUser → Txn (Option TenantUserDetailRow)
  respond_created u = do
    emit_paired sort_names s (created_event s pairs) auth rid (some u)
    get_by_id s u.id

  abbrev pub create_visible : Bool → Txn (Option TenantUserDetailRow)
  create_visible false = pure none
  create_visible true = do
    validate_org_nodes s t (org_node_ids pairs)
    raise_if_email_taken s t email none
    throw_if (not (accepts_email email && is_full_name full_name)) uncaught
    u ← insert_user
    apply_role_assignments_diff s t u.id actor actor_type [] (set_of pairs)
    respond_created u

  unfoldable pub create : Txn (Option TenantUserDetailRow)
  create = do validate_roles (role_ids pairs); visible ← tenant_exists s t; create_visible visible
