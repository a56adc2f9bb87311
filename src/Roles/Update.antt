-- ===== src/Roles/Update.antt =====
-- `RolesRepo.update` of src/admin_backend/repositories/roles.py.
use Prim.Native.String.{String}
use cortex_cm.Base.{
  ℕ, Bool, true, false, not, ◌&&◌, Option, none, some, List, [], ◌∷◌, ◌++◌, map, Text, codes,
  text_eq, length, leb, any, find, select, update_where, ◌==◌, if◌then◌else◌,
}
use cortex_cm.Errors.{
  admin, server, client_error, uncaught, internal_invariant_violation, super_admin_protected,
  role_archived, empty_patch, invalid_permission, audience_scope_mismatch, last_override_holder,
}
use cortex_cm.Models.Columns.{Uuid, Json, id, arr, Items, nil, cons}
use cortex_cm.Models.TenantUsers.{ActorUserType}
use cortex_cm.Models.Permissions.{Permission}
use cortex_cm.Models.Roles.{Role, RolePermission, RoleStatus, archived}
use cortex_cm.Models.AuditLogs.{AuditResultType}
use cortex_cm.Auth.Context.{AuthContext}
use cortex_cm.Database.Tables.{Db}
use cortex_cm.Database.Session.{Session}
use cortex_cm.Database.Txn.{Txn, pure, throw, gets, modify, throw_if, ◌>>=◌, ◌>>◌}
use cortex_cm.Audit.Details.{object, opt_text, build_success_details_for_update}
use cortex_cm.Audit.Emit.{emit_audit_event}
use cortex_cm.Models.Columns.{str}
use cortex_cm.Roles.Sets.{elem, distinct, minus}
use cortex_cm.Roles.Holders.{
  resolve_override_global_permission_id, count_override_global_active_holders,
}
use cortex_cm.Roles.Detail.{RoleDetail, is_global, is_tenant_audience, get_by_id, get_detail_by_id}

-- The body of the PATCH. The outer option says whether the field was sent.
pub record RoleUpdateRequest : Type 0 where
  pub name : Option (Option Text)
  pub description : Option (Option Text)
  pub permission_ids : Option (Option (List Uuid))

abbrev is_unsent {ℓ} : {A : Type ℓ} → Option A → Bool
is_unsent none = true
is_unsent (some _) = false

abbrev pub is_empty_patch : RoleUpdateRequest → Bool
is_empty_patch b = is_unsent b.name && is_unsent b.description && is_unsent b.permission_ids

abbrev pub super_admin : Text
super_admin = codes "SUPER_ADMIN"

abbrev pub is_archived : RoleStatus → Bool
is_archived archived = true
is_archived _ = false

-- The sets that the permission part of an edit works with.
pub record Diff : Type 0 where
  pub new : Option (List Uuid)
  pub current : List Uuid
  pub added : List Uuid
  pub removed : List Uuid

abbrev pub no_diff : Diff
no_diff = record { new = none; current = []; added = []; removed = [] }

abbrev pub diff_of : List Uuid → List Uuid → Diff
diff_of new current = record {
  new = some new;
  current = current;
  added = minus new current;
  removed = minus current new;
}

-- `set(raw_new_ids) if raw_new_ids else set()`
abbrev pub new_ids : Option (List Uuid) → List Uuid
new_ids none = []
new_ids (some ids) = distinct ids

abbrev pub exists : Db → Uuid → Bool
exists db i = any (λ (p : Permission). p.id == i) db.permissions

abbrev pub is_global_id : Db → Uuid → Bool
is_global_id db i = any (λ (p : Permission). p.id == i && is_global p.scope) db.permissions

abbrev pub grants_of : Uuid → Db → List Uuid
grants_of role_id db =
    map (λ (rp : RolePermission). rp.permission_id)
      (select (λ rp. rp.role_id == role_id) db.role_permissions)

module _ (s : Session) where
  -- Step 5d, the first layer: an edit that takes the permission from its role leaves a holder
  -- through another role.
  abbrev pub check_last_holder : Role → List Uuid → List Uuid → Txn (Unit {0})
  check_last_holder r current new = do
    override_id ← resolve_override_global_permission_id
    others ← gets (count_override_global_active_holders s (some r.id))
    throw_if (elem override_id current && not (elem override_id new) && others == 0)
        (client_error last_override_holder)

  -- Step 5.
  abbrev pub process_permissions : Role → Option (Option (List Uuid)) → Txn Diff
  process_permissions r none = pure no_diff
  process_permissions r (some raw) = do
    missing ← gets (λ db. any (λ i. not (exists db i)) (new_ids raw))
    throw_if missing (client_error invalid_permission)
    current ← gets (grants_of r.id)
    offending ← gets (λ db. any (is_global_id db) (minus (new_ids raw) current))
    throw_if (is_tenant_audience r.audience && offending) (client_error audience_scope_mismatch)
    check_last_holder r current (new_ids raw)
    pure (diff_of (new_ids raw) current)

  -- Step 9, the second layer.
  abbrev pub check_tripwire : Option (List Uuid) → Txn (Unit {0})
  check_tripwire none = pure tt
  check_tripwire (some new) = do
    _ ← resolve_override_global_permission_id
    holders ← gets (count_override_global_active_holders s none)
    throw_if (holders == 0) (admin (server internal_invariant_violation))

-- A null name counts as none.
abbrev pub new_name : Option (Option Text) → Text → Text
new_name none old = old
new_name (some none) old = old
new_name (some (some n)) old = n

abbrev new_description : Option (Option Text) → Option Text → Option Text
new_description none old = old
new_description (some d) old = d

-- The SET clause of step 6, with the trigger that stamps `updated_at`.
abbrev pub set_fields : RoleUpdateRequest → Uuid → ActorUserType → Db → Role → Role
set_fields b actor actor_type db r = record r {
  name = new_name b.name r.name;
  description = new_description b.description r.description;
  updated_at = db.now;
  updated_by_user_id = some actor;
  updated_by_user_type = some actor_type;
}

-- `ck_roles_name_length`
abbrev pub is_name : Text → Bool
is_name n = leb 1 (length n) && leb (length n) 100

abbrev pub is_removed : Uuid → List Uuid → RolePermission → Bool
is_removed role_id removed rp = rp.role_id == role_id && elem rp.permission_id removed

abbrev pub new_grant : Uuid → Uuid → ActorUserType → Db → Uuid → RolePermission
new_grant role_id actor actor_type db i = record {
  role_id = role_id;
  permission_id = i;
  created_at = db.now;
  created_by_user_id = some actor;
  created_by_user_type = some actor_type;
}

-- Steps 6 to 8.
abbrev pub write : RoleUpdateRequest → Uuid → ActorUserType → Role → Diff → Db → Db
write b actor actor_type r d db = record db {
  roles = update_where (λ x. x.id == r.id) (set_fields b actor actor_type db) db.roles;
  role_permissions =
      map (new_grant r.id actor actor_type db) d.added
      ++ select (λ rp. not (is_removed r.id d.removed rp)) db.role_permissions;
}

-- `sorted(ids, key=str)`: the texts of UUIDs stand in the order of their numbers.
abbrev insert_id : Uuid → List Uuid → List Uuid
insert_id i [] = i ∷ []
insert_id i (j ∷ js) = let rest = insert_id i js in if leb i j then i ∷ j ∷ js else j ∷ rest

abbrev sort_ids : List Uuid → List Uuid
sort_ids [] = []
sort_ids (i ∷ is) = insert_id i (sort_ids is)

abbrev code_of : Option Permission → Option Text
code_of none = none
code_of (some p) = some p.code

abbrev permission_item : Db → Uuid → Json
permission_item db i = object (
    ("permission_id", id i)
    ∷ ("permission_code", opt_text (code_of (find (λ p. p.id == i) db.permissions)))
    ∷ [])

abbrev items : List Json → Items
items [] = nil
items (j ∷ js) = cons j (items js)

abbrev permission_list : Db → List Uuid → List (String × Json)
permission_list db ids = ("permissions", arr (items (map (permission_item db) (sort_ids ids)))) ∷ []

abbrev name_field : Option (Option Text) → Text → List (String × Json)
name_field none shown = []
name_field (some none) shown = []
name_field (some (some n)) shown = ("name", str shown) ∷ []

abbrev description_field : Option (Option Text) → Option Text → List (String × Json)
description_field none shown = []
description_field (some d) shown = ("description", opt_text shown) ∷ []

abbrev permissions_field : Db → Option (List Uuid) → List Uuid → List (String × Json)
permissions_field db none ids = []
permissions_field db (some new) ids = permission_list db ids

abbrev or_empty : Option (List Uuid) → List Uuid
or_empty none = []
or_empty (some ids) = ids

-- The `details` of the audit row; `r` is the role as it was.
abbrev update_details : RoleUpdateRequest → Role → Diff → Db → Json
update_details b r d db =
    build_success_details_for_update
      (name_field b.name r.name
        ++ (description_field b.description r.description ++ permissions_field db d.new d.current))
      (name_field b.name (new_name b.name r.name)
        ++ (description_field b.description (new_description b.description r.description)
            ++ permissions_field db d.new (or_empty d.new)))

module _ (sort_names : List Text → List Text) (s : Session) where
  -- `if auth is not None and request_id is not None and detail is not None`
  abbrev pub emit_updated :
      RoleUpdateRequest
      → Role
      → Diff
      → Option AuthContext
      → Option Uuid
      → Option RoleDetail
      → Txn (Unit {0})
  emit_updated b r d none none detail = pure tt
  emit_updated b r d (some a) (some rid) (some detail) = do
    details ← gets (update_details b r d)
    emit_audit_event sort_names s a (record {
      action = codes "UPDATE";
      action_label = none;
      resource_type = codes "ROLE";
      resource_id = some r.id;
      resource_label = some (new_name b.name r.name);
      resource_subtype = none;
      result_type = AuditResultType.success;
      result_label = none;
      details = details;
      tenant_id = none;
      tenant_name = none;
      request_id = rid;
      route_to_platform = true;
    })
  emit_updated b r d _ _ _ = throw uncaught

module _ (sort_names : List Text → List Text) (display : Text → Text → Option Text)
    (order_by : List Permission → List Permission) (s : Session) (b : RoleUpdateRequest)
    (actor : Uuid) (actor_type : ActorUserType) (auth : Option AuthContext)
    (rid : Option Uuid) where
  abbrev pub edit : Role → Txn (Option RoleDetail)
  edit r = do
    d ← process_permissions s r b.permission_ids
    throw_if (not (is_name (new_name b.name r.name))) uncaught
    modify (write b actor actor_type r d)
    check_tripwire s d.new
    detail ← gets (get_detail_by_id display order_by s r.id none)
    emit_updated sort_names s b r d auth rid detail
    pure detail

  abbrev pub update_found : Option (Role × ℕ) → Txn (Option RoleDetail)
  update_found none = pure none
  update_found (some (r, _)) =
      throw_if (text_eq r.code super_admin) (client_error super_admin_protected)
      >> (throw_if (is_archived r.status) (client_error role_archived)
          >> (throw_if (is_empty_patch b) (client_error empty_patch) >> edit r))

  unfoldable pub update : Uuid → Txn (Option RoleDetail)
  update role_id = do found ← gets (get_by_id s role_id none); update_found found
