-- ===== src/Users/Transition.antt =====
-- `TenantUsersRepo.transition` of src/admin_backend/repositories/tenant_users.py.
use cortex_cm.Base.{
  Bool, true, false, Option, none, some, List, Text, codes, find, update_where, if◌then◌else◌,
}
use cortex_cm.Models.Columns.{Uuid}
use cortex_cm.Models.TenantUsers.{
  TenantUser, TenantUserStatus, ActorUserType, invited, active, suspended,
}
use cortex_cm.Auth.Context.{AuthContext}
use cortex_cm.Database.Tables.{Db}
use cortex_cm.Database.Session.{Session}
use cortex_cm.Database.Txn.{Txn, pure, gets, modify, ◌>>=◌, ◌>>◌}
use cortex_cm.Audit.Details.{build_success_details_for_transition}
use cortex_cm.Audit.Emit.{Event}
use cortex_cm.Tenants.Transition.{
  Target, to_suspended, to_active, TransitionResult, moved, not_found, invalid_state,
}
use cortex_cm.Users.Detail.{TenantUserDetailRow, is_user, get_by_id}
use cortex_cm.Users.Report.{user_event, emit_paired}

-- `current.status in allowed_sources[target_status]`
abbrev pub is_source : Target → TenantUserStatus → Bool
is_source to_suspended active = true
is_source to_active suspended = true
is_source _ _ = false

-- `TenantUserStatus.value`
abbrev status_value : TenantUserStatus → Text
status_value invited = codes "INVITED"
status_value active = codes "ACTIVE"
status_value suspended = codes "SUSPENDED"

abbrev target_status : Target → TenantUserStatus
target_status to_suspended = suspended
target_status to_active = active

abbrev action_code : Target → Text
action_code to_suspended = codes "SUSPEND"
action_code to_active = codes "ACTIVATE"

-- The two UPDATEs, with the trigger that stamps `updated_at`.
abbrev pub set_target : Target → Uuid → ActorUserType → Db → TenantUser → TenantUser
set_target to_suspended actor actor_type db u = record u {
  status = suspended;
  suspended_at = some db.now;
  suspended_by_user_id = some actor;
  suspended_by_user_type = some actor_type;
  updated_at = db.now;
  updated_by_user_id = some actor;
  updated_by_user_type = some actor_type;
}
set_target to_active actor actor_type db u = record u {
  status = active;
  suspended_at = none;
  suspended_by_user_id = none;
  suspended_by_user_type = none;
  updated_at = db.now;
  updated_by_user_id = some actor;
  updated_by_user_type = some actor_type;
}

abbrev pub moved_event : Session → Target → TenantUser → TenantUserDetailRow → Db → Uuid → Event
moved_event s target old row db rid =
    user_event s (action_code target) old.id old.full_name
      (build_success_details_for_transition (status_value old.status)
        (status_value (target_status target)))
      old.tenant_id db rid

abbrev pub update_user : Session → Uuid → (Db → TenantUser → TenantUser) → Txn (Unit {0})
update_user s user_id f =
    modify
      (λ db. record db { tenant_users = update_where (is_user s user_id) (f db) db.tenant_users })

module _ (sort_names : List Text → List Text) (s : Session) (target : Target) (actor : Uuid)
    (actor_type : ActorUserType) (auth : Option AuthContext) (rid : Option Uuid) where
  abbrev pub move : Uuid → TenantUser → Txn (Option TenantUserDetailRow × TransitionResult)
  move user_id u = do
    update_user s user_id (set_target target actor actor_type)
    row ← get_by_id s user_id
    emit_paired sort_names s (moved_event s target u) auth rid row
    pure (row, moved)

  abbrev pub decide : Uuid → Option TenantUser → Txn (Option TenantUserDetailRow × TransitionResult)
  decide user_id none = pure (none, not_found)
  decide user_id (some u) =
      if is_source target u.status then move user_id u else pure (none, invalid_state)

  unfoldable pub transition : Uuid → Txn (Option TenantUserDetailRow × TransitionResult)
  transition user_id = do
    found ← gets (λ db. find (is_user s user_id) db.tenant_users)
    decide user_id found
