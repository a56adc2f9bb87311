-- ===== src/Users/Accept.antt =====
-- `TenantUsersRepo.accept_invitation` of src/admin_backend/repositories/tenant_users.py.
use cortex_cm.Base.{
  Bool, true, false, not, ◌&&◌, Option, none, some, List, Text, codes, text_eq, length, any, find,
  select, update_where, ltb, ◌==◌, if◌then◌else◌,
}
use cortex_cm.Errors.{uncaught}
use cortex_cm.Models.Columns.{Uuid}
use cortex_cm.Models.TenantUsers.{
  TenantUser, TenantUserStatus, ActorUserType, invited, active, suspended,
}
use cortex_cm.Auth.Context.{AuthContext}
use cortex_cm.Database.Tables.{Db}
use cortex_cm.Database.Session.{Session}
use cortex_cm.Database.Txn.{Txn, pure, gets, modify, throw_if, ◌>>=◌, ◌>>◌}
use cortex_cm.Audit.Details.{build_success_details_for_transition}
use cortex_cm.Audit.Emit.{Event}
use cortex_cm.Users.Detail.{TenantUserDetailRow, is_user, get_by_id}
use cortex_cm.Users.Report.{user_event, emit_paired}

pub data AcceptInvitationResult : Type 0 where
  activated already_active not_invited conflict not_found : AcceptInvitationResult

abbrev pub is_invited : TenantUserStatus → Bool
is_invited invited = true
is_invited _ = false

abbrev pub is_member : Session → Uuid → Uuid → TenantUser → Bool
is_member s user_id tenant_id u = is_user s user_id u && u.tenant_id == tenant_id

-- The condition of the guarded UPDATE.
abbrev pub is_invitee : Session → Uuid → Uuid → TenantUser → Bool
is_invitee s user_id tenant_id u = is_member s user_id tenant_id u && is_invited u.status

abbrev pub has_sub : Text → Option Text → Bool
has_sub sub none = false
has_sub sub (some old) = text_eq old sub

-- `uq_tenant_users_tenant_auth0_sub`, against the other rows.
abbrev pub is_sub_taken : Uuid → Uuid → Text → TenantUser → Bool
is_sub_taken user_id tenant_id sub u =
    u.tenant_id == tenant_id && (not (u.id == user_id) && has_sub sub u.auth0_sub)

abbrev pub set_accepted : Uuid → Text → Db → TenantUser → TenantUser
set_accepted user_id sub db u = record u {
  status = active;
  auth0_sub = some sub;
  invitation_accepted_at = some db.now;
  updated_at = db.now;
  updated_by_user_id = some user_id;
  updated_by_user_type = some ActorUserType.tenant;
}

abbrev pub accepted_event : Session → Uuid → Uuid → TenantUserDetailRow → Db → Uuid → Event
accepted_event s user_id tenant_id row db rid =
    user_event s (codes "ACCEPT_INVITATION") user_id row.user.full_name
      (build_success_details_for_transition (codes "INVITED") (codes "ACTIVE")) tenant_id db rid

abbrev pub outcome_of : TenantUserStatus → AcceptInvitationResult
outcome_of active = already_active
outcome_of invited = conflict
outcome_of suspended = not_invited

-- The classification of a row that the UPDATE has not met.
abbrev pub classify : Option TenantUser → AcceptInvitationResult
classify none = AcceptInvitationResult.not_found
classify (some u) = outcome_of u.status

module _ (sort_names : List Text → List Text) (s : Session) (user_id tenant_id : Uuid)
    (auth0_sub : Text) (auth : Option AuthContext) (rid : Option Uuid) where
  abbrev pub respond_activated : Txn (Option TenantUserDetailRow × AcceptInvitationResult)
  respond_activated = do
    row ← get_by_id s user_id
    emit_paired sort_names s (accepted_event s user_id tenant_id) auth rid row
    pure (row, activated)

  abbrev pub respond_refused : Txn (Option TenantUserDetailRow × AcceptInvitationResult)
  respond_refused = do
    found ← gets (λ db. find (is_member s user_id tenant_id) db.tenant_users)
    pure (none, classify found)

  -- The UPDATE, and its `rowcount`.
  abbrev pub accept_rows : Txn Bool
  accept_rows = do
    rows ← gets (λ db. length (select (is_invitee s user_id tenant_id) db.tenant_users))
    taken ← gets (λ db. any (is_sub_taken user_id tenant_id auth0_sub) db.tenant_users)
    throw_if (ltb 0 rows && taken) uncaught
    modify (λ db. record db {
      tenant_users =
          update_where (is_invitee s user_id tenant_id) (set_accepted user_id auth0_sub db)
            db.tenant_users;
    })
    pure (rows == 1)

  unfoldable pub accept_invitation : Txn (Option TenantUserDetailRow × AcceptInvitationResult)
  accept_invitation = do
    is_matched ← accept_rows
    if is_matched then respond_activated else respond_refused
