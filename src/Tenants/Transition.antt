-- ===== src/Tenants/Transition.antt =====
-- `TenantsRepo.transition` and `TenantsRepo.get_by_id_with_aggregates` of
-- src/admin_backend/repositories/tenants.py.
use cortex_cm.Base.{
  ℕ, Bool, true, false, ◌&&◌, Option, none, some, List, map, Text, codes, ◌==◌, if◌then◌else◌, find,
  select, update_where, length,
}
use cortex_cm.Errors.{uncaught}
use cortex_cm.Models.Columns.{Uuid}
use cortex_cm.Models.Tenants.{
  Tenant, TenantStatus, onboarding, trial, active, suspended, terminated,
}
use cortex_cm.Models.Stores.{Store}
use cortex_cm.Models.TenantUsers.{TenantUser, TenantUserStatus}
use cortex_cm.Models.ModuleAccess.{TenantModuleAccess, ModuleCode}
use cortex_cm.Models.AuditLogs.{AuditResultType}
use cortex_cm.Auth.Context.{AuthContext}
use cortex_cm.Database.Tables.{Db}
use cortex_cm.Database.Session.{Session, admits}
use cortex_cm.Database.Txn.{Txn, pure, throw, gets, modify, ◌>>=◌, ◌>>◌}
use cortex_cm.Permission.Catalogue.{is_enabled}
use cortex_cm.Audit.Details.{build_success_details_for_transition}
use cortex_cm.Audit.Emit.{emit_audit_event}

-- `OK` is `moved` here.
pub data TransitionResult : Type 0 where
  moved not_found invalid_state : TransitionResult

-- `Literal["SUSPENDED", "ACTIVE"]`
pub data Target : Type 0 where
  to_suspended to_active : Target

-- `current.status in allowed_sources[target_status]`
unfoldable pub is_source : Target → TenantStatus → Bool
is_source to_suspended trial = true
is_source to_suspended active = true
is_source to_active trial = true
is_source to_active suspended = true
is_source _ _ = false

abbrev target_value : Target → Text
target_value to_suspended = codes "SUSPENDED"
target_value to_active = codes "ACTIVE"

-- `TenantStatus.value`
abbrev status_value : TenantStatus → Text
status_value onboarding = codes "ONBOARDING"
status_value trial = codes "TRIAL"
status_value active = codes "ACTIVE"
status_value suspended = codes "SUSPENDED"
status_value terminated = codes "TERMINATED"

abbrev transition_action : Target → Text
transition_action to_suspended = codes "SUSPEND"
transition_action to_active = codes "ACTIVATE"

-- The two UPDATEs, with the trigger that stamps `updated_at`.
abbrev pub set_target : Target → Uuid → Db → Tenant → Tenant
set_target to_suspended actor db t = record t {
  status = suspended;
  suspended_at = some db.now;
  suspended_by_user_id = some actor;
  updated_at = db.now;
  updated_by_user_id = some actor;
}
set_target to_active actor db t = record t {
  status = active;
  suspended_at = none;
  suspended_by_user_id = none;
  updated_at = db.now;
  updated_by_user_id = some actor;
}

-- `modules` has the code and the display name of each enabled module.
pub record TenantDetailRow : Type 0 where
  pub tenant : Tenant
  pub num_stores : ℕ
  pub num_users_active : ℕ
  pub modules : List (Text × Text)

abbrev is_active_user : TenantUserStatus → Bool
is_active_user TenantUserStatus.active = true
is_active_user _ = false

abbrev pub is_tenant : Session → Uuid → Tenant → Bool
is_tenant s id t = admits s t.id && t.id == id

-- `named` is the join of module codes with the `lookups` table, in its display order.
module _ (named : List ModuleCode → List (Text × Text)) (s : Session) where
  abbrev detail : Db → Tenant → TenantDetailRow
  detail db t = record {
    tenant = t;
    num_stores =
        length (select (λ (st : Store). admits s st.tenant_id && st.tenant_id == t.id) db.stores);
    num_users_active = length (
        select
          (λ (u : TenantUser).
            admits s u.tenant_id && (u.tenant_id == t.id && is_active_user u.status))
          db.tenant_users);
    modules = named (
        map (λ (m : TenantModuleAccess). m.module_code)
          (select (λ m. admits s m.tenant_id && (m.tenant_id == t.id && is_enabled m.status))
            db.tenant_module_access));
  }

  abbrev detail_of : Db → Option Tenant → Option TenantDetailRow
  detail_of db none = none
  detail_of db (some t) = some (detail db t)

  abbrev pub get_by_id_with_aggregates : Uuid → Txn (Option TenantDetailRow)
  get_by_id_with_aggregates id = gets (λ db. detail_of db (find (is_tenant s id) db.tenants))

module _ (named : List ModuleCode → List (Text × Text)) (sort_names : List Text → List Text)
    (s : Session) where
  -- The audit row, and the `ValueError` for one of `auth` and `request_id` without the other.
  abbrev pub emit_moved :
      Uuid
      → Target
      → TenantStatus
      → Option AuthContext
      → Option Uuid
      → Option TenantDetailRow
      → Txn (Unit {0})
  emit_moved id target current none none row = pure tt
  emit_moved id target current (some a) none row = throw uncaught
  emit_moved id target current none (some rid) row = throw uncaught
  emit_moved id target current (some a) (some rid) none = pure tt
  emit_moved id target current (some a) (some rid) (some row) =
      emit_audit_event sort_names s a (record {
        action = transition_action target;
        action_label = none;
        resource_type = codes "TENANT";
        resource_id = some id;
        resource_label = some row.tenant.name;
        resource_subtype = none;
        result_type = AuditResultType.success;
        result_label = none;
        details = build_success_details_for_transition (status_value current) (target_value target);
        tenant_id = some id;
        tenant_name = some row.tenant.name;
        request_id = rid;
        route_to_platform = false;
      })

  abbrev pub move :
      Uuid
      → Target
      → Uuid
      → Option AuthContext
      → Option Uuid
      → TenantStatus
      → Txn (Option TenantDetailRow × TransitionResult)
  move id target actor a rid current = do
    modify (λ db. record db {
      tenants = update_where (is_tenant s id) (set_target target actor db) db.tenants;
    })
    row ← get_by_id_with_aggregates named s id
    emit_moved id target current a rid row
    pure (row, moved)

  abbrev pub decide :
      Uuid
      → Target
      → Uuid
      → Option AuthContext
      → Option Uuid
      → Option Tenant
      → Txn (Option TenantDetailRow × TransitionResult)
  decide id target actor a rid none = pure (none, not_found)
  decide id target actor a rid (some t) =
      if is_source target t.status
      then move id target actor a rid t.status
      else pure (none, invalid_state)

  unfoldable pub transition :
      Uuid
      → Target
      → Uuid
      → Option AuthContext
      → Option Uuid
      → Txn (Option TenantDetailRow × TransitionResult)
  transition id target actor a rid = do
    found ← gets (λ db. find (is_tenant s id) db.tenants)
    decide id target actor a rid found
