-- ===== src/Modules/Access.antt =====
-- `ModulesAccessRepo.enable` and `ModulesAccessRepo.disable` of
-- src/admin_backend/repositories/modules_access.py.
use cortex_cm.Base.{
  Bool, true, false, ◌&&◌, Option, none, some, List, [], ◌∷◌, Text, codes, ◌==◌, find,
}
use cortex_cm.Errors.{uncaught}
use cortex_cm.Models.Columns.{Uuid, Json, null, str}
use cortex_cm.Models.Tenants.{Tenant}
use cortex_cm.Models.TenantUsers.{tenant}
use cortex_cm.Models.ModuleAccess.{
  TenantModuleAccess, ModuleCode, ModuleAccessStatus, enabled, disabled,
}
use cortex_cm.Models.AuditLogs.{AuditResultType}
use cortex_cm.Auth.Context.{AuthContext}
use cortex_cm.Database.Tables.{Db}
use cortex_cm.Database.Session.{Session, admits}
use cortex_cm.Database.Txn.{Txn, pure, throw, gets, throw_if, ◌>>=◌, ◌>>◌}
use cortex_cm.Modules.Rows.{
  module_value, set_enabled, set_disabled, select_for_update, refetch, insert_enabled,
  apply_transition,
}
use cortex_cm.Audit.Details.{build_success_details_for_update}
use cortex_cm.Audit.Emit.{emit_audit_event}

pub data TransitionResult : Type 0 where
  ok not_found : TransitionResult

-- `(auth is None) != (request_id is None)`
abbrev pub is_unpaired : Option AuthContext → Option Uuid → Bool
is_unpaired none none = false
is_unpaired (some a) (some r) = false
is_unpaired _ _ = true

-- `ModuleAccessStatus.value`, or null where there was no row.
abbrev status_json : Option ModuleAccessStatus → Json
status_json none = null
status_json (some enabled) = str (codes "ENABLED")
status_json (some disabled) = str (codes "DISABLED")

abbrev status_details : Option ModuleAccessStatus → ModuleAccessStatus → Json
status_details before after =
    build_success_details_for_update (("status", status_json before) ∷ [])
      (("status", status_json (some after)) ∷ [])

abbrev action_of : ModuleAccessStatus → Text
action_of enabled = codes "ENABLE"
action_of disabled = codes "DISABLE"

-- `str(x) if x else fallback`: an empty text gives way too.
abbrev text_or : Option Text → Text → Text
text_or none fallback = fallback
text_or (some []) fallback = fallback
text_or (some (c ∷ t)) fallback = c ∷ t

abbrev tenant_name_of : Option Tenant → Option Text
tenant_name_of none = none
tenant_name_of (some x) = some x.name

-- The settings of a session whose transaction `session.rollback()` has ended: they were local to it.
abbrev pub unset : Session
unset = record { tenant_id = none; user_type = tenant }

-- `module_label` reads the label of a module from the table of lookups.
module _ (module_label : ModuleCode → Option Text) (sort_names : List Text → List Text)
    (s : Session) where
  abbrev pub lookup_tenant_and_module_labels : Uuid → ModuleCode → Txn (Text × Text)
  lookup_tenant_and_module_labels t m = gets (λ db. (
    text_or (tenant_name_of (find (λ x. admits s x.id && x.id == t) db.tenants))
        (codes "<unknown>"),
    text_or (module_label m) (module_value m),
  ))

  -- `if auth is not None and request_id is not None`
  abbrev pub emit_changed :
      Uuid
      → ModuleCode
      → Option AuthContext
      → Option Uuid
      → Option ModuleAccessStatus
      → ModuleAccessStatus
      → TenantModuleAccess
      → Txn (Unit {0})
  emit_changed t m (some a) (some rid) before after row = do
    names ← lookup_tenant_and_module_labels t m
    emit_audit_event sort_names s a (record {
      action = action_of after;
      action_label = none;
      resource_type = codes "MODULE_ACCESS";
      resource_id = some row.id;
      resource_label = some names.1;
      resource_subtype = none;
      result_type = AuditResultType.success;
      result_label = none;
      details = status_details before after;
      tenant_id = some t;
      tenant_name = some names.0;
      request_id = rid;
      route_to_platform = false;
    })
  emit_changed t m _ _ before after row = pure tt

  abbrev pub report_enabled :
      Uuid
      → ModuleCode
      → Option AuthContext
      → Option Uuid
      → Option ModuleAccessStatus
      → TenantModuleAccess
      → Txn TenantModuleAccess
  report_enabled t m a rid before row = emit_changed t m a rid before enabled row >> pure row

  abbrev pub enable_status :
      Uuid
      → ModuleCode
      → Uuid
      → Option AuthContext
      → Option Uuid
      → TenantModuleAccess
      → ModuleAccessStatus
      → Txn TenantModuleAccess
  enable_status t m actor a rid existing disabled = do
    row ← apply_transition s set_enabled actor existing
    report_enabled t m a rid (some disabled) row
  enable_status t m actor a rid existing enabled = refetch s existing.id

  -- What is left to do once the row is locked.
  abbrev pub enable_existing :
      Uuid
      → ModuleCode
      → Uuid
      → Option AuthContext
      → Option Uuid
      → TenantModuleAccess
      → Txn TenantModuleAccess
  enable_existing t m actor a rid existing = enable_status t m actor a rid existing existing.status

  abbrev pub disable_status :
      Uuid
      → ModuleCode
      → Uuid
      → Option AuthContext
      → Option Uuid
      → TenantModuleAccess
      → ModuleAccessStatus
      → Txn (Option TenantModuleAccess × TransitionResult)
  disable_status t m actor a rid existing enabled = do
    row ← apply_transition s set_disabled actor existing
    emit_changed t m a rid (some enabled) disabled row
    pure (some row, TransitionResult.ok)
  disable_status t m actor a rid existing disabled = do
    row ← refetch s existing.id
    pure (some row, TransitionResult.ok)

  abbrev pub disable_found :
      Uuid
      → ModuleCode
      → Uuid
      → Option AuthContext
      → Option Uuid
      → Option TenantModuleAccess
      → Txn (Option TenantModuleAccess × TransitionResult)
  disable_found t m actor a rid none = pure (none, not_found)
  disable_found t m actor a rid (some existing) =
      disable_status t m actor a rid existing existing.status

  unfoldable pub disable :
      Uuid
      → ModuleCode
      → Uuid
      → Option AuthContext
      → Option Uuid
      → Txn (Option TenantModuleAccess × TransitionResult)
  disable t m actor a rid = do
    throw_if (is_unpaired a rid) uncaught
    existing ← select_for_update s t m
    disable_found t m actor a rid existing

module _ (module_label : ModuleCode → Option Text) (sort_names : List Text → List Text)
    (s : Session) where
  -- The second SELECT runs after the rollback, without the settings of the request.
  abbrev retry_found :
      Uuid
      → ModuleCode
      → Uuid
      → Option AuthContext
      → Option Uuid
      → Option TenantModuleAccess
      → Txn TenantModuleAccess
  retry_found t m actor a rid none = throw uncaught
  retry_found t m actor a rid (some existing) =
      enable_existing module_label sort_names unset t m actor a rid existing

  abbrev pub after_insert :
      Uuid
      → ModuleCode
      → Uuid
      → Option AuthContext
      → Option Uuid
      → Option TenantModuleAccess
      → Txn TenantModuleAccess
  after_insert t m actor a rid (some row) =
      report_enabled module_label sort_names s t m a rid none row
  after_insert t m actor a rid none = do
    found ← select_for_update unset t m
    retry_found t m actor a rid found

  abbrev pub enable_found :
      (Db → Db)
      → Uuid
      → ModuleCode
      → Uuid
      → Option AuthContext
      → Option Uuid
      → Option TenantModuleAccess
      → Txn TenantModuleAccess
  enable_found race t m actor a rid none = do
    inserted ← insert_enabled s race t m actor
    after_insert t m actor a rid inserted
  enable_found race t m actor a rid (some existing) =
      enable_existing module_label sort_names s t m actor a rid existing

  unfoldable pub enable :
      (Db → Db)
      → Uuid
      → ModuleCode
      → Uuid
      → Option AuthContext
      → Option Uuid
      → Txn TenantModuleAccess
  enable race t m actor a rid = do
    throw_if (is_unpaired a rid) uncaught
    existing ← select_for_update s t m
    enable_found race t m actor a rid existing
