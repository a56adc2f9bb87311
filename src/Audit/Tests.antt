-- ===== src/Audit/Tests.antt =====
-- A label, and an event that is emitted.
use cortex_cm.Base.{◌≡◌, ◌⊎◌, refl, true, false, none, some, List, [], ◌∷◌, Text, codes}
use cortex_cm.Result.{ok}
use cortex_cm.Models.Columns.{null}
use cortex_cm.Models.AuditLogs.{AuditResultType, TenantActivityAuditLog, PlatformActivityAuditLog}
use cortex_cm.Models.TenantUsers.{tenant}
use cortex_cm.Database.Tables.{Db}
use cortex_cm.Database.Session.{session_of, admits}
use cortex_cm.Audit.Emit.{
  Event, in_tenant, in_platform, add_row, emit_audit_event, emit_audit_event-routing,
}
use cortex_cm.Samples.{acme, member}

abbrev as_is : List Text → List Text
as_is names = names

abbrev event : Event
event = record {
  action = codes "CREATE";
  action_label = none;
  resource_type = codes "TENANT";
  resource_id = none;
  resource_label = none;
  resource_subtype = none;
  result_type = AuditResultType.success;
  result_label = none;
  details = null;
  tenant_id = none;
  tenant_name = none;
  request_id = 5;
  route_to_platform = true;
}

abbrev event_row : PlatformActivityAuditLog
event_row = record {
  id = 1000;
  timestamp = 0;
  tenant_id = none;
  tenant_name = none;
  actor_user_id = 7;
  actor_user_type = tenant;
  actor_display_name = codes "a@b.co";
  resource_type = codes "TENANT";
  resource_id = none;
  resource_label = none;
  resource_subtype = none;
  action = codes "CREATE";
  action_label = codes "Created";
  result_type = AuditResultType.success;
  result_label = codes "Success";
  actor_organization_name = codes "-";
  actor_roles = codes "-";
  request_id = 5;
  details = null;
}

abbrev emitted : Db
emitted = record acme { platform_activity_audit_logs = event_row ∷ []; next_id = 1001 }

event_is_emitted : emit_audit_event as_is (session_of member) member event acme ≡ ok (tt, emitted)
unfolding emit_audit_event admits
event_is_emitted = refl

emit_audit_event-routing_example :
    ((r : TenantActivityAuditLog) × (none ≡ some r.tenant_id)
      × (true ≡ false)
      × (r.actor_user_id ≡ 7)
      × (admits (session_of member) r.tenant_id ≡ true)
      × (emitted ≡ add_row as_is (session_of member) (in_tenant r) acme))
    ⊎ ((r : PlatformActivityAuditLog) × ((event.tenant_id ≡ none) ⊎ (true ≡ true))
        × (r.tenant_id ≡ none)
        × (r.actor_user_id ≡ 7)
        × (emitted ≡ add_row as_is (session_of member) (in_platform r) acme))
emit_audit_event-routing_example =
    emit_audit_event-routing as_is (session_of member) member event acme emitted event_is_emitted
