-- ===== src/Models/AuditLogs.antt =====
-- Rows of src/admin_backend/models/audit_log.py.
use cortex_cm.Base.{Option, Text}
use cortex_cm.Models.Columns.{Uuid, Timestamp, Json}
use cortex_cm.Models.TenantUsers.{ActorUserType}

pub data AuditResultType : Type 0 where
  success permission_denied validation_failed conflict integrity_violation internal_error :
      AuditResultType

pub record TenantActivityAuditLog : Type 0 where
  pub id : Uuid
  pub timestamp : Timestamp
  pub tenant_id : Uuid
  pub tenant_name : Text
  pub actor_user_id : Uuid
  pub actor_user_type : ActorUserType
  pub actor_display_name : Text
  pub resource_type : Text
  pub resource_id : Option Uuid
  pub resource_label : Option Text
  pub resource_subtype : Option Text
  pub action : Text
  pub action_label : Text
  pub result_type : AuditResultType
  pub result_label : Text
  pub actor_organization_name : Text
  pub actor_roles : Text
  pub request_id : Uuid
  pub details : Json

pub record PlatformActivityAuditLog : Type 0 where
  pub id : Uuid
  pub timestamp : Timestamp
  pub tenant_id : Option Uuid
  pub tenant_name : Option Text
  pub actor_user_id : Uuid
  pub actor_user_type : ActorUserType
  pub actor_display_name : Text
  pub resource_type : Text
  pub resource_id : Option Uuid
  pub resource_label : Option Text
  pub resource_subtype : Option Text
  pub action : Text
  pub action_label : Text
  pub result_type : AuditResultType
  pub result_label : Text
  pub actor_organization_name : Text
  pub actor_roles : Text
  pub request_id : Uuid
  pub details : Json
