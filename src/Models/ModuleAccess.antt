-- ===== src/Models/ModuleAccess.antt =====
-- Rows of src/admin_backend/models/tenant_module_access.py.
use cortex_cm.Base.{Option}
use cortex_cm.Models.Columns.{Uuid, Timestamp}

pub data ModuleCode : Type 0 where
  pricing_os perishables_assistant promotions_assistant goal_console admin : ModuleCode

pub data ModuleAccessStatus : Type 0 where
  enabled disabled : ModuleAccessStatus

pub record TenantModuleAccess : Type 0 where
  pub id : Uuid
  pub tenant_id : Uuid
  pub module_code : ModuleCode
  pub status : ModuleAccessStatus
  pub enabled_at : Timestamp
  pub enabled_by_user_id : Uuid
  pub disabled_at : Option Timestamp
  pub disabled_by_user_id : Option Uuid
  pub created_at : Timestamp
  pub created_by_user_id : Uuid
  pub updated_at : Timestamp
  pub updated_by_user_id : Uuid
