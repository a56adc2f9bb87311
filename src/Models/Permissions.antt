-- ===== src/Models/Permissions.antt =====
-- Rows of src/admin_backend/models/permission.py.
use cortex_cm.Base.{Option, Text}
use cortex_cm.Models.Columns.{Uuid, Timestamp}
use cortex_cm.Models.ModuleAccess.{ModuleCode}

pub data PermissionResource : Type 0 where
  pricing_rules markdowns expiring_items waste_log donation_routing campaigns users roles audit_log
        tenants stores org_nodes :
      PermissionResource

pub data PermissionAction : Type 0 where
  view configure execute approve override audit : PermissionAction

pub data PermissionScope : Type 0 where
  global tenant store : PermissionScope

pub record Permission : Type 0 where
  pub id : Uuid
  pub module_code : ModuleCode
  pub resource : PermissionResource
  pub action : PermissionAction
  pub scope : PermissionScope
  pub code : Text
  pub description : Option Text
  pub created_at : Timestamp
  pub updated_at : Timestamp
