-- ===== src/Models/OrgNodes.antt =====
-- Rows of src/admin_backend/models/org_node.py.
use cortex_cm.Base.{Option, Text}
use cortex_cm.Models.Columns.{Uuid, Timestamp}
use cortex_cm.Models.TenantUsers.{ActorUserType}

pub data OrgNodeType : Type 0 where
  tenant business_unit hq country region store department : OrgNodeType

pub data OrgNodeStatus : Type 0 where
  active inactive archived : OrgNodeStatus

pub record OrgNode : Type 0 where
  pub id : Uuid
  pub tenant_id : Uuid
  pub parent_id : Option Uuid
  pub path : Text
  pub node_type : OrgNodeType
  pub name : Text
  pub code : Text
  pub status : OrgNodeStatus
  pub created_at : Timestamp
  pub created_by_user_id : Option Uuid
  pub created_by_user_type : Option ActorUserType
  pub updated_at : Timestamp
  pub updated_by_user_id : Option Uuid
  pub updated_by_user_type : Option ActorUserType
  pub archived_at : Option Timestamp
  pub archived_by_user_id : Option Uuid
  pub archived_by_user_type : Option ActorUserType
