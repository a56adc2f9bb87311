-- ===== src/Models/Assignments.antt =====
-- Rows of src/admin_backend/models/platform_user_role_assignment.py, src/admin_backend/models/tenant_user_role_assignment.py.
use cortex_cm.Base.{Option}
use cortex_cm.Models.Columns.{Uuid, Timestamp}
use cortex_cm.Models.TenantUsers.{ActorUserType}

pub data UserRoleAssignmentStatus : Type 0 where
  active inactive : UserRoleAssignmentStatus

pub record PlatformUserRoleAssignment : Type 0 where
  pub id : Uuid
  pub platform_user_id : Uuid
  pub role_id : Uuid
  pub status : UserRoleAssignmentStatus
  pub granted_at : Timestamp
  pub granted_by_user_id : Option Uuid
  pub granted_by_user_type : Option ActorUserType
  pub revoked_at : Option Timestamp
  pub revoked_by_user_id : Option Uuid
  pub revoked_by_user_type : Option ActorUserType
  pub updated_at : Timestamp

pub record TenantUserRoleAssignment : Type 0 where
  pub id : Uuid
  pub tenant_user_id : Uuid
  pub tenant_id : Uuid
  pub org_node_id : Uuid
  pub role_id : Uuid
  pub status : UserRoleAssignmentStatus
  pub granted_at : Timestamp
  pub granted_by_user_id : Option Uuid
  pub granted_by_user_type : Option ActorUserType
  pub revoked_at : Option Timestamp
  pub revoked_by_user_id : Option Uuid
  pub revoked_by_user_type : Option ActorUserType
  pub updated_at : Timestamp
