-- ===== src/Models/Roles.antt =====
-- Rows of src/admin_backend/models/role.py, src/admin_backend/models/role_permission.py.
use cortex_cm.Base.{Bool, Option, Text}
use cortex_cm.Models.Columns.{Uuid, Timestamp}
use cortex_cm.Models.TenantUsers.{ActorUserType}

pub data RoleAudience : Type 0 where
  platform tenant : RoleAudience

pub data RoleStatus : Type 0 where
  active inactive archived : RoleStatus

pub record Role : Type 0 where
  pub id : Uuid
  pub name : Text
  pub code : Text
  pub description : Option Text
  pub audience : RoleAudience
  pub status : RoleStatus
  pub is_system : Bool
  pub created_at : Timestamp
  pub created_by_user_id : Option Uuid
  pub created_by_user_type : Option ActorUserType
  pub updated_at : Timestamp
  pub updated_by_user_id : Option Uuid
  pub updated_by_user_type : Option ActorUserType
  pub archived_at : Option Timestamp
  pub archived_by_user_id : Option Uuid
  pub archived_by_user_type : Option ActorUserType

pub record RolePermission : Type 0 where
  pub role_id : Uuid
  pub permission_id : Uuid
  pub created_at : Timestamp
  pub created_by_user_id : Option Uuid
  pub created_by_user_type : Option ActorUserType
